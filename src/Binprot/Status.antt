-- ===== src/Binprot/Status.antt =====
-- protocol/binprot/types.go: status codes and the errors that they stand for.
use rend.Prelude.{ℕ, ◌<◌, ◌^◌, ◌≡◌, Option, none, some, ◌==◌, if◌then◌else◌, arith}
use rend.Common.{
  Error, key_not_found, key_exists, value_too_big, invalid_args, item_not_stored, bad_inc_dec_value,
  auth, unknown_cmd, no_mem, not_supported, internal, busy, temp_failure, is_app_error,
}
use rend.Binprot.StatusCode
use rend.Binprot.Headers.{ResponseHeader}

unfoldable pub decode_error : ResponseHeader → Option Error
decode_error h =
    if h.status == StatusCode.key_enoent
    then some key_not_found
    else if h.status == StatusCode.key_exists
    then some key_exists
    else if h.status == StatusCode.e2big
    then some value_too_big
    else if h.status == StatusCode.einval
    then some invalid_args
    else if h.status == StatusCode.not_stored
    then some item_not_stored
    else if h.status == StatusCode.delta_badval
    then some bad_inc_dec_value
    else if h.status == StatusCode.auth_error
    then some auth
    else if h.status == StatusCode.unknown_command
    then some unknown_cmd
    else if h.status == StatusCode.enomem
    then some no_mem
    else if h.status == StatusCode.not_supported
    then some not_supported
    else if h.status == StatusCode.internal_error
    then some internal
    else if h.status == StatusCode.busy
    then some busy
    else if h.status == StatusCode.temp_failure
    then some temp_failure
    else none

unfoldable pub error_to_code : Error → ℕ
error_to_code key_not_found = StatusCode.key_enoent
error_to_code key_exists = StatusCode.key_exists
error_to_code value_too_big = StatusCode.e2big
error_to_code invalid_args = StatusCode.einval
error_to_code item_not_stored = StatusCode.not_stored
error_to_code bad_inc_dec_value = StatusCode.delta_badval
error_to_code auth = StatusCode.auth_error
error_to_code unknown_cmd = StatusCode.unknown_command
error_to_code no_mem = StatusCode.enomem
error_to_code not_supported = StatusCode.not_supported
error_to_code internal = StatusCode.internal_error
error_to_code busy = StatusCode.busy
error_to_code temp_failure = StatusCode.temp_failure
error_to_code _ = StatusCode.invalid

-- The errors that a status code can carry, all others being lost.
abbrev pub carried : Error → Option Error
carried e = if is_app_error e then some e else none

-- A response with the status of an error decodes to that error if `IsAppError` accepts it, and to
-- no error at all otherwise.
pub decode-error_to_code :
    (h : ResponseHeader) (e : Error) → h.status ≡ error_to_code e → decode_error h ≡ carried e
unfolding decode_error error_to_code is_app_error
decode-error_to_code h key_not_found s = rw s
decode-error_to_code h _ s = rw s

pub error_to_code-lt : (e : Error) → error_to_code e < 2 ^ 16
unfolding error_to_code
error_to_code-lt key_not_found = omega arith
error_to_code-lt _ = omega arith
