-- ===== src/Binprot/Parser/RoundTrip.antt =====
-- protocol/binprot: the data commands of commands.go, and what the parser makes of them.
use mathlib.Core.List.{append_assoc}
use rend.Prelude.{
  ℕ, ◌+◌, ◌%◌, ◌^◌, ◌<◌, ◌≡◌, refl, ap, ◌∙◌, Bool, false, ◌++◌, length, Bytes, arith,
}
use rend.Common.{Request, set_request, RequestType}
use rend.Binprot.Opcode
use rend.Binprot.Wire.{ok, read_string, put_uint32, read_full-append, read_uint32-put}
use rend.Binprot.Headers.{
  RequestHeader, IsRequestHeader, make_request_header, write_request_header,
  read-write_request_header, make_request_header-IsRequestHeader,
}
use rend.Binprot.Commands.{
  write_data_cmd_common, write_set_cmd, write_add_cmd, write_replace_cmd,
  write_append_prepend_cmd_common, write_append_cmd, write_prepend_cmd,
}
use rend.Binprot.Parser.{parsed, finish, sub32, set_req, append_prepend_request, dispatch, parse}

-- A written header takes `Parse` to its `switch`.
pub parse_header :
    (h : RequestHeader) (body : Bytes)
    → IsRequestHeader h
    → parse (write_request_header h ++ body) ≡ dispatch h body
unfolding parse
parse_header h body v = rw (read-write_request_header h body v)

pub read_string-append :
    (key rest : Bytes) (n : ℕ) → length key ≡ n → read_string n (key ++ rest) ≡ (ok key, rest)
unfolding read_string
read_string-append key rest n e = read_full-append key rest n e

-- The request of a data command.
abbrev pub data_request : Bytes → Bytes → ℕ → ℕ → ℕ → Bool → Request
data_request key value flags exptime opaque quiet = set_request (record {
  key = key;
  value = value;
  flags = flags;
  exptime = exptime;
  opaque = opaque;
  quiet = quiet;
})

set_req_written :
    (opcode : ℕ) (key value rest : Bytes) (flags exptime opaque : ℕ) (quiet : Bool)
    → length key < 2 ^ 16
    → length key + 8 + length value < 2 ^ 32
    → flags < 2 ^ 32
    → exptime < 2 ^ 32
    → set_req
        (make_request_header opcode (length key) 8 (length key + 8 + length value) opaque)
        quiet
        (put_uint32 flags ++ (put_uint32 exptime ++ (key ++ (value ++ rest))))
      ≡ (ok (data_request key value flags exptime opaque quiet), rest)
unfolding set_req make_request_header
set_req_written opcode key value rest flags exptime opaque quiet hk ht hf he = rw (
  read_uint32-put flags _ hf,
  read_uint32-put exptime _ he,
  read_string-append key (value ++ rest) (length key % 2 ^ 16) (omega arith),
  read_full-append value rest
      (sub32 (sub32 ((length key + 8 + length value) % 2 ^ 32) 8) (length key % 2 ^ 16))
      (omega arith),
)

append_prepend_written :
    (opcode : ℕ) (key value rest : Bytes) (opaque : ℕ) (quiet : Bool)
    → length key < 2 ^ 16
    → length key + length value < 2 ^ 32
    → append_prepend_request
        (make_request_header opcode (length key) 0 (length key + length value) opaque)
        quiet
        (key ++ (value ++ rest))
      ≡ (ok (data_request key value 0 0 opaque quiet), rest)
unfolding append_prepend_request make_request_header
append_prepend_written opcode key value rest opaque quiet hk ht = rw (
  read_string-append key (value ++ rest) (length key % 2 ^ 16) (omega arith),
  read_full-append value rest (sub32 ((length key + length value) % 2 ^ 32) (length key % 2 ^ 16))
      (omega arith),
)

-- Regrouping of what is written and what follows it.
data_cmd-append :
    (opcode : ℕ) (key value rest : Bytes) (flags exptime n opaque : ℕ)
    → write_data_cmd_common opcode key flags exptime n opaque ++ (value ++ rest)
      ≡ write_request_header (make_request_header opcode (length key) 8 (length key + 8 + n) opaque)
        ++ (put_uint32 flags ++ (put_uint32 exptime ++ (key ++ (value ++ rest))))
unfolding write_data_cmd_common
data_cmd-append opcode key value rest flags exptime n opaque = simp append_assoc

-- Sizes and numbers for which a data command fits its header.
pub record Fits (key value : Bytes) (flags exptime opaque : ℕ) : Type 0 where
  pub key_fits : length key < 2 ^ 16
  pub total_fits : length key + 8 + length value < 2 ^ 32
  pub flags_fit : flags < 2 ^ 32
  pub exptime_fits : exptime < 2 ^ 32
  pub opaque_fits : opaque < 2 ^ 32

-- One data command, where `dispatch` sends its opcode to `setRequest`.
parse_data :
    (opcode : ℕ) (t : RequestType) (quiet : Bool) (key value rest : Bytes)
    (flags exptime opaque : ℕ)
    → Fits key value flags exptime opaque
    → ((s : Bytes)
        → dispatch
            (make_request_header opcode (length key) 8 (length key + 8 + length value) opaque)
            s
          ≡ finish t (
              set_req
                (make_request_header opcode (length key) 8 (length key + 8 + length value) opaque)
                quiet
                s))
    → parse
        (write_data_cmd_common opcode key flags exptime (length value) opaque ++ (value ++ rest))
      ≡ (parsed (data_request key value flags exptime opaque quiet) t, rest)
parse_data opcode t quiet key value rest flags exptime opaque v d =
    rw (data_cmd-append opcode key value rest flags exptime (length value) opaque) (
      parse_header _ _ (
        make_request_header-IsRequestHeader opcode (length key) 8 (length key + 8 + length value)
          opaque v.opaque_fits)
      ∙ d _
      ∙ ap (finish t) (
          set_req_written opcode key value rest flags exptime opaque quiet v.key_fits v.total_fits
            v.flags_fit v.exptime_fits))

-- A set, add or replace command followed by its data is read back as the request with the same
-- key, data, flags, expiry and opaque, and what follows is left on the stream.
pub parse-data_cmds :
    (key value rest : Bytes) (flags exptime opaque : ℕ)
    → Fits key value flags exptime opaque
    → (parse (write_set_cmd key flags exptime (length value) opaque ++ (value ++ rest))
        ≡ (parsed (data_request key value flags exptime opaque false) RequestType.set, rest))
      × (parse (write_add_cmd key flags exptime (length value) opaque ++ (value ++ rest))
          ≡ (parsed (data_request key value flags exptime opaque false) RequestType.add, rest))
      × (parse (write_replace_cmd key flags exptime (length value) opaque ++ (value ++ rest))
          ≡ (parsed (data_request key value flags exptime opaque false) RequestType.replace, rest))
unfolding write_set_cmd write_add_cmd write_replace_cmd dispatch make_request_header
parse-data_cmds key value rest flags exptime opaque v = (
  parse_data Opcode.set RequestType.set false key value rest flags exptime opaque v (λ s. refl),
  parse_data Opcode.add RequestType.add false key value rest flags exptime opaque v (λ s. refl),
  parse_data Opcode.replace RequestType.replace false key value rest flags exptime opaque v
      (λ s. refl),
)

parse_append_prepend :
    (opcode : ℕ) (t : RequestType) (key value rest : Bytes) (opaque : ℕ)
    → length key < 2 ^ 16
    → length key + length value < 2 ^ 32
    → opaque < 2 ^ 32
    → ((s : Bytes)
        → dispatch (make_request_header opcode (length key) 0 (length key + length value) opaque) s
          ≡ finish t (
              append_prepend_request
                (make_request_header opcode (length key) 0 (length key + length value) opaque)
                false
                s))
    → parse
        (write_append_prepend_cmd_common opcode key 0 0 (length value) opaque ++ (value ++ rest))
      ≡ (parsed (data_request key value 0 0 opaque false) t, rest)
unfolding write_append_prepend_cmd_common
parse_append_prepend opcode t key value rest opaque hk ht ho d = rw append_assoc (
    parse_header _ _ (
      make_request_header-IsRequestHeader opcode (length key) 0 (length key + length value) opaque
        ho)
    ∙ d _
    ∙ ap (finish t) (append_prepend_written opcode key value rest opaque false hk ht))

-- An append or prepend command followed by its data is read back as the request with the same
-- key, data and opaque, and with flags and expiry 0 whatever the caller gave for them.
pub parse-append_prepend_cmds :
    (key value rest : Bytes) (flags exptime opaque : ℕ)
    → Fits key value flags exptime opaque
    → (parse (write_append_cmd key flags exptime (length value) opaque ++ (value ++ rest))
        ≡ (parsed (data_request key value 0 0 opaque false) RequestType.append, rest))
      × (parse (write_prepend_cmd key flags exptime (length value) opaque ++ (value ++ rest))
          ≡ (parsed (data_request key value 0 0 opaque false) RequestType.prepend, rest))
unfolding write_append_cmd write_prepend_cmd write_append_prepend_cmd_common dispatch
    make_request_header
parse-append_prepend_cmds key value rest flags exptime opaque v = (
  parse_append_prepend Opcode.append RequestType.append key value rest opaque v.key_fits
      (omega arith) v.opaque_fits (λ s. refl),
  parse_append_prepend Opcode.prepend RequestType.prepend key value rest opaque v.key_fits
      (omega arith) v.opaque_fits (λ s. refl),
)
