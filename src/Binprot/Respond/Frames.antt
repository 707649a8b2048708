-- ===== src/Binprot/Respond/Frames.antt =====
-- protocol/binprot/respond.go: the frames that a client reads, and what each is to decode to.
use mathlib.Core.List.{append-nil}
use rend.Prelude.{
  ℕ, ◌^◌, ◌<◌, ◌≡◌, refl, sym, ◌∙◌, ◌⊎◌, Bool, true, false, not, ◌&&◌, [], ◌++◌, length, Option,
  none, some, Bytes, arith,
}
use rend.Common.{Error, key_not_found}
use rend.Protocol.{
  Reply, set, add, replace, append, prepend, get, get_end, get_e, gat, delete, touch, noop, quit,
  version, error,
}
use rend.Binprot.StatusCode
use rend.Binprot.Status.{
  error_to_code, decode_error, carried, decode-error_to_code, error_to_code-lt,
}
use rend.Binprot.Wire.{put_uint32}
use rend.Binprot.Headers.{ResponseHeader, IsResponseHeader, write_response_header}
use rend.Binprot.Respond.{success_header, error_header, version_string, respond}

-- The calls that the binary protocol answers with silence: quiet successes, quiet misses, and the
-- end of a batch that a plain get ended.
abbrev pub is_silent : Reply → Bool
is_silent (set o q) = q
is_silent (add o q) = q
is_silent (replace o q) = q
is_silent (append o q) = q
is_silent (prepend o q) = q
is_silent (get r) = r.miss && r.quiet
is_silent (get_end o noop_end) = not noop_end
is_silent (get_e r) = r.miss && r.quiet
is_silent (gat r) = r.miss && r.quiet
is_silent (quit o q) = q
is_silent (delete o) = false
is_silent (touch o) = false
is_silent (noop o) = false
is_silent (version o) = false
is_silent (error o t e q) = false

abbrev pub miss_error : Bool → Option Error
miss_error true = some key_not_found
miss_error false = none

-- The error that a client is told, if any.
abbrev pub told : Reply → Option Error
told (get r) = miss_error r.miss
told (get_e r) = miss_error r.miss
told (gat r) = miss_error r.miss
told (error o t e q) = carried e
told _ = none

abbrev pub reply_opaque : Reply → ℕ
reply_opaque (set o q) = o
reply_opaque (add o q) = o
reply_opaque (replace o q) = o
reply_opaque (append o q) = o
reply_opaque (prepend o q) = o
reply_opaque (get r) = r.opaque
reply_opaque (get_end o n) = o
reply_opaque (get_e r) = r.opaque
reply_opaque (gat r) = r.opaque
reply_opaque (quit o q) = o
reply_opaque (delete o) = o
reply_opaque (touch o) = o
reply_opaque (noop o) = o
reply_opaque (version o) = o
reply_opaque (error o t e q) = o

-- The extras and the data of the responses that have a body.
abbrev pub hit_body : Bool → Bytes → Bytes
hit_body true b = []
hit_body false b = b

abbrev pub reply_body : Reply → Bytes
reply_body (get r) = hit_body r.miss (put_uint32 r.flags ++ r.value)
reply_body (get_e r) = hit_body r.miss (put_uint32 r.flags ++ (put_uint32 r.exptime ++ r.value))
reply_body (gat r) = hit_body r.miss (put_uint32 r.flags ++ r.value)
reply_body (version o) = version_string
reply_body _ = []

-- A well-formed frame for a call: a header that reads back, followed by exactly the body that it
-- announces, which echoes the opaque and decodes to the error that the client is told.
pub record Frame (r : Reply) (h : ResponseHeader) : Type 0 where
  pub written : respond r ≡ write_response_header h ++ reply_body r
  pub readable : IsResponseHeader h
  pub announced : h.total_body_length ≡ length (reply_body r)
  pub echoed : h.opaque_token ≡ reply_opaque r
  pub decoded : decode_error h ≡ told r

-- Calls whose numbers fit their fields.
pub record FitsReply (r : Reply) : Type 0 where
  pub opaque_fits : reply_opaque r < 2 ^ 32
  pub body_fits : length (reply_body r) < 2 ^ 32

success_decodes : (h : ResponseHeader) → h.status ≡ StatusCode.success → decode_error h ≡ none
unfolding decode_error
success_decodes h e = rw e

pub success-Frame :
    (r : Reply) (opcode extra total o : ℕ)
    → respond r ≡ write_response_header (success_header opcode 0 extra total o) ++ reply_body r
    → total ≡ length (reply_body r)
    → reply_opaque r ≡ o
    → told r ≡ none
    → FitsReply r
    → Frame r (success_header opcode 0 extra total o)
success-Frame r opcode extra total o w t e n v = record {
  written = w;
  readable = omega arith;
  announced = omega arith;
  echoed = omega arith;
  decoded = success_decodes (success_header opcode 0 extra total o) refl ∙ sym n;
}

pub error-Frame :
    (r : Reply) (opcode o : ℕ) (e : Error)
    → respond r ≡ write_response_header (error_header opcode (error_to_code e) o)
    → reply_body r ≡ []
    → reply_opaque r ≡ o
    → told r ≡ carried e
    → FitsReply r
    → Frame r (error_header opcode (error_to_code e) o)
error-Frame r opcode o e w b eo n v = record {
  written = rw b (w ∙ sym (append-nil _));
  readable = omega (arith, error_to_code-lt e);
  announced = rw b;
  echoed = omega arith;
  decoded = decode-error_to_code (error_header opcode (error_to_code e) o) e refl ∙ sym n;
}

-- What a call comes to: silence, or a frame.
abbrev pub Outcome : Reply → Type 0
Outcome r =
    ((is_silent r ≡ true) × (respond r ≡ []))
    ⊎ ((h : ResponseHeader) × (is_silent r ≡ false) × Frame r h)
