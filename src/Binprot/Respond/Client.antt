-- ===== src/Binprot/Respond/Client.antt =====
-- protocol/binprot/respond.go, as a client sees it: what each response decodes to.
use mathlib.Core.List.{append_assoc, append-nil}
use rend.Prelude.{
  ℕ, ◌+◌, ◌≡◌, refl, sym, ◌∙◌, ◌⊎◌, inl, inr, Bool, true, false, ◌&&◌, [], ◌++◌, length,
  length-append, none, Bytes, arith, Bool-cases,
}
use rend.Common.{key_not_found, RequestType, is_app_error, GetResponse, GetEResponse}
use rend.Protocol.{
  Reply, set, add, replace, append, prepend, get, get_end, get_e, gat, delete, touch, noop, quit,
  version, error,
}
use rend.Binprot.Opcode
use rend.Binprot.Status.{error_to_code, decode_error}
use rend.Binprot.Wire.{ok, put_uint32, length-put_uint32}
use rend.Binprot.Headers.{
  ResponseHeader, read_response_header, write_response_header, read-write_response_header,
}
use rend.Binprot.Respond.{
  success_header, error_header, write_success_response_header, write_error_response_header,
  req_type_to_opcode, respond_error, get_common, unless_quiet, respond_get, respond_get_e, respond,
}
use rend.Binprot.Respond.Frames.{
  is_silent, miss_error, told, reply_opaque, hit_body, reply_body, Frame, FitsReply, success-Frame,
  error-Frame, Outcome,
}

unless_quiet-Outcome :
    (r : Reply) (opcode o : ℕ) (q : Bool)
    → respond r ≡ unless_quiet opcode o q
    → is_silent r ≡ q
    → reply_body r ≡ []
    → reply_opaque r ≡ o
    → told r ≡ none
    → FitsReply r
    → Outcome r
unfolding unless_quiet write_success_response_header
unless_quiet-Outcome r opcode o true w s b eo n v = inl (s, w)
unless_quiet-Outcome r opcode o false w s b eo n v = inr (
  success_header opcode 0 0 0 o,
  s,
  success-Frame r opcode 0 0 o (rw b (w ∙ sym (append-nil _))) (rw b) eo n v,
)

get-Outcome :
    (r : Reply) (g : GetResponse) (t : RequestType) (opcode : ℕ) (miss : Bool)
    → g.miss ≡ miss
    → respond r ≡ respond_get g t opcode
    → is_silent r ≡ g.miss && g.quiet
    → reply_body r ≡ hit_body g.miss (put_uint32 g.flags ++ g.value)
    → reply_opaque r ≡ g.opaque
    → told r ≡ miss_error g.miss
    → FitsReply r
    → Outcome r
unfolding respond_get get_common respond_error write_success_response_header
    write_error_response_header is_app_error
get-Outcome r g t opcode true m w s b eo n v = elim (Bool-cases g.quiet) [
  | inl q ↦ inl (ground arith, ground arith)
  | inr q ↦ inr (
    error_header (req_type_to_opcode t false) (error_to_code key_not_found) g.opaque,
    ground arith,
    error-Frame r (req_type_to_opcode t false) g.opaque key_not_found (ground arith) (ground arith)
        eo (ground arith) v,
  )
]
get-Outcome r g t opcode false m w s b eo n v = inr (
  success_header opcode 0 4 (length g.value + 4) g.opaque,
  ground arith,
  success-Frame r opcode 4 (length g.value + 4) g.opaque (ground arith)
      (ground (arith, length-append (put_uint32 g.flags) g.value, length-put_uint32 g.flags)) eo
      (ground arith) v,
)

get_e-Outcome :
    (g : GetEResponse) (miss : Bool) → g.miss ≡ miss → FitsReply (get_e g) → Outcome (get_e g)
unfolding respond respond_get_e respond_error write_success_response_header
    write_error_response_header is_app_error
get_e-Outcome g true m v = elim (Bool-cases g.quiet) [
  | inl q ↦ inl (ground arith, ground arith)
  | inr q ↦ inr (
    error_header (req_type_to_opcode RequestType.get_e false) (error_to_code key_not_found)
        g.opaque,
    ground arith,
    error-Frame (get_e g) (req_type_to_opcode RequestType.get_e false) g.opaque key_not_found
        (ground arith) (ground arith) refl (ground arith) v,
  )
]
get_e-Outcome g false m v = inr (
  success_header Opcode.get_e 0 8 (length g.value + 8) g.opaque,
  ground arith,
  success-Frame (get_e g) Opcode.get_e 8 (length g.value + 8) g.opaque (ground arith)
      (ground (
        arith,
        length-append (put_uint32 g.flags) (put_uint32 g.exptime ++ g.value),
        length-append (put_uint32 g.exptime) g.value,
        length-put_uint32 g.flags,
        length-put_uint32 g.exptime,
      ))
      refl (ground arith) v,
)

respond-Outcome : (r : Reply) → FitsReply r → Outcome r
unfolding respond write_success_response_header respond_error write_error_response_header
respond-Outcome (set o q) v =
    unless_quiet-Outcome (set o q) Opcode.set o q refl refl refl refl refl v
respond-Outcome (add o q) v =
    unless_quiet-Outcome (add o q) Opcode.add o q refl refl refl refl refl v
respond-Outcome (replace o q) v =
    unless_quiet-Outcome (replace o q) Opcode.replace o q refl refl refl refl refl v
respond-Outcome (append o q) v =
    unless_quiet-Outcome (append o q) Opcode.append o q refl refl refl refl refl v
respond-Outcome (prepend o q) v =
    unless_quiet-Outcome (prepend o q) Opcode.prepend o q refl refl refl refl refl v
respond-Outcome (get r) v =
    get-Outcome (get r) r RequestType.get Opcode.get r.miss refl refl refl refl refl refl v
respond-Outcome (get_end o true) v = inr (
  success_header Opcode.noop 0 0 0 o,
  refl,
  success-Frame (get_end o true) Opcode.noop 0 0 o (sym (append-nil _)) refl refl refl v,
)
respond-Outcome (get_end o false) v = inl (refl, refl)
respond-Outcome (get_e r) v = get_e-Outcome r r.miss refl v
respond-Outcome (gat r) v =
    get-Outcome (gat r) r RequestType.gat Opcode.gat r.miss refl refl refl refl refl refl v
respond-Outcome (delete o) v = inr (
  success_header Opcode.delete 0 0 0 o,
  refl,
  success-Frame (delete o) Opcode.delete 0 0 o (sym (append-nil _)) refl refl refl v,
)
respond-Outcome (touch o) v = inr (
  success_header Opcode.touch 0 0 0 o,
  refl,
  success-Frame (touch o) Opcode.touch 0 0 o (sym (append-nil _)) refl refl refl v,
)
respond-Outcome (noop o) v = inr (
  success_header Opcode.noop 0 0 0 o,
  refl,
  success-Frame (noop o) Opcode.noop 0 0 o (sym (append-nil _)) refl refl refl v,
)
respond-Outcome (quit o q) v =
    unless_quiet-Outcome (quit o q) Opcode.quit o q refl refl refl refl refl v
respond-Outcome (version o) v = inr (
  success_header Opcode.version 0 0 8 o,
  refl,
  success-Frame (version o) Opcode.version 0 8 o refl refl refl refl v,
)
respond-Outcome (error o t e q) v = inr (
  error_header (req_type_to_opcode t q) (error_to_code e) o,
  refl,
  error-Frame (error o t e q) (req_type_to_opcode t q) o e refl refl refl refl v,
)

read-Frame :
    (r : Reply) (h : ResponseHeader) (rest : Bytes)
    → Frame r h
    → read_response_header (respond r ++ rest) ≡ (ok h, reply_body r ++ rest)
read-Frame r h rest f =
    rw (f.written, append_assoc (write_response_header h) (reply_body r) rest)
      (read-write_response_header h (reply_body r ++ rest) f.readable)

-- What a client hears of a call, `rest` being what follows on the stream: nothing, or a header
-- with the opaque of the call, the length of the body behind it and the error that it is told.
abbrev pub Heard : Reply → Bytes → Type 0
Heard r rest =
    ((is_silent r ≡ true) × (respond r ≡ []))
    ⊎ ((h : ResponseHeader) × (is_silent r ≡ false)
        × (read_response_header (respond r ++ rest) ≡ (ok h, reply_body r ++ rest))
        × (h.total_body_length ≡ length (reply_body r))
        × (h.opaque_token ≡ reply_opaque r)
        × (decode_error h ≡ told r))

-- For every call on the responder whose numbers fit their fields: if it is one of the silent ones,
-- nothing is written. Otherwise the client's reader gets a header from what is written, whatever
-- follows; the header echoes the opaque, announces exactly the length of the body that stands next
-- on the stream, and decodes to the error that the client is told: none for a success,
-- `key_not_found` for a miss, and the error itself if `IsAppError` accepts it (otherwise none).
pub respond-Heard : (r : Reply) (rest : Bytes) → FitsReply r → Heard r rest
respond-Heard r rest v = elim (respond-Outcome r v) [
  | inl silent ↦ inl silent
  | inr (h, loud, f) ↦ inr (h, loud, read-Frame r h rest f, f.announced, f.echoed, f.decoded)
]
