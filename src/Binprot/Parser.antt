-- ===== src/Binprot/Parser.antt =====
-- protocol/binprot/parser.go: `Parse` reads one request from the connection. With an error the Go
-- code also returns a request value, nil or all zero, which nobody reads; it is left out here.
-- The time stamp that `Parse` returns for the latency metrics is left out too.
pub mod RoundTrip
pub mod Keys
pub mod Readers
pub mod Total
pub mod Batch
pub mod Pipeline
use rend.Prelude.{
  ℕ, zero, suc, ◌+◌, ◌-◌, ◌%◌, ◌^◌, ◌≡◌, Bool, true, false, List, [], ◌∷◌, ◌++◌, ◌==◌,
  if◌then◌else◌, length, Bytes,
}
use rend.Common.{
  Error, unknown_cmd, Request, set_request, get_request, delete_request, touch_request, gat_request,
  quit_request, noop_request, version_request, SetRequest, GetRequest, RequestType,
}
use rend.Binprot.Opcode
use rend.Binprot.Wire.{
  Result, ok, err, stuck, Reader, ◌>>=◌, and_then, return, fail, read_full, read_string,
  read_uint32,
}
use rend.Binprot.Headers.{RequestHeader, read_request_header}

-- What `Parse` returns: a request with its type, or a type with an error.
pub data Parsed : Type 0 where
  parsed : Request → RequestType → Parsed
  failed : RequestType → Error → Parsed
  out_of_fuel : Parsed

-- `if err != nil { return nil, t, start, err }` behind a read.
abbrev pub finish : RequestType → Result Request × Bytes → Parsed × Bytes
finish t (ok r, s) = (parsed r t, s)
finish t (err e, s) = (failed t e, s)
finish t (stuck, s) = (out_of_fuel, s)

-- `uint32` subtraction, which wraps.
abbrev pub sub32 : ℕ → ℕ → ℕ
sub32 a b = (a + 2 ^ 32 - b) % 2 ^ 32

unfoldable pub set_req : RequestHeader → Bool → Reader Request
set_req h quiet = do
  flags ← read_uint32
  exptime ← read_uint32
  key ← read_string h.key_length
  let real_length = sub32 (sub32 h.total_body_length h.extra_length) h.key_length
  buf ← read_full real_length
  return (
      set_request (record {
        key = key;
        value = buf;
        flags = flags;
        exptime = exptime;
        opaque = h.opaque_token;
        quiet = quiet;
      }))

unfoldable pub append_prepend_request : RequestHeader → Bool → Reader Request
append_prepend_request h quiet = do
  key ← read_string h.key_length
  let real_length = sub32 h.total_body_length h.key_length
  buf ← read_full real_length
  return (
      set_request (record {
        key = key;
        value = buf;
        flags = 0;
        exptime = 0;
        opaque = h.opaque_token;
        quiet = quiet;
      }))

-- What follows the loop of `readBatchGet` and `readBatchGetE` (the opcode of the unquiet get is
-- `single`), once a header other than a quiet get was read.
unfoldable pub batch_end : ℕ → RequestHeader → List Bytes → List ℕ → List Bool → Reader Request
batch_end single h keys opaques quiet =
    if h.opcode == single
    then (do
      key ← read_string h.key_length
      return (
          get_request (record {
            keys = keys ++ key ∷ [];
            opaques = opaques ++ h.opaque_token ∷ [];
            quiet = quiet ++ false ∷ [];
            noop_opaque = 0;
            noop_end = false;
          })))
    else if h.opcode == Opcode.noop
    then return (
        get_request (record {
          keys = keys;
          opaques = opaques;
          quiet = quiet;
          noop_opaque = h.opaque_token;
          noop_end = true;
        }))
    else return (
        get_request (record {
          keys = keys;
          opaques = opaques;
          quiet = quiet;
          noop_opaque = 0;
          noop_end = false;
        }))

-- The loop of both, on fuel.
unfoldable pub batch_loop :
    ℕ → ℕ → ℕ → RequestHeader → List Bytes → List ℕ → List Bool → Reader Request
batch_loop zero multi single h keys opaques quiet s = (stuck, s)
batch_loop (suc fuel) multi single h keys opaques quiet s =
    let more =
      (do
        key ← read_string h.key_length
        next ← read_request_header
        batch_loop fuel multi single next (keys ++ key ∷ []) (opaques ++ h.opaque_token ∷ [])
            (quiet ++ true ∷ []))
        s in
    if h.opcode == multi then more else batch_end single h keys opaques quiet s

-- Each round reads a header, so as many rounds as there are bytes left, and one, are enough.
unfoldable pub read_batch_get : RequestHeader → Reader Request
read_batch_get h s = batch_loop (length s + 1) Opcode.get_q Opcode.get h [] [] [] s

unfoldable pub read_batch_get_e : RequestHeader → Reader Request
read_batch_get_e h s = batch_loop (length s + 1) Opcode.get_eq Opcode.get_e h [] [] [] s

-- The case of `Get` and of `GetE`.
unfoldable pub single_get : RequestHeader → Reader Request
single_get h = do
  key ← read_string h.key_length
  return (
      get_request (record {
        keys = key ∷ [];
        opaques = h.opaque_token ∷ [];
        quiet = false ∷ [];
        noop_opaque = 0;
        noop_end = false;
      }))

-- The cases of `Gat`, `Delete` and `Touch`.
unfoldable pub gat_req : RequestHeader → Reader Request
gat_req h = do
  exptime ← read_uint32
  key ← read_string h.key_length
  return (
      gat_request (record { key = key; exptime = exptime; opaque = h.opaque_token; quiet = false }))

unfoldable pub delete_req : RequestHeader → Reader Request
delete_req h = do
  key ← read_string h.key_length
  return (delete_request (record { key = key; opaque = h.opaque_token; quiet = false }))

unfoldable pub touch_req : RequestHeader → Reader Request
touch_req h = do
  exptime ← read_uint32
  key ← read_string h.key_length
  return (
      touch_request
        (record { key = key; exptime = exptime; opaque = h.opaque_token; quiet = false }))

-- The rest of the `switch` of `Parse`, from `OpcodeGetQ` on.
unfoldable pub dispatch_other : RequestHeader → Bytes → Parsed × Bytes
dispatch_other h s =
    if h.opcode == Opcode.get_q
    then finish RequestType.get (read_batch_get h s)
    else if h.opcode == Opcode.get
    then finish RequestType.get (single_get h s)
    else if h.opcode == Opcode.get_eq
    then finish RequestType.get_e (read_batch_get_e h s)
    else if h.opcode == Opcode.get_e
    then finish RequestType.get_e (single_get h s)
    else if h.opcode == Opcode.gat
    then finish RequestType.gat (gat_req h s)
    else if h.opcode == Opcode.delete
    then finish RequestType.delete (delete_req h s)
    else if h.opcode == Opcode.touch
    then finish RequestType.touch (touch_req h s)
    else if h.opcode == Opcode.noop
    then (parsed (noop_request (record { opaque = h.opaque_token })) RequestType.noop, s)
    else if h.opcode == Opcode.quit
    then (
      parsed (quit_request (record { opaque = h.opaque_token; quiet = false })) RequestType.quit,
      s,
    )
    else if h.opcode == Opcode.quit_q
    then (
      parsed (quit_request (record { opaque = h.opaque_token; quiet = true })) RequestType.quit,
      s,
    )
    else if h.opcode == Opcode.version
    then (parsed (version_request (record { opaque = h.opaque_token })) RequestType.version, s)
    else (failed RequestType.unknown unknown_cmd, s)

-- The `switch` of `Parse`.
unfoldable pub dispatch : RequestHeader → Bytes → Parsed × Bytes
dispatch h s =
    if h.opcode == Opcode.set
    then finish RequestType.set (set_req h false s)
    else if h.opcode == Opcode.set_q
    then finish RequestType.set (set_req h true s)
    else if h.opcode == Opcode.add
    then finish RequestType.add (set_req h false s)
    else if h.opcode == Opcode.add_q
    then finish RequestType.add (set_req h true s)
    else if h.opcode == Opcode.replace
    then finish RequestType.replace (set_req h false s)
    else if h.opcode == Opcode.replace_q
    then finish RequestType.replace (set_req h true s)
    else if h.opcode == Opcode.append
    then finish RequestType.append (append_prepend_request h false s)
    else if h.opcode == Opcode.append_q
    then finish RequestType.append (append_prepend_request h true s)
    else if h.opcode == Opcode.prepend
    then finish RequestType.prepend (append_prepend_request h false s)
    else if h.opcode == Opcode.prepend_q
    then finish RequestType.prepend (append_prepend_request h true s)
    else dispatch_other h s

abbrev pub after_header : Result RequestHeader → Bytes → Parsed × Bytes
after_header (ok h) s = dispatch h s
after_header (err e) s = (failed RequestType.unknown e, s)
after_header stuck s = (out_of_fuel, s)

unfoldable pub parse : Bytes → Parsed × Bytes
parse s = after_header (read_request_header s).0 (read_request_header s).1
