-- ===== src/Binprot/Respond.antt =====
-- protocol/binprot/respond.go: the bytes that the responder writes for a call when no write
-- fails. Flushing only moves them on.
pub mod Frames
pub mod Client
use rend.Prelude.{
  ℕ, ◌+◌, ◌%◌, ◌^◌, Bool, true, false, not, ◌&&◌, [], ◌∷◌, ◌++◌, length, if◌then◌else◌, Bytes,
}
use rend.Common.{Error, key_not_found, RequestType, GetResponse, GetEResponse}
use rend.Protocol.{
  Reply, set, add, replace, append, prepend, get, get_end, get_e, gat, delete, touch, noop, quit,
  version, error,
}
use rend.Binprot.Opcode
use rend.Binprot.StatusCode
use rend.Binprot.Status.{error_to_code}
use rend.Binprot.Wire.{put_uint32}
use rend.Binprot.Headers.{magic_response, ResponseHeader, write_response_header}

abbrev pub success_header : ℕ → ℕ → ℕ → ℕ → ℕ → ResponseHeader
success_header opcode key_length extra_length total_body_length opaque = record {
  magic = magic_response;
  opcode = opcode;
  key_length = key_length % 2 ^ 16;
  extra_length = extra_length % 2 ^ 8;
  data_type = 0;
  status = StatusCode.success;
  total_body_length = total_body_length % 2 ^ 32;
  opaque_token = opaque;
  cas_token = 0;
}

unfoldable pub write_success_response_header : ℕ → ℕ → ℕ → ℕ → ℕ → Bytes
write_success_response_header opcode key_length extra_length total_body_length opaque =
    write_response_header (success_header opcode key_length extra_length total_body_length opaque)

abbrev pub error_header : ℕ → ℕ → ℕ → ResponseHeader
error_header opcode status opaque = record {
  magic = magic_response;
  opcode = opcode;
  key_length = 0;
  extra_length = 0;
  data_type = 0;
  status = status;
  total_body_length = 0;
  opaque_token = opaque;
  cas_token = 0;
}

unfoldable pub write_error_response_header : ℕ → ℕ → ℕ → Bytes
write_error_response_header opcode status opaque =
    write_response_header (error_header opcode status opaque)

unfoldable pub req_type_to_opcode : RequestType → Bool → ℕ
req_type_to_opcode RequestType.get quiet = Opcode.get
req_type_to_opcode RequestType.gat quiet = Opcode.gat
req_type_to_opcode RequestType.get_e quiet = Opcode.get_e
req_type_to_opcode RequestType.set quiet = if quiet then Opcode.set_q else Opcode.set
req_type_to_opcode RequestType.add quiet = if quiet then Opcode.add_q else Opcode.add
req_type_to_opcode RequestType.replace quiet = if quiet then Opcode.replace_q else Opcode.replace
req_type_to_opcode RequestType.append quiet = if quiet then Opcode.append_q else Opcode.append
req_type_to_opcode RequestType.prepend quiet = if quiet then Opcode.prepend_q else Opcode.prepend
req_type_to_opcode RequestType.delete quiet = if quiet then Opcode.delete_q else Opcode.delete
req_type_to_opcode RequestType.touch quiet = Opcode.touch
req_type_to_opcode _ quiet = Opcode.invalid

-- The method `Error`.
unfoldable pub respond_error : ℕ → RequestType → Error → Bool → Bytes
respond_error opaque t e quiet =
    write_error_response_header (req_type_to_opcode t quiet) (error_to_code e) opaque

unfoldable pub get_common : GetResponse → ℕ → Bytes
get_common r opcode =
    let total_body_length = length r.value + 4 in
    write_success_response_header opcode 0 4 total_body_length r.opaque
    ++ (put_uint32 r.flags ++ r.value)

-- The methods Set, Add, Replace, Append, Prepend and Quit.
unfoldable pub unless_quiet : ℕ → ℕ → Bool → Bytes
unless_quiet opcode opaque quiet =
    if not quiet then write_success_response_header opcode 0 0 0 opaque else []

-- The method `Get`, and `GAT` with its own opcode and request type.
unfoldable pub respond_get : GetResponse → RequestType → ℕ → Bytes
respond_get r t opcode =
    if r.miss
    then (if not r.quiet then respond_error r.opaque t key_not_found false else [])
    else get_common r opcode

unfoldable pub respond_get_e : GetEResponse → Bytes
respond_get_e r =
    if r.miss
    then (if not r.quiet then respond_error r.opaque RequestType.get_e key_not_found false else [])
    else let total_body_length = length r.value + 8 in
      write_success_response_header Opcode.get_e 0 8 total_body_length r.opaque
      ++ (put_uint32 r.flags ++ (put_uint32 r.exptime ++ r.value))

abbrev pub version_string : Bytes
version_string = b'R' ∷ b'e' ∷ b'n' ∷ b'd' ∷ b' ' ∷ b'0' ∷ b'.' ∷ b'1' ∷ []

unfoldable pub respond : Reply → Bytes
respond (set opaque quiet) = unless_quiet Opcode.set opaque quiet
respond (add opaque quiet) = unless_quiet Opcode.add opaque quiet
respond (replace opaque quiet) = unless_quiet Opcode.replace opaque quiet
respond (append opaque quiet) = unless_quiet Opcode.append opaque quiet
respond (prepend opaque quiet) = unless_quiet Opcode.prepend opaque quiet
respond (get r) = respond_get r RequestType.get Opcode.get
respond (get_end opaque noop_end) =
    if noop_end then write_success_response_header Opcode.noop 0 0 0 opaque else []
respond (get_e r) = respond_get_e r
respond (gat r) = respond_get r RequestType.gat Opcode.gat
respond (delete opaque) = write_success_response_header Opcode.delete 0 0 0 opaque
respond (touch opaque) = write_success_response_header Opcode.touch 0 0 0 opaque
respond (noop opaque) = write_success_response_header Opcode.noop 0 0 0 opaque
respond (quit opaque quiet) = unless_quiet Opcode.quit opaque quiet
respond (version opaque) =
    write_success_response_header Opcode.version 0 0 (length version_string) opaque
    ++ version_string
respond (error opaque t e quiet) = respond_error opaque t e quiet
