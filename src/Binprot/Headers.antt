-- ===== src/Binprot/Headers.antt =====
-- protocol/binprot/headers.go: the 24-byte headers of requests and of responses. Every field of a
-- header from the pool is set before the header is used, so the pool does not show.
use rend.Prelude.{
  ℕ, ◌%◌, ◌^◌, ◌<◌, ◌≡◌, ◌⊎◌, inl, inr, Bool-cases, refl, [], ◌∷◌, ◌++◌, ◌==◌, if◌then◌else◌,
  length, get_or, Bytes, arith,
}
use rend.Common.{bad_magic}
use rend.Binprot.Wire.{
  ok, err, Reader, ◌>>=◌, return, fail, read_full, put_uint16, uint16, put_uint32, uint32,
  read_full-append,
}

abbrev pub req_header_len : ℕ
req_header_len = 24

abbrev pub res_header_len : ℕ
res_header_len = 24

abbrev pub magic_request : ℕ
magic_request = 0x80

abbrev pub magic_response : ℕ
magic_response = 0x81

pub record RequestHeader : Type 0 where
  pub magic : ℕ
  pub opcode : ℕ
  pub key_length : ℕ
  pub extra_length : ℕ
  pub data_type : ℕ
  pub vbucket : ℕ
  pub total_body_length : ℕ
  pub opaque_token : ℕ
  pub cas_token : ℕ

pub record ResponseHeader : Type 0 where
  pub magic : ℕ
  pub opcode : ℕ
  pub key_length : ℕ
  pub extra_length : ℕ
  pub data_type : ℕ
  pub status : ℕ
  pub total_body_length : ℕ
  pub opaque_token : ℕ
  pub cas_token : ℕ

-- The lengths are Go ints, which the conversions cut to the width of the field.
unfoldable pub make_request_header : ℕ → ℕ → ℕ → ℕ → ℕ → RequestHeader
make_request_header opcode key_length extra_length total_body_length opaque = record {
  magic = magic_request;
  opcode = opcode;
  key_length = key_length % 2 ^ 16;
  extra_length = extra_length % 2 ^ 8;
  data_type = 0;
  vbucket = 0;
  total_body_length = total_body_length % 2 ^ 32;
  opaque_token = opaque;
  cas_token = 0;
}

-- `binary.BigEndian.Uint16(buf[i:i+2])` is `uint16 buf i`; likewise `uint32`.
unfoldable pub request_of_buf : Bytes → Reader RequestHeader
request_of_buf buf =
    if get_or buf 0 0 == magic_request
    then return (record {
      magic = get_or buf 0 0;
      opcode = get_or buf 1 0;
      key_length = uint16 buf 2;
      extra_length = get_or buf 4 0;
      data_type = 0;
      vbucket = 0;
      total_body_length = uint32 buf 8;
      opaque_token = uint32 buf 12;
      cas_token = 0;
    })
    else fail bad_magic

fields_of_buf : Bytes → RequestHeader
fields_of_buf buf = record {
  magic = get_or buf 0 0;
  opcode = get_or buf 1 0;
  key_length = uint16 buf 2;
  extra_length = get_or buf 4 0;
  data_type = 0;
  vbucket = 0;
  total_body_length = uint32 buf 8;
  opaque_token = uint32 buf 12;
  cas_token = 0;
}

-- The first byte alone decides whether 24 bytes are a header.
pub request_of_buf_cases :
    (buf s : Bytes)
    → ((h : RequestHeader) × (request_of_buf buf s ≡ (ok h, s)))
      ⊎ (request_of_buf buf s ≡ (err bad_magic, s))
unfolding request_of_buf fields_of_buf
request_of_buf_cases buf s = elim (Bool-cases (get_or buf 0 0 == magic_request)) [
  | inl m ↦ inl (fields_of_buf buf, rw m)
  | inr m ↦ inr (rw m)
]

unfoldable pub read_request_header : Reader RequestHeader
read_request_header = do buf ← read_full req_header_len; request_of_buf buf

unfoldable pub write_request_header : RequestHeader → Bytes
write_request_header rh =
    rh.magic ∷ rh.opcode ∷ []
    ++ (put_uint16 rh.key_length
        ++ (rh.extra_length ∷ 0 ∷ 0 ∷ 0 ∷ []
            ++ (put_uint32 rh.total_body_length
                ++ (put_uint32 rh.opaque_token ++ (0 ∷ 0 ∷ 0 ∷ 0 ∷ 0 ∷ 0 ∷ 0 ∷ 0 ∷ [])))))

unfoldable pub response_of_buf : Bytes → Reader ResponseHeader
response_of_buf buf =
    if get_or buf 0 0 == magic_response
    then return (record {
      magic = get_or buf 0 0;
      opcode = get_or buf 1 0;
      key_length = uint16 buf 2;
      extra_length = get_or buf 4 0;
      data_type = 0;
      status = uint16 buf 6;
      total_body_length = uint32 buf 8;
      opaque_token = uint32 buf 12;
      cas_token = 0;
    })
    else fail bad_magic

unfoldable pub read_response_header : Reader ResponseHeader
read_response_header = do buf ← read_full res_header_len; response_of_buf buf

unfoldable pub write_response_header : ResponseHeader → Bytes
write_response_header rh =
    rh.magic ∷ rh.opcode ∷ []
    ++ (put_uint16 rh.key_length
        ++ (rh.extra_length ∷ 0 ∷ []
            ++ (put_uint16 rh.status
                ++ (put_uint32 rh.total_body_length
                    ++ (put_uint32 rh.opaque_token ++ (0 ∷ 0 ∷ 0 ∷ 0 ∷ 0 ∷ 0 ∷ 0 ∷ 0 ∷ []))))))

-- Headers as the code makes them: each field within its width, and the unused ones 0.
pub record IsRequestHeader (rh : RequestHeader) : Type 0 where
  pub magic_ok : rh.magic ≡ magic_request
  pub key_fits : rh.key_length < 2 ^ 16
  pub total_fits : rh.total_body_length < 2 ^ 32
  pub opaque_fits : rh.opaque_token < 2 ^ 32
  pub no_type : rh.data_type ≡ 0
  pub no_vbucket : rh.vbucket ≡ 0
  pub no_cas : rh.cas_token ≡ 0

pub record IsResponseHeader (rh : ResponseHeader) : Type 0 where
  pub magic_ok : rh.magic ≡ magic_response
  pub key_fits : rh.key_length < 2 ^ 16
  pub status_fits : rh.status < 2 ^ 16
  pub total_fits : rh.total_body_length < 2 ^ 32
  pub opaque_fits : rh.opaque_token < 2 ^ 32
  pub no_type : rh.data_type ≡ 0
  pub no_cas : rh.cas_token ≡ 0

pub make_request_header-IsRequestHeader :
    (opcode key extra total opaque : ℕ)
    → opaque < 2 ^ 32
    → IsRequestHeader (make_request_header opcode key extra total opaque)
unfolding make_request_header
make_request_header-IsRequestHeader opcode key extra total opaque h = omega arith

request_of_buf-write :
    (rh : RequestHeader) (rest : Bytes)
    → IsRequestHeader rh
    → request_of_buf (write_request_header rh) rest ≡ (ok rh, rest)
unfolding request_of_buf write_request_header put_uint16 uint16 put_uint32 uint32
request_of_buf-write rh rest v = ground arith

pub length-write_request_header : (rh : RequestHeader) → length (write_request_header rh) ≡ 24
unfolding write_request_header put_uint16 put_uint32
length-write_request_header rh = refl

pub read-write_request_header :
    (rh : RequestHeader) (rest : Bytes)
    → IsRequestHeader rh
    → read_request_header (write_request_header rh ++ rest) ≡ (ok rh, rest)
unfolding read_request_header
read-write_request_header rh rest v =
    rw (read_full-append (write_request_header rh) rest 24 (length-write_request_header rh))
      (request_of_buf-write rh rest v)

response_of_buf-write :
    (rh : ResponseHeader) (rest : Bytes)
    → IsResponseHeader rh
    → response_of_buf (write_response_header rh) rest ≡ (ok rh, rest)
unfolding response_of_buf write_response_header put_uint16 uint16 put_uint32 uint32
response_of_buf-write rh rest v = ground arith

pub length-write_response_header : (rh : ResponseHeader) → length (write_response_header rh) ≡ 24
unfolding write_response_header put_uint16 put_uint32
length-write_response_header rh = refl

pub read-write_response_header :
    (rh : ResponseHeader) (rest : Bytes)
    → IsResponseHeader rh
    → read_response_header (write_response_header rh ++ rest) ≡ (ok rh, rest)
unfolding read_response_header
read-write_response_header rh rest v =
    rw (read_full-append (write_response_header rh) rest 24 (length-write_response_header rh))
      (response_of_buf-write rh rest v)

-- A header that was written is read back whole, whatever follows it on the stream: requests and
-- responses alike, for fields within their widths (and, as the code writes them, a zero data type,
-- vbucket and CAS).
pub headers_round_trip :
    (rq : RequestHeader) (rs : ResponseHeader) (rest : Bytes)
    → IsRequestHeader rq
    → IsResponseHeader rs
    → (read_request_header (write_request_header rq ++ rest) ≡ (ok rq, rest))
      × (read_response_header (write_response_header rs ++ rest) ≡ (ok rs, rest))
headers_round_trip rq rs rest v w =
    (read-write_request_header rq rest v, read-write_response_header rs rest w)
