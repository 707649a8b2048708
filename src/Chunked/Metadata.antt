-- ===== src/Chunked/Metadata.antt =====
-- handlers/memcached/chunked/types.go: the metadata record of an item, as it is stored in memcached.
-- Its four-byte fields are big-endian; the token is the last 16 bytes.
use rend.Prelude.{
  ℕ, ◌^◌, ◌<◌, ◌≡◌, refl, ap, ◌∙◌, Bool, true, false, ◌==◌, if◌then◌else◌, [], ◌∷◌, ◌++◌, length,
  drop, arith, Bytes,
}
use rend.Common.{Error}
use rend.Binprot.Wire.{
  Result, ok, err, stuck, read_full, read_full-append, read_full_short, put_uint32, uint32,
  uint32-put,
}

pub record Metadata : Type 0 where
  pub length : ℕ
  pub orig_flags : ℕ
  pub num_chunks : ℕ
  pub chunk_size : ℕ
  pub instime : ℕ
  pub exptime : ℕ
  pub token : Bytes

abbrev pub token_size : ℕ
token_size = 16

abbrev pub metadata_size : ℕ
metadata_size = 40

-- The zero value of the struct.
abbrev pub empty_meta : Metadata
empty_meta = record {
  length = 0;
  orig_flags = 0;
  num_chunks = 0;
  chunk_size = 0;
  instime = 0;
  exptime = 0;
  token = 0 ∷ 0 ∷ 0 ∷ 0 ∷ 0 ∷ 0 ∷ 0 ∷ 0 ∷ 0 ∷ 0 ∷ 0 ∷ 0 ∷ 0 ∷ 0 ∷ 0 ∷ 0 ∷ [];
}

abbrev pub fields_of : Bytes → Metadata
fields_of buf = record {
  length = uint32 buf 0;
  orig_flags = uint32 buf 4;
  num_chunks = uint32 buf 8;
  chunk_size = uint32 buf 12;
  instime = uint32 buf 16;
  exptime = uint32 buf 20;
  token = drop 24 buf;
}

-- `readMetadata` returns a nil error always: a failed read gives the empty metadata.
abbrev pub after_read : Result Bytes → Metadata
after_read (ok buf) = fields_of buf
after_read (err e) = empty_meta
after_read stuck = empty_meta

unfoldable pub read_metadata : Bytes → Metadata × Bytes
read_metadata s = (after_read (read_full metadata_size s).0, (read_full metadata_size s).1)

unfoldable pub write_metadata : Metadata → Bytes
write_metadata md =
    put_uint32 md.length
    ++ (put_uint32 md.orig_flags
        ++ (put_uint32 md.num_chunks
            ++ (put_uint32 md.chunk_size
                ++ (put_uint32 md.instime ++ (put_uint32 md.exptime ++ md.token)))))

-- Metadata whose fields fit their widths.
pub record IsMetadata (md : Metadata) : Type 0 where
  pub length_fits : md.length < 2 ^ 32
  pub flags_fit : md.orig_flags < 2 ^ 32
  pub chunks_fit : md.num_chunks < 2 ^ 32
  pub size_fits : md.chunk_size < 2 ^ 32
  pub instime_fits : md.instime < 2 ^ 32
  pub exptime_fits : md.exptime < 2 ^ 32
  pub token_fits : length md.token ≡ token_size

length-write_metadata : (md : Metadata) → IsMetadata md → length (write_metadata md) ≡ metadata_size
unfolding write_metadata put_uint32
length-write_metadata md v = omega (arith, v.token_fits)

-- Each field is read from the four bytes that its write left.
fields_of-fields :
    (md : Metadata)
    → fields_of (write_metadata md) ≡ record {
      length = uint32 (put_uint32 md.length) 0;
      orig_flags = uint32 (put_uint32 md.orig_flags) 0;
      num_chunks = uint32 (put_uint32 md.num_chunks) 0;
      chunk_size = uint32 (put_uint32 md.chunk_size) 0;
      instime = uint32 (put_uint32 md.instime) 0;
      exptime = uint32 (put_uint32 md.exptime) 0;
      token = md.token;
    }
unfolding write_metadata put_uint32 uint32
fields_of-fields md = refl

fields_of-write : (md : Metadata) → IsMetadata md → fields_of (write_metadata md) ≡ md
fields_of-write md v =
    fields_of-fields md
    ∙ rw
        (
          uint32-put md.length v.length_fits,
          uint32-put md.orig_flags v.flags_fit,
          uint32-put md.num_chunks v.chunks_fit,
          uint32-put md.chunk_size v.size_fits,
          uint32-put md.instime v.instime_fits,
          uint32-put md.exptime v.exptime_fits,
        )
        refl

short_read :
    (b : Bool) → after_read (if b then err Error.eof else err Error.unexpected_eof) ≡ empty_meta
short_read true = refl
short_read false = refl

-- Metadata that was written is read back whole, whatever follows it on the stream; from a stream
-- that ends before, the empty metadata is read, and no error.
pub read-write_metadata :
    (md : Metadata) (rest short : Bytes)
    → IsMetadata md
    → length short < metadata_size
    → (read_metadata (write_metadata md ++ rest) ≡ (md, rest))
      × (read_metadata short ≡ (empty_meta, []))
unfolding read_metadata
read-write_metadata md rest short v lt = (
  rw
      (
        read_full-append (write_metadata md) rest metadata_size (length-write_metadata md v),
        fields_of-write md v,
      )
      refl,
  rw (read_full_short metadata_size short lt) (ap (λ m. (m, [])) (short_read (length short == 0))),
)
