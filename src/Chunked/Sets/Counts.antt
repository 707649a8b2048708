-- ===== src/Chunked/Sets/Counts.antt =====
-- handlers/memcached/chunked/handler.go: the numbers that the metadata of a new item holds.
use native.Mathlib.Nat.{div-add-mod, mod-lt}
use rend.Prelude.{ℕ, zero, suc, ◌+◌, ◌-◌, ◌*◌, ◌/◌, ◌%◌, ◌^◌, ◌≤◌, ◌<◌, ◌≡◌, length, Bytes, arith}
use rend.Common.{SetRequest}
use rend.Chunked.Metadata.{IsMetadata, token_size}
use rend.Chunked.Limited.{ceil_div}
use rend.Chunked.Sets.{chunk_size, exptime, new_metadata}

-- A ceiling, times the divisor.
pub ceil_div-bounds :
    (total size : ℕ)
    → 0 < size
    → (total ≤ size * ceil_div total size) × (size * ceil_div total size < total + size)
ceil_div-bounds total size h =
    let e : size * ((total + size - 1) / size) + (total + size - 1) % size ≡ total + size - 1 =
      div-add-mod (total + size - 1) size in
    let l : (total + size - 1) % size < size = mod-lt (total + size - 1) h in
    (omega arith, omega arith)

ceil_div_le : (total size q : ℕ) → 0 < size → size * q < total + size → q ≤ total
ceil_div_le total size zero p h = omega arith
ceil_div_le total zero (suc q) p h = absurd (omega arith)
ceil_div_le total (suc k) (suc q) p h =
    let e : suc k * suc q ≡ q + k * q + suc k = omega arith in omega arith

-- The number of chunks, of data whose length fits the metadata.
pub num_chunks-fit :
    (total size : ℕ)
    → 0 < size
    → total < 2 ^ 32
    → ceil_div total size % 2 ^ 32 ≡ ceil_div total size
num_chunks-fit total size p h =
    let q : ceil_div total size ≤ total =
      ceil_div_le total size (ceil_div total size) p (ceil_div-bounds total size p).1 in
    omega arith

chunk_size_fits : (n : ℕ) → (chunk_size n).0 < 2 ^ 32
unfolding chunk_size
chunk_size_fits n = omega arith

exptime_fits : (now ttl : ℕ) → ttl < 2 ^ 32 → (exptime now ttl).0 < 2 ^ 32
unfolding exptime
exptime_fits now ttl h = ground arith

-- The metadata of a new item fits its record and says the length of the data, and its chunks are just
-- as many as the data needs: all of them hold it, and one less would not. The key leaves room for
-- data in a chunk, the data's length fits 32 bits, the request's numbers are within their widths and
-- the token has its size.
pub new_metadata-IsMetadata :
    (now : ℕ) (token : Bytes) (cmd : SetRequest)
    → 0 < (chunk_size (length cmd.key)).0
    → length cmd.value < 2 ^ 32
    → cmd.flags < 2 ^ 32
    → cmd.exptime < 2 ^ 32
    → length token ≡ token_size
    → let md = new_metadata now token cmd in
      IsMetadata md
      × (md.length ≡ length cmd.value)
      × (length cmd.value ≤ md.chunk_size * md.num_chunks)
      × (md.chunk_size * md.num_chunks < length cmd.value + md.chunk_size)
unfolding new_metadata
new_metadata-IsMetadata now token cmd big small flags_fit exptime_fit token_fits =
    let size = (chunk_size (length cmd.key)).0 in
    let fit = num_chunks-fit (length cmd.value) size big small in
    let (low, high) = ceil_div-bounds (length cmd.value) size big in
    (
      record {
        length_fits = omega arith;
        flags_fit = flags_fit;
        chunks_fit = omega arith;
        size_fits = chunk_size_fits (length cmd.key);
        instime_fits = omega arith;
        exptime_fits = exptime_fits now cmd.exptime exptime_fit;
        token_fits = token_fits;
      },
      omega arith,
      rw fit low,
      rw fit high,
    )
