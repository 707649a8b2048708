-- ===== src/Chunked/Limited.antt =====
-- handlers/memcached/chunked/chunkedLimitedReader.go: the reader that hands out the data of an item a
-- chunk at a time, the last chunk filled up with zeros, over a bytes.Buffer. The numbers are below
-- 2 ^ 53, where Go's float64 is exact.
pub mod Copies
use rend.Prelude.{
  ℕ, zero, suc, ◌+◌, ◌-◌, ◌/◌, ◌≤◌, ◌<◌, ◌≡◌, refl, sym, ap, ◌∙◌, Bool, true, false, ◌&&◌, ◌||◌,
  List, [], ◌∷◌, ◌++◌, length, take, drop, replicate, length-drop, length-take, leb, ltb, ◌==◌,
  if◌then◌else◌, Option, none, some, Bytes, arith,
}

pub record Limited : Type 0 where
  pub unread : Bytes
  pub remaining : ℕ
  pub chunk_size : ℕ
  pub chunk_rem : ℕ
  pub num_chunks : ℕ
  pub done_chunks : ℕ

-- The ceiling of a quotient; a chunk's size is not 0.
abbrev pub ceil_div : ℕ → ℕ → ℕ
ceil_div a b = (a + b - 1) / b

abbrev pub least : ℕ → ℕ → ℕ
least a b = if leb a b then a else b

unfoldable pub new_limited : Bytes → ℕ → ℕ → Limited
new_limited bs chunk_size total_size = record {
  unread = bs;
  remaining = total_size;
  chunk_size = chunk_size;
  chunk_rem = chunk_size;
  num_chunks = ceil_div total_size chunk_size;
  done_chunks = 0;
}

-- What a Read gives, and whether it is the end.
pub data Chunk : Type 0 where
  bytes : Bytes → Chunk
  ended : Chunk

-- bytes.Buffer's Read into a buffer of `n` bytes.
unfoldable pub read_outside : ℕ → Limited → Chunk × Limited
read_outside n c =
    let got = take n c.unread in
    if length c.unread == 0 && ltb 0 n then (ended, c) else (
      bytes got,
      record c {
        unread = drop n c.unread;
        remaining = c.remaining - length got;
        chunk_rem = c.chunk_rem - length got;
      },
    )

-- `Read` into a buffer of `p` bytes.
unfoldable pub read : ℕ → Limited → Chunk × Limited
unfolding read_outside
read p c =
    if leb c.num_chunks c.done_chunks || (c.remaining == 0 && c.chunk_rem == 0)
    then (ended, c)
    else if c.remaining == 0
    then (
      bytes (replicate (least p c.chunk_rem) 0),
      record c { chunk_rem = c.chunk_rem - least p c.chunk_rem },
    )
    else if c.chunk_rem == 0
    then (ended, c)
    else read_outside (least p (least c.remaining c.chunk_rem)) c

unfoldable pub next_chunk : Limited → Limited
next_chunk c =
    if ltb c.done_chunks c.num_chunks
    then record c { done_chunks = c.done_chunks + 1; chunk_rem = c.chunk_size }
    else c

unfoldable pub more : Limited → Bool
more c = ltb c.done_chunks c.num_chunks

-- What was read, and then the rest of a copy.
abbrev pub in_front : Bytes → Option (Bytes × Limited) → Option (Bytes × Limited)
in_front bs none = none
in_front bs (some (rest, c)) = some (bs ++ rest, c)

abbrev pub copy_on :
    Chunk × Limited → (Limited → Option (Bytes × Limited)) → Option (Bytes × Limited)
copy_on (ended, c) rest = some ([], c)
copy_on (bytes bs, c) rest = in_front bs (rest c)

-- `io.Copy` from the reader: reads, into buffers of the given sizes, up to the end. `none` is the end
-- of this description's fuel.
unfoldable pub copy : ℕ → (ℕ → ℕ) → Limited → Option (Bytes × Limited)
unfolding read
copy zero sizes c = none
copy (suc fuel) sizes c = copy_on (read (sizes fuel) c) (copy fuel sizes)

abbrev pub zeros : ℕ → Bytes
zeros n = replicate n 0

-- The first `k` bytes, filled up with zeros.
abbrev pub padded : ℕ → Bytes → Bytes
padded k bs = take k bs ++ zeros (k - length bs)

-- The reader with the rest of its chunk read.
abbrev pub chunk_read : Limited → Limited
chunk_read c = record c {
  unread = drop c.chunk_rem c.unread;
  remaining = c.remaining - c.chunk_rem;
  chunk_rem = 0;
}
