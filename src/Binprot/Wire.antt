-- ===== src/Binprot/Wire.antt =====
-- Reading from a connection (io.ReadAtLeast, and readString and readUInt32 of
-- protocol/binprot/parser.go), and big-endian integers (encoding/binary).
use rend.Prelude.{
  ℕ, ◌≤◌, ◌+◌, ◌*◌, ◌/◌, ◌%◌, ◌^◌, ◌<◌, ◌≡◌, refl, [], ◌∷◌, ◌++◌, leb, ◌==◌, if◌then◌else◌, length,
  length-append, take, drop, take-append_length, drop-append_length, get_or, Bytes, arith,
}
use rend.Common.{Error, eof, unexpected_eof}

-- Go's (value, error) pair. `stuck` is no Go value: a loop on fuel ran out of it, or,
-- where a definition says so, Go panics.
pub data Result {ℓ} (A : Type ℓ) : Type ℓ where
  ok : A → Result A
  err : Error → Result A
  stuck : Result A

-- A reader returns its result and what it left of the stream.
abbrev pub Reader : Type 0 → Type 0
Reader A = Bytes → Result A × Bytes

abbrev pub and_then : {A B : Type 0} → Result A → Bytes → (A → Reader B) → Result B × Bytes
and_then (ok a) s f = f a s
and_then (err e) s f = (err e, s)
and_then stuck s f = (stuck, s)

infixl 5 ◌>>=◌
abbrev pub ◌>>=◌ : {A B : Type 0} → Reader A → (A → Reader B) → Reader B
◌>>=◌ m f s = and_then (m s).0 (m s).1 f

abbrev pub return : {A : Type 0} → A → Reader A
return a s = (ok a, s)

abbrev pub fail : {A : Type 0} → Error → Reader A
fail e s = (err e, s)

-- `io.ReadAtLeast(r, buf, n)` with a buffer of `n` bytes: all of it, or an error that tells
-- whether the stream ended before the first byte.
unfoldable pub read_full : ℕ → Reader Bytes
read_full n s =
    if leb n (length s)
    then (ok (take n s), drop n s)
    else (if length s == 0 then err eof else err unexpected_eof, [])

-- binary.BigEndian.PutUint16, Uint16, PutUint32, Uint32, the last with its four bytes at `i`.
unfoldable pub put_uint16 : ℕ → Bytes
put_uint16 v = v / 256 % 256 ∷ v % 256 ∷ []

unfoldable pub uint16 : Bytes → ℕ → ℕ
uint16 buf i = get_or buf i 0 * 256 + get_or buf (i + 1) 0

unfoldable pub put_uint32 : ℕ → Bytes
put_uint32 v = (v / 2 ^ 24 % 256) ∷ (v / 2 ^ 16 % 256) ∷ (v / 256 % 256) ∷ (v % 256) ∷ []

unfoldable pub uint32 : Bytes → ℕ → ℕ
uint32 buf i =
    get_or buf i 0 * 2 ^ 24
    + get_or buf (i + 1) 0 * 2 ^ 16
    + get_or buf (i + 2) 0 * 256
    + get_or buf (i + 3) 0

-- parser.go's readString and readUInt32.
unfoldable pub read_string : ℕ → Reader Bytes
read_string l = read_full l

unfoldable pub read_uint32 : Reader ℕ
read_uint32 = do buf ← read_full 4; return (uint32 buf 0)

read_full_all : (xs rest : Bytes) → read_full (length xs) (xs ++ rest) ≡ (ok xs, rest)
unfolding read_full
read_full_all xs rest =
    rw (take-append_length xs rest, drop-append_length xs rest)
      (ground (arith, length-append xs rest))

-- A read of exactly what stands in front.
pub read_full-append :
    (xs rest : Bytes) (n : ℕ) → length xs ≡ n → read_full n (xs ++ rest) ≡ (ok xs, rest)
read_full-append xs rest n e = rw (← e) (read_full_all xs rest)

-- A read that asks for more than there is fails and takes all.
pub read_full_short :
    (n : ℕ) (s : Bytes)
    → length s < n
    → read_full n s ≡ (if length s == 0 then err eof else err unexpected_eof, [])
unfolding read_full
read_full_short n s h = ground arith

pub read_full_long : (n : ℕ) (s : Bytes) → n ≤ length s → read_full n s ≡ (ok (take n s), drop n s)
unfolding read_full
read_full_long n s h = ground arith

pub uint16-put : (v : ℕ) → v < 2 ^ 16 → uint16 (put_uint16 v) 0 ≡ v
unfolding uint16 put_uint16
uint16-put v h = omega arith

pub uint32-put : (v : ℕ) → v < 2 ^ 32 → uint32 (put_uint32 v) 0 ≡ v
unfolding uint32 put_uint32
uint32-put v h = omega arith

pub length-put_uint32 : (v : ℕ) → length (put_uint32 v) ≡ 4
unfolding put_uint32
length-put_uint32 v = refl

pub read_uint32-put :
    (v : ℕ) (rest : Bytes) → v < 2 ^ 32 → read_uint32 (put_uint32 v ++ rest) ≡ (ok v, rest)
unfolding read_uint32
read_uint32-put v rest h =
    rw (read_full-append (put_uint32 v) rest 4 (length-put_uint32 v)) (rw (uint32-put v h))
