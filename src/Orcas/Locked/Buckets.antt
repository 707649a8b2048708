-- ===== src/Orcas/Locked/Buckets.antt =====
-- orcas/locked.go: getlock, which picks the lock of a key by its hash (hash/fnv, FNV-1a of 32 bits).
use Prim.Native.Nat.{bit_and, bit_xor, bit_and-bitwise, digits, min}
use rend.Prelude.{
  ℕ, zero, suc, ◌-◌, ◌*◌, ◌/◌, ◌%◌, ◌^◌, ◌≤◌, ◌<◌, [], ◌∷◌, ◌≡◌, Option, none, some, ltb, ◌==◌,
  if◌then◌else◌, Bytes, arith,
}

-- The hash of the bytes written so far, and one more.
unfoldable pub fnv32a_from : ℕ → Bytes → ℕ
fnv32a_from h [] = h
fnv32a_from h (b ∷ bs) = fnv32a_from (bit_xor h b * 16777619 % 2 ^ 32) bs

unfoldable pub fnv32a : Bytes → ℕ
unfolding fnv32a_from
fnv32a key = fnv32a_from 2166136261 key

-- `1 << concurrency` as an int of 64 bits, the number of locks of a set: none is the negative number
-- that a concurrency of 63 makes.
unfoldable pub lock_count : ℕ → Option ℕ
lock_count concurrency =
    if concurrency == 63
    then none
    else if ltb concurrency 63
    then some (2 ^ concurrency)
    else some 0

-- The place of a key's lock among `count` locks, one or more; without locks Go panics.
unfoldable pub bucket : ℕ → Bytes → ℕ
unfolding fnv32a
bucket count key = bit_and (fnv32a key) (count - 1)

-- A digit of `and` is at most the second number's.
digits-le : (n a b : ℕ) → digits (λ b. zero) min n a b ≤ b
digits-le zero a b = omega arith
digits-le (suc n) zero b = omega arith
digits-le (suc n) (suc a) b = omega (arith, digits-le n (suc a / 2) (b / 2))

bit_and-le : (a b : ℕ) → bit_and a b ≤ b
bit_and-le a b = omega (arith, bit_and-bitwise a b, digits-le a a b)

-- The lock of a key is one of the set's, in a set of one or more.
pub bucket-lt : (count : ℕ) (key : Bytes) → 0 < count → bucket count key < count
unfolding bucket
bucket-lt count key h = omega (arith, bit_and-le (fnv32a key) (count - 1))

pow_pos : (n : ℕ) → 0 < 2 ^ n
pow_pos zero = omega arith
pow_pos (suc n) = omega (arith, pow_pos n)

-- A concurrency below 63 makes a set of one lock or more.
pub lock_count-pow :
    (concurrency : ℕ)
    → concurrency < 63
    → (lock_count concurrency ≡ some (2 ^ concurrency)) × (0 < 2 ^ concurrency)
unfolding lock_count
lock_count-pow concurrency h = (ground arith, pow_pos concurrency)
