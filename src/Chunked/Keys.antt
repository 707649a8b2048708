-- ===== src/Chunked/Keys.antt =====
-- handlers/memcached/chunked/keys.go: the keys under which an item's metadata and chunks are stored.
-- The keys are byte slices without room to grow, so `append` copies.
use mathlib.Core.Path.{subst}
use mathlib.Core.List.{append_assoc}
use rend.Prelude.{
  ℕ, zero, suc, ◌+◌, ◌*◌, ◌/◌, ◌%◌, ◌≤◌, ◌<◌, ◌≡◌, ◌≢◌, refl, sym, ap, ◌∙◌, ◌↔◌, ◌-◌, Bool-cases,
  inl, inr, [], ◌∷◌, ◌++◌, drop, ltb, if◌then◌else◌, All, Bytes, arith,
}

-- strconv: the decimal digits of a number, put in front of others.
unfoldable pub digits_onto : ℕ → ℕ → Bytes → Bytes
digits_onto zero n ds = ds
digits_onto (suc fuel) n ds =
    let rest = digits_onto fuel (n / 10) ((48 + n % 10) ∷ ds) in
    if ltb n 10 then (48 + n) ∷ ds else rest

unfoldable pub decimal : ℕ → Bytes
unfolding digits_onto
decimal n = digits_onto (suc n) n []

unfoldable pub meta_key : Bytes → Bytes
meta_key key = key ++ (b'-' ∷ b'm' ∷ b'e' ∷ b't' ∷ b'a' ∷ [])

-- `strconv.AppendInt(key, int64(-chunk), 10)` writes the minus sign, but for chunk 0.
unfoldable pub chunk_key : Bytes → ℕ → Bytes
unfolding decimal
chunk_key key zero = (key ++ (b'-' ∷ [])) ++ decimal 0
chunk_key key (suc n) = key ++ (b'-' ∷ decimal (suc n))

-- No byte of the string is a dash.
abbrev NoDash : Bytes → Type 0
NoDash = All (λ b. b ≢ b'-')

contains_dash : (k ds : Bytes) → NoDash (k ++ (b'-' ∷ ds)) → ⊥
contains_dash [] ds (p, ps) = p refl
contains_dash (x ∷ k) ds (p, ps) = contains_dash k ds ps

-- The last dash of a string.
last_dash :
    (k k' ds ds' : Bytes)
    → NoDash ds
    → NoDash ds'
    → k ++ (b'-' ∷ ds) ≡ k' ++ (b'-' ∷ ds')
    → (k ≡ k') × (ds ≡ ds')
last_dash [] [] ds ds' p p' e = ground arith
last_dash [] (x ∷ k') ds ds' p p' e = absurd (contains_dash k' ds' (subst NoDash (ap (drop 1) e) p))
last_dash (x ∷ k) [] ds ds' p p' e =
    absurd (contains_dash k ds (subst NoDash (ap (drop 1) (sym e)) p'))
last_dash (x ∷ k) (y ∷ k') ds ds' p p' e = ground (arith, last_dash k k' ds ds' p p')

-- What decimal digits stand for, behind a number in front of them.
value_onto : ℕ → Bytes → ℕ
value_onto n [] = n
value_onto n (d ∷ ds) = value_onto (n * 10 + (d - 48)) ds

value-digits_onto :
    (fuel n : ℕ) (ds : Bytes) → n < fuel → value_onto 0 (digits_onto fuel n ds) ≡ value_onto n ds
unfolding digits_onto value_onto
value-digits_onto zero n ds h = absurd (omega arith)
value-digits_onto (suc fuel) n ds h = elim (Bool-cases (ltb n 10)) [
  | inl small ↦ rw small (ap (λ m. value_onto m ds) (omega arith))
  | inr large ↦ rw large (
      value-digits_onto fuel (n / 10) ((48 + n % 10) ∷ ds) (ground arith)
      ∙ ap (λ m. value_onto m ds) (omega arith))
]

abbrev IsDigit : ℕ → Type 0
IsDigit b = (48 ≤ b) × (b < 58)

digits_onto-digits :
    (fuel n : ℕ) (ds : Bytes) → n < fuel → All IsDigit ds → All IsDigit (digits_onto fuel n ds)
unfolding digits_onto
digits_onto-digits zero n ds h p = p
digits_onto-digits (suc fuel) n ds h p = elim (Bool-cases (ltb n 10)) [
  | inl small ↦ rw small ((omega arith, ground arith), p)
  | inr large ↦ rw large (
      digits_onto-digits fuel (n / 10) ((48 + n % 10) ∷ ds) (ground arith)
        ((omega arith, omega arith), p))
]

decimal-digits : (n : ℕ) → All IsDigit (decimal n)
unfolding decimal
decimal-digits n = digits_onto-digits (suc n) n [] (omega arith) tt

decimal_injective : (m n : ℕ) → decimal m ≡ decimal n → m ≡ n
unfolding decimal value_onto
decimal_injective m n e =
    sym (value-digits_onto (suc m) m [] (omega arith))
    ∙ ap (value_onto 0) e
    ∙ value-digits_onto (suc n) n [] (omega arith)

digits-NoDash : (ds : Bytes) → All IsDigit ds → NoDash ds
digits-NoDash [] p = tt
digits-NoDash (d ∷ ds) (p, ps) = (λ e. omega arith, digits-NoDash ds ps)

-- A chunk's key is the item's key, a dash and the number.
chunk_key_form : (key : Bytes) (n : ℕ) → chunk_key key n ≡ key ++ (b'-' ∷ decimal n)
unfolding chunk_key
chunk_key_form key zero = append_assoc key (b'-' ∷ []) (decimal 0)
chunk_key_form key (suc n) = refl

abbrev meta : Bytes
meta = b'm' ∷ b'e' ∷ b't' ∷ b'a' ∷ []

meta-NoDash : NoDash meta
meta-NoDash = (λ e. omega arith, (λ e. omega arith, (λ e. omega arith, (λ e. omega arith, tt))))

chunk_key_injective :
    (key key' : Bytes) (m n : ℕ) → chunk_key key m ≡ chunk_key key' n → (key ≡ key') × (m ≡ n)
chunk_key_injective key key' m n e =
    let (p, q) =
      last_dash key key' (decimal m) (decimal n) (digits-NoDash _ (decimal-digits m))
        (digits-NoDash _ (decimal-digits n))
        (sym (chunk_key_form key m) ∙ e ∙ chunk_key_form key' n) in
    (p, decimal_injective m n q)

meta_key-ne-chunk_key : (key key' : Bytes) (n : ℕ) → meta_key key ≢ chunk_key key' n
unfolding meta_key
meta_key-ne-chunk_key key key' n e =
    let (p, q) =
      last_dash key key' meta (decimal n) meta-NoDash (digits-NoDash _ (decimal-digits n))
        (e ∙ chunk_key_form key' n) in
    let (d, ds) = subst (All IsDigit) (sym q) (decimal-digits n) in omega arith

-- No two items share a stored key: the key of a chunk tells the item's key and the chunk's number,
-- the key of an item's metadata tells the item's key, and neither is the other.
pub stored_keys :
    (key key' : Bytes) (m n : ℕ)
    → ((chunk_key key m ≡ chunk_key key' n) ↔ ((key ≡ key') × (m ≡ n)))
      × ((meta_key key ≡ meta_key key') ↔ (key ≡ key'))
      × (meta_key key ≢ chunk_key key' n)
unfolding meta_key
stored_keys key key' m n = (
  (chunk_key_injective key key' m n, λ (p, q). rw (p, q) refl),
  (λ e. (last_dash key key' meta meta meta-NoDash meta-NoDash e).0, λ p. rw p refl),
  meta_key-ne-chunk_key key key' n,
)
