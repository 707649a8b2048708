-- ===== src/Chunked/Slices.antt =====
-- handlers/memcached/chunked/keys.go: which part of the data each chunk holds. The numbers are below
-- 2 ^ 53, where Go's float64 is exact.
use rend.Prelude.{
  ℕ, zero, suc, ◌+◌, ◌-◌, ◌*◌, ◌≤◌, ◌≡◌, refl, ap, sym, ◌∙◌, List, [], ◌∷◌, ◌++◌, length,
  length-drop, take, drop, take-append-drop, Bool-cases, inl, inr, leb, if◌then◌else◌, arith, Bytes,
}

unfoldable pub chunk_slice_indices : ℕ → ℕ → ℕ → ℕ × ℕ
chunk_slice_indices chunk_size chunk_num total_length =
    let start = chunk_size * chunk_num in
    (start, if leb (start + chunk_size) total_length then start + chunk_size else total_length)

-- `data[start:end]`
abbrev pub slice : Bytes → ℕ × ℕ → Bytes
slice buf (from, to) = take (to - from) (drop from buf)

-- The slices of `n` chunks from the chunk `i` on, put together.
abbrev pub joined : ℕ → Bytes → ℕ → ℕ → Bytes
joined size buf zero i = []
joined size buf (suc n) i =
    slice buf (chunk_slice_indices size i (length buf)) ++ joined size buf n (suc i)

drop_nil {ℓ} : {A : Type ℓ} (n : ℕ) → drop {A = A} n [] ≡ []
drop_nil zero = refl
drop_nil (suc n) = refl

pub drop-drop {ℓ} : {A : Type ℓ} (m n : ℕ) (xs : List A) → drop m (drop n xs) ≡ drop (n + m) xs
drop-drop m zero xs = ap (λ k. drop k xs) (omega arith)
drop-drop m (suc n) [] = drop_nil m ∙ sym (drop_nil (suc n + m))
drop-drop m (suc n) (x ∷ xs) =
    let e : suc n + m ≡ suc (n + m) = omega arith in
    drop-drop m n xs ∙ ap (λ k. drop k (x ∷ xs)) (sym e)

pub drop_all {ℓ} : {A : Type ℓ} (n : ℕ) (xs : List A) → length xs ≤ n → drop n xs ≡ []
drop_all zero [] h = refl
drop_all zero (x ∷ xs) h = absurd (omega arith)
drop_all (suc n) [] h = refl
drop_all (suc n) (x ∷ xs) h = drop_all n xs (omega arith)

-- A prefix with anything that equals the rest.
take-append {ℓ} : {A : Type ℓ} (k : ℕ) (xs ys : List A) → drop k xs ≡ ys → take k xs ++ ys ≡ xs
take-append k xs ys e = rw (sym e) (take-append-drop k xs)

-- How many bytes of what is left at `start` a slice takes.
rest-slice :
    (start size : ℕ) (buf : Bytes)
    → let to = (if leb (start + size) (length buf) then start + size else length buf) in
      drop (to - start) (drop start buf) ≡ drop (start + size) buf
rest-slice start size buf = elim (Bool-cases (leb (start + size) (length buf))) [
  | inl h ↦ rw h (ap (λ k. drop k (drop start buf)) (omega arith) ∙ drop-drop size start buf)
  | inr h ↦ rw h (
      drop_all (length buf - start) (drop start buf) (omega (arith, length-drop start buf))
      ∙ sym (drop_all (start + size) buf (ground arith)))
]

-- One slice, and what is behind it.
slice-rest :
    (size i : ℕ) (buf : Bytes)
    → slice buf (chunk_slice_indices size i (length buf)) ++ drop (size * i + size) buf
      ≡ drop (size * i) buf
unfolding chunk_slice_indices
slice-rest size i buf =
    take-append _ (drop (size * i) buf) (drop (size * i + size) buf)
      (rest-slice (size * i) size buf)

joined-drop :
    (size : ℕ) (buf : Bytes) (n i : ℕ)
    → length buf ≤ size * i + size * n
    → joined size buf n i ≡ drop (size * i) buf
joined-drop size buf zero i h = sym (drop_all (size * i) buf (omega arith))
joined-drop size buf (suc n) i h =
    let e : size * suc i ≡ size * i + size = omega arith in
    let f : size * suc n ≡ size * n + size = omega arith in
    ap (λ xs. slice buf (chunk_slice_indices size i (length buf)) ++ xs)
      (joined-drop size buf n (suc i) (omega arith) ∙ ap (λ k. drop k buf) e)
    ∙ slice-rest size i buf

-- The slices of the chunks, put together in order, are the data, for as many chunks as cover it;
-- and the slice of a chunk that starts within the data ends within it, no further than a chunk's
-- size behind its start.
pub joined-slices :
    (size n i : ℕ) (buf : Bytes)
    → length buf ≤ size * n
    → size * i ≤ length buf
    → (joined size buf n 0 ≡ buf)
      × (size * i ≤ (chunk_slice_indices size i (length buf)).1)
      × ((chunk_slice_indices size i (length buf)).1 ≤ length buf)
      × ((chunk_slice_indices size i (length buf)).1 ≤ size * i + size)
unfolding chunk_slice_indices
joined-slices size n i buf h within =
    let zero_start : size * 0 ≡ 0 = omega arith in
    (
      joined-drop size buf n 0 (omega arith) ∙ ap (λ k. drop k buf) zero_start,
      ground arith,
      ground arith,
      ground arith,
    )
