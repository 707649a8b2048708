-- ===== src/Chunked/Gets/Filled.antt =====
-- handlers/memcached/chunked/localComm.go: the buffer that the chunks of an item are read into.
use mathlib.Core.List.{append_assoc, append-nil}
use rend.Prelude.{
  ℕ, zero, suc, ◌+◌, ◌-◌, ◌*◌, ◌≤◌, ◌≡◌, refl, sym, ap, ◌∙◌, Bool-cases, inl, inr, [], ◌∷◌, ◌++◌,
  length, length-take, length-drop, take, drop, replicate, take-append_length, drop-append_length,
  leb, Bytes, arith,
}
use rend.Chunked.Slices.{chunk_slice_indices, drop-drop}
use rend.Chunked.Limited.{least, zeros, padded}
use rend.Chunked.Limited.Copies.{take-split}
use rend.Chunked.Gets.{splice}

-- The buffer with the first `k` bytes of the data read, for `k` up to its length.
abbrev pub filled : ℕ → Bytes → Bytes
filled k value = take k value ++ zeros (length value - k)

take_all : (n : ℕ) (xs : Bytes) → length xs ≤ n → take n xs ≡ xs
take_all zero [] h = refl
take_all zero (x ∷ xs) h = absurd (omega arith)
take_all (suc n) [] h = refl
take_all (suc n) (x ∷ xs) h = ap (◌∷◌ x) (take_all n xs (omega arith))

take-least : (n : ℕ) (xs : Bytes) → take n xs ≡ take (least n (length xs)) xs
take-least n xs = elim (Bool-cases (leb n (length xs))) [
  | inl h ↦ rw h refl
  | inr h ↦ rw h (take_all n xs (ground arith) ∙ sym (take_all (length xs) xs (omega arith)))
]

drop-zeros : (m n : ℕ) → drop m (zeros n) ≡ zeros (n - m)
drop-zeros zero n = let e : n ≡ n - 0 = omega arith in ap zeros e
drop-zeros (suc m) zero = let e : 0 ≡ 0 - suc m = omega arith in ap zeros e
drop-zeros (suc m) (suc n) =
    let e : n - m ≡ suc n - suc m = omega arith in drop-zeros m n ∙ ap zeros e

pub length-take_le : (k : ℕ) (xs : Bytes) → k ≤ length xs → length (take k xs) ≡ k
length-take_le k xs h = ground (arith, length-take k xs)

-- What is read of a chunk is the data, without the zeros behind it.
take-padded :
    (n size : ℕ) (xs : Bytes) → n ≡ least size (length xs) → take n (padded size xs) ≡ take n xs
take-padded n size xs e =
    let t = take size xs in
    let l : length t ≡ n =
      ap length (take-least size xs)
      ∙ length-take_le (least size (length xs)) xs (ground arith)
      ∙ sym e in
    ap (λ k. take k (t ++ zeros (size - length xs))) (sym l)
    ∙ take-append_length t (zeros (size - length xs))
    ∙ take-least size xs
    ∙ ap (λ k. take k xs) (sym e)

-- The next bytes of the data, written behind the ones before.
splice-filled :
    (k n k' : ℕ) (value : Bytes)
    → k + n ≡ k'
    → k' ≤ length value
    → splice (filled k value) k (take n (drop k value)) ≡ filled k' value
splice-filled k n k' value e h =
    let t = take k value in
    let z = zeros (length value - k) in
    let part = take n (drop k value) in
    let l : length t ≡ k = length-take_le k value (omega arith) in
    let l' : length part ≡ n =
      length-take_le n (drop k value) (omega (arith, length-drop k value)) in
    let front : take k (t ++ z) ≡ t = ap (λ j. take j (t ++ z)) (sym l) ∙ take-append_length t z in
    let behind : drop k (t ++ z) ≡ z = ap (λ j. drop j (t ++ z)) (sym l) ∙ drop-append_length t z in
    let back : drop (k + length part) (t ++ z) ≡ zeros (length value - k') =
      sym (drop-drop (length part) k (t ++ z))
      ∙ ap (drop (length part)) behind
      ∙ drop-zeros (length part) (length value - k)
      ∙ ap zeros (omega arith) in
    ap (λ xs. xs ++ (part ++ drop (k + length part) (t ++ z))) front
    ∙ ap (λ xs. t ++ (part ++ xs)) back
    ∙ sym (append_assoc t part (zeros (length value - k')))
    ∙ ap (λ xs. xs ++ zeros (length value - k')) (take-split k n k' value e)

-- How far the data has been read behind `i` chunks.
abbrev pub reached : ℕ → ℕ → Bytes → ℕ
reached size i value = least (size * i) (length value)

-- A chunk's answer, read into the buffer.
pub splice-chunk :
    (size i : ℕ) (value : Bytes)
    → size * i ≤ length value
    → let (start, end) = chunk_slice_indices size i (length value) in
      splice
        (filled (reached size i value) value)
        start
        (take (end - start) (padded size (drop start value)))
      ≡ filled (reached size (i + 1) value) value
unfolding chunk_slice_indices
splice-chunk size i value h =
    let start = size * i in
    let next : size * (i + 1) ≡ size * i + size = omega arith in
    let end = (chunk_slice_indices size i (length value)).1 in
    let here : reached size i value ≡ start = ground arith in
    let there : end ≡ reached size (i + 1) value = ground arith in
    let n : end - start ≡ least size (length (drop start value)) =
      ground (arith, length-drop start value) in
    ap (λ k. splice (filled k value) start (take (end - start) (padded size (drop start value))))
      here
    ∙ ap (splice (filled start value) start) (take-padded (end - start) size (drop start value) n)
    ∙ splice-filled start (end - start) (reached size (i + 1) value) value (ground arith)
        (ground arith)

-- With all chunks read, the buffer is the data.
pub filled_all :
    (size n : ℕ) (value : Bytes)
    → length value ≤ size * n
    → filled (reached size n value) value ≡ value
filled_all size n value h =
    let e : reached size n value ≡ length value = ground arith in
    let no_zeros : length value - length value ≡ 0 = omega arith in
    ap (λ k. filled k value) e
    ∙ ap (λ xs. xs ++ zeros (length value - length value))
        (take_all (length value) value (omega arith))
    ∙ ap (λ k. value ++ zeros k) no_zeros
    ∙ append-nil value

-- Before the first chunk, it is zeros.
pub filled_none :
    (size n : ℕ) (value : Bytes)
    → n ≡ length value
    → replicate n 0 ≡ filled (reached size 0 value) value
filled_none size n value e =
    let start : 0 ≡ reached size 0 value = ground arith in
    ap zeros (e ∙ omega arith) ∙ ap (λ k. filled k value) start
