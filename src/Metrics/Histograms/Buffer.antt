-- ===== src/Metrics/Histograms/Buffer.antt =====
-- metrics/histograms.go: which observations the percentiles are taken of.
use mathlib.Core.List.{append_assoc, append-nil}
use mathlib.Core.Path.{subst}
use rend.Prelude.{
  ℕ, zero, suc, ◌+◌, ◌%◌, ◌^◌, ◌≤◌, ◌<◌, ◌≡◌, refl, sym, ap, ◌∙◌, false, List, [], ◌∷◌, ◌++◌,
  length, length-append, length-drop, take, drop, set, lt→ltb, arith,
}
use rend.Metrics.Histograms.{
  buflen, Hdat, Hist, counted, recorded, new_hdat, kept_part, observe_hist, observe_all,
}

-- A write behind a prefix.
set-append : (xs ys : List ℕ) (y v : ℕ) → set (xs ++ (y ∷ ys)) (length xs) v ≡ xs ++ (v ∷ ys)
set-append [] ys y v = refl
set-append (x ∷ xs) ys y v = ap (◌∷◌ x) (set-append xs ys y v)

take-append_le : (k : ℕ) (xs ys : List ℕ) → k ≤ length xs → take k (xs ++ ys) ≡ take k xs
take-append_le zero xs ys h = refl
take-append_le (suc k) [] ys h = absurd (omega arith)
take-append_le (suc k) (x ∷ xs) ys h = ap (◌∷◌ x) (take-append_le k xs ys (omega arith))

-- An unsampled histogram whose buffer has `x` at its start and then what has been kept.
record IsKept (x : ℕ) (pre rest : List ℕ) (h : Hist) : Type 0 where
  unsampled : h.sampled ≡ false
  kept_is : h.dat.kept ≡ length pre
  buf_is : h.dat.buf ≡ x ∷ (pre ++ rest)

recorded_dat :
    (v : ℕ) (h : Hist) → h.sampled ≡ false → (observe_hist v h).dat ≡ recorded v (counted v h.dat)
unfolding observe_hist
recorded_dat v h e = rw e refl

same_sampled : (v : ℕ) (h : Hist) → (observe_hist v h).sampled ≡ h.sampled
unfolding observe_hist
same_sampled v h = refl

observe-IsKept :
    (x v y : ℕ) (pre rest : List ℕ) (h : Hist)
    → IsKept x pre (y ∷ rest) h
    → length pre + 1 < 2 ^ 15
    → IsKept x (pre ++ (v ∷ [])) rest (observe_hist v h)
observe-IsKept x v y pre rest h k fit =
    let d = recorded_dat v h k.unsampled in
    let kept : (h.dat.kept + 1) % 2 ^ 64 ≡ length (pre ++ (v ∷ [])) =
      omega (arith, k.kept_is, length-append pre (v ∷ [])) in
    let i : (h.dat.kept + 1) % 2 ^ 64 % 2 ^ 15 ≡ suc (length pre) = omega (arith, k.kept_is) in
    record {
      unsampled = same_sampled v h ∙ k.unsampled;
      kept_is = ap (λ d. d.kept) d ∙ kept;
      buf_is =
          ap (λ d. d.buf) d
          ∙ ap (λ i. set h.dat.buf i v) i
          ∙ ap (λ b. set b (suc (length pre)) v) k.buf_is
          ∙ ap (◌∷◌ x) (set-append pre rest y v ∙ sym (append_assoc pre (v ∷ []) rest));
    }

observed-IsKept :
    (x : ℕ) (vs pre rest : List ℕ) (h : Hist)
    → IsKept x pre rest h
    → length vs ≤ length rest
    → length pre + length vs < 2 ^ 15
    → IsKept x (pre ++ vs) (drop (length vs) rest) (observe_all vs h)
unfolding observe_all
observed-IsKept x [] pre rest h k le fit = record {
  unsampled = k.unsampled;
  kept_is = k.kept_is ∙ ap length (sym (append-nil pre));
  buf_is = k.buf_is ∙ ap (λ p. x ∷ (p ++ rest)) (sym (append-nil pre));
}
observed-IsKept x (v ∷ vs) pre [] h k le fit = absurd (omega arith)
observed-IsKept x (v ∷ vs) pre (y ∷ rest) h k le fit =
    subst (λ p. IsKept x p (drop (length vs) rest) (observe_all vs (observe_hist v h)))
      (append_assoc pre (v ∷ []) vs)
      (observed-IsKept x vs (pre ++ (v ∷ [])) rest (observe_hist v h)
        (observe-IsKept x v y pre rest h k (omega arith)) (omega arith)
        (omega (arith, length-append pre (v ∷ []))))

taken : (x : ℕ) (vs rest : List ℕ) → take (length vs) (x ∷ (vs ++ rest)) ≡ take (length vs) (x ∷ vs)
taken x [] rest = refl
taken x (v ∷ vs) rest = ap (◌∷◌ x) (take-append_le (length vs) (v ∷ vs) rest (omega arith))

kept_part-few :
    (d : Hdat) (n : ℕ) (buf : List ℕ)
    → d.kept ≡ n
    → d.buf ≡ buf
    → n < length buf
    → kept_part d ≡ take n buf
kept_part-few d n buf e f h = rw (e, f) (rw (lt→ltb n (length buf) h) refl)

-- The percentiles of an unsampled histogram, in a period with fewer observations than the buffer has
-- places, are taken of what the buffer held at its start, which is 0 in the first period, and of all
-- the observations but the last.
pub kept_part-observed :
    (x : ℕ) (vs rest : List ℕ) (h : Hist)
    → h.sampled ≡ false
    → h.dat ≡ new_hdat (x ∷ rest)
    → length rest ≡ buflen
    → length vs ≤ buflen
    → kept_part (observe_all vs h).dat ≡ take (length vs) (x ∷ vs)
kept_part-observed x vs rest h unsampled start full fit =
    let k =
      observed-IsKept x vs [] rest h
        (record {
          unsampled = unsampled;
          kept_is = ap (λ d. d.kept) start;
          buf_is = ap (λ d. d.buf) start;
        })
        (omega arith) (omega arith) in
    kept_part-few (observe_all vs h).dat (length vs) _ k.kept_is k.buf_is
      (omega (arith, length-append vs (drop (length vs) rest), length-drop (length vs) rest))
    ∙ taken x vs (drop (length vs) rest)
