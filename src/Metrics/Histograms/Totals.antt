-- ===== src/Metrics/Histograms/Totals.antt =====
-- metrics/histograms.go: the numbers of a period, and its buckets.
use rend.Prelude.{
  get_elem?, ◌==◌, ltb→lt, ℕ, zero, suc, ◌+◌, ◌%◌, ◌^◌, ◌≤◌, ◌<◌, ◌≡◌, refl, ◌∙◌, Bool, some, List,
  [], ◌∷◌, length, replicate, set, length-set, get_or, arith, Bool-cases, inl, inr, ltb,
  if◌then◌else◌, ◌/◌, true, false, sym, ap,
}
use rend.Metrics.Buckets.{get_bucket, num_atlas_buckets}
use rend.Metrics.Histograms.Extremes.{
  lower, higher, least, greatest, lower_le, lower_assoc, higher_assoc, least_le, lower_none,
  higher_none,
}
use rend.Metrics.Histograms.{
  extract_hist, Hist, counted, passed_over, observe_hist, observe_all, poll, Polled,
  hdat_percentiles, new_hdat, max_uint64, Hdat,
}

unfoldable pub sum : List ℕ → ℕ
sum [] = 0
sum (x ∷ xs) = x + sum xs

get_bucket_small : (n : ℕ) → get_bucket n < 276
unfolding get_bucket
get_bucket_small n = ground arith

sum-set : (xs : List ℕ) (i v : ℕ) → i < length xs → sum (set xs i v) + get_or xs i 0 ≡ sum xs + v
unfolding sum
sum-set [] i v h = absurd (omega arith)
sum-set (x ∷ xs) zero v h = omega arith
sum-set (x ∷ xs) (suc i) v h = omega (arith, sum-set xs i v (omega arith))

get_or_le : (xs : List ℕ) (i : ℕ) → get_or xs i 0 ≤ sum xs
unfolding sum
get_or_le [] i = omega arith
get_or_le (x ∷ xs) zero = omega arith
get_or_le (x ∷ xs) (suc i) = omega (arith, get_or_le xs i)

pub sum-zeros : (n : ℕ) → sum (replicate n 0) ≡ 0
unfolding sum
sum-zeros zero = refl
sum-zeros (suc n) = omega (arith, sum-zeros n)

-- How many of `n` observations are kept, by whether the histogram is sampled.
unfoldable pub kept_of : Bool → ℕ → ℕ
kept_of true n = n / 4
kept_of false n = n

-- What a period has behind some observations, by what it had before them.
record IsBehind (vs : List ℕ) (h h' : Hist) : Type 0 where
  count_is : h'.dat.count ≡ h.dat.count + length vs
  total_is : h'.dat.total ≡ (h.dat.total + sum vs) % 2 ^ 64
  kept_is : h'.dat.kept ≡ kept_of h.sampled (h.dat.count + length vs)
  min_is : h'.dat.min ≡ lower h.dat.min (least vs)
  max_is : h'.dat.max ≡ higher h.dat.max (greatest vs)
  buckets_are : sum h'.buckets ≡ sum h.buckets + length vs
  same_length : length h'.buckets ≡ length h.buckets
  same_backup : h'.bakbuf ≡ h.bakbuf

length-buckets : (v : ℕ) (h : Hist) → length (observe_hist v h).buckets ≡ length h.buckets
unfolding observe_hist
length-buckets v h =
    let i = get_bucket v in length-set h.buckets i ((get_or h.buckets i 0 + 1) % 2 ^ 64)

-- The next observation.
bucket_counted :
    (v : ℕ) (h : Hist)
    → length h.buckets ≡ 276
    → sum h.buckets + 1 < 2 ^ 64
    → sum (observe_hist v h).buckets ≡ sum h.buckets + 1
unfolding observe_hist
bucket_counted v h e small =
    let i = get_bucket v in
    let x = get_or h.buckets i 0 in
    let l : i < length h.buckets = omega (arith, get_bucket_small v) in
    let w : (x + 1) % 2 ^ 64 ≡ x + 1 = omega (arith, get_or_le h.buckets i) in
    omega (arith, sum-set h.buckets i ((x + 1) % 2 ^ 64) l, w)

dat_counted :
    (v : ℕ) (h : Hist)
    → let d = (observe_hist v h).dat in
      (d.count ≡ (h.dat.count + 1) % 2 ^ 64)
      × (d.total ≡ (h.dat.total + v) % 2 ^ 64)
      × (d.min ≡ lower h.dat.min v)
      × (d.max ≡ higher h.dat.max v)
unfolding observe_hist
dat_counted v h = elim (Bool-cases (passed_over h.sampled (counted v h.dat))) [
  | inl p ↦ rw p (refl, refl, refl, refl)
  | inr p ↦ rw p (refl, refl, refl, refl)
]

not_ltb : (a b : ℕ) → ltb a b ≡ false → b ≤ a
not_ltb a b h = ground arith

kept_counted :
    (sampled : Bool) (v : ℕ) (h : Hist)
    → h.sampled ≡ sampled
    → h.dat.count + 1 < 2 ^ 64
    → h.dat.kept ≡ kept_of sampled h.dat.count
    → (observe_hist v h).dat.kept ≡ kept_of sampled (h.dat.count + 1)
unfolding observe_hist kept_of
kept_counted true v h e fit k = rw e (elim (Bool-cases (ltb 0 ((h.dat.count + 1) % 2 ^ 64 % 4))) [
  | inl p ↦ rw p (let q = ltb→lt _ _ p in omega arith)
  | inr p ↦ rw p (let q = not_ltb _ _ p in omega arith)
])
kept_counted false v h e fit k = rw e (omega arith)

kept_same :
    (v : ℕ) (h : Hist)
    → ((observe_hist v h).bakbuf ≡ h.bakbuf) × ((observe_hist v h).sampled ≡ h.sampled)
unfolding observe_hist
kept_same v h = (refl, refl)

observed-IsBehind :
    (vs : List ℕ) (h : Hist)
    → length h.buckets ≡ 276
    → h.dat.count + length vs < 2 ^ 64
    → h.dat.total < 2 ^ 64
    → h.dat.min ≤ max_uint64
    → h.dat.kept ≡ kept_of h.sampled h.dat.count
    → sum h.buckets + length vs < 2 ^ 64
    → IsBehind vs h (observe_all vs h)
unfolding observe_all sum least greatest
observed-IsBehind [] h e c t m k b = record {
  count_is = omega arith;
  total_is = omega arith;
  kept_is = k ∙ ap (kept_of h.sampled) (omega arith);
  min_is = ground arith;
  max_is = ground arith;
  buckets_are = omega arith;
  same_length = refl;
  same_backup = refl;
}
observed-IsBehind (v ∷ vs) h e c t m k b =
    let (s0, s1, s2, s3) = dat_counted v h in
    let (b0, b1) = kept_same v h in
    let h1 = observe_hist v h in
    let n1 : h1.dat.count ≡ h.dat.count + 1 = omega arith in
    let k1 = kept_counted h.sampled v h refl (omega arith) k in
    let bs = bucket_counted v h e (omega arith) in
    let r =
      observed-IsBehind vs h1 (length-buckets v h ∙ e) (omega arith) (omega arith)
        (omega (arith, s2, lower_le h.dat.min v))
        (k1 ∙ ap (kept_of h.sampled) (sym n1) ∙ ap (λ x. kept_of x h1.dat.count) (sym b1))
        (omega arith) in
    record {
      count_is = omega (arith, r.count_is);
      total_is = omega (arith, r.total_is);
      kept_is =
          r.kept_is
          ∙ ap (λ x. kept_of x (h1.dat.count + length vs)) b1
          ∙ ap (kept_of h.sampled) (omega arith);
      min_is = r.min_is ∙ ap (λ x. lower x (least vs)) s2 ∙ lower_assoc h.dat.min v (least vs);
      max_is =
          r.max_is ∙ ap (λ x. higher x (greatest vs)) s3 ∙ higher_assoc h.dat.max v (greatest vs);
      buckets_are = omega (arith, r.buckets_are);
      same_length = r.same_length ∙ length-buckets v h;
      same_backup = r.same_backup ∙ b0;
    }

kept_of_none : (sampled : Bool) → kept_of sampled 0 ≡ 0
unfolding kept_of
kept_of_none true = refl
kept_of_none false = refl

-- The first and the 21st of the percentiles.
ends_of :
    (d : Hdat) (a b k : ℕ)
    → d.min ≡ a
    → d.max ≡ b
    → d.kept ≡ k
    → (get_elem? (hdat_percentiles d) 0 ≡ some (if k == 0 then 0 else a))
      × (get_elem? (hdat_percentiles d) 20 ≡ some (if k == 0 then 0 else b))
unfolding hdat_percentiles
ends_of d a b k p q r = elim (Bool-cases (k == 0)) [
  | inl e ↦ rw (r, p, q, e) (refl, refl)
  | inr e ↦ rw (r, p, q, e) (refl, refl)
]

-- A poll of a histogram with observations.
poll-counted :
    (h : Hist) (n t k : ℕ)
    → h.dat.count ≡ suc n
    → h.dat.total ≡ t
    → h.dat.kept ≡ k
    → let report : Polled = record {
      total = t;
      count = suc n;
      percentiles = hdat_percentiles h.dat;
      kept = k;
    } in
      ((poll h).0 ≡ some report)
      × ((poll h).1.dat ≡ new_hdat h.bakbuf)
      × ((poll h).1.buckets ≡ h.buckets)
unfolding poll extract_hist
poll-counted h n t k e f g = ground arith

-- A period starts: its data are over some buffer, and there is a counter for each bucket.
abbrev pub Starts : Hist → List ℕ → Type 0
Starts h buf = (h.dat ≡ new_hdat buf) × (length h.buckets ≡ num_atlas_buckets)

-- A poll reports of a period its observations' number, their sum modulo 2 ^ 64, and how many of them
-- were kept, all or, of a sampled histogram, a fourth of them rounded down. Its percentiles begin with
-- the least of the observations and have the greatest in the 21st place, or 0 in both if none was kept,
-- which is so for fewer than four of a sampled histogram. The next period starts with nothing of
-- them, and each is counted in one of the buckets, which go on counting. The buckets may have
-- counted before, to less than 2 ^ 64 together with the observations.
pub poll-observed :
    (buf : List ℕ) (h0 : Hist) (v : ℕ) (vs : List ℕ)
    → Starts h0 buf
    → sum h0.buckets + length (v ∷ vs) < 2 ^ 64
    → let n = length (v ∷ vs) in
      let kept = kept_of h0.sampled n in
      let h = observe_all (v ∷ vs) h0 in
      let (reported, h') = poll h in
      let report : Polled = record {
        total = sum (v ∷ vs) % 2 ^ 64;
        count = n;
        percentiles = hdat_percentiles h.dat;
        kept = kept;
      } in
      (reported ≡ some report)
      × (get_elem? report.percentiles 0 ≡ some (if kept == 0 then 0 else least (v ∷ vs)))
      × (get_elem? report.percentiles 20 ≡ some (if kept == 0 then 0 else greatest (v ∷ vs)))
      × Starts h' h0.bakbuf
      × (sum h'.buckets ≡ sum h0.buckets + n)
poll-observed buf h0 v vs (s, l) fit =
    let h = observe_all (v ∷ vs) h0 in
    let c0 : h0.dat.count ≡ 0 = ap (λ d. d.count) s in
    let t0 : h0.dat.total ≡ 0 = ap (λ d. d.total) s in
    let k0 : h0.dat.kept ≡ 0 = ap (λ d. d.kept) s in
    let m0 : h0.dat.min ≡ max_uint64 = ap (λ d. d.min) s in
    let x0 : h0.dat.max ≡ 0 = ap (λ d. d.max) s in
    let r =
      observed-IsBehind (v ∷ vs) h0 l (omega arith) (omega arith) (omega arith)
        (k0 ∙ sym (kept_of_none h0.sampled) ∙ ap (kept_of h0.sampled) (sym c0)) fit in
    let n : h.dat.count ≡ suc (length vs) = omega (arith, r.count_is) in
    let t : h.dat.total ≡ sum (v ∷ vs) % 2 ^ 64 = omega (arith, r.total_is) in
    let k : h.dat.kept ≡ kept_of h0.sampled (suc (length vs)) =
      r.kept_is ∙ ap (kept_of h0.sampled) (omega arith) in
    let (p, q, b) = poll-counted h (length vs) _ _ n t k in
    let (e0, e1) =
      ends_of h.dat _ _ _
        (r.min_is ∙ ap (λ x. lower x (least (v ∷ vs))) m0 ∙ lower_none _ (least_le (v ∷ vs)))
        (r.max_is ∙ ap (λ x. higher x (greatest (v ∷ vs))) x0 ∙ higher_none _) k in
    (
      p,
      e0,
      e1,
      (q ∙ ap new_hdat r.same_backup, ap length b ∙ r.same_length ∙ l),
      ap sum b ∙ r.buckets_are,
    )
