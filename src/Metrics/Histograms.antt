-- ===== src/Metrics/Histograms.antt =====
-- metrics/histograms.go: a histogram, what an observation does to it, and the percentiles that a poll
-- makes of it. Observations are made one after another here; `sampled` is the flag of hSampled.
pub mod Extremes
pub mod Totals
pub mod Buffer
use rend.Prelude.{
  ℕ, zero, suc, ◌+◌, ◌-◌, ◌*◌, ◌/◌, ◌%◌, ◌^◌, ◌≤◌, ◌<◌, ◌≡◌, Bool, true, false, ◌&&◌, Option, none,
  some, List, [], ◌∷◌, ◌++◌, map, length, take, drop, replicate, set, get_or, ltb, leb, ◌==◌,
  if◌then◌else◌, Bytes, arith,
}
use rend.Metrics.Buckets.{num_atlas_buckets, get_bucket}

abbrev pub buflen : ℕ
buflen = 0x7fff

abbrev pub max_uint64 : ℕ
max_uint64 = 2 ^ 64 - 1

pub record Hdat : Type 0 where
  pub count : ℕ
  pub kept : ℕ
  pub total : ℕ
  pub min : ℕ
  pub max : ℕ
  pub buf : List ℕ

-- A histogram with its buckets, and whether it is sampled.
pub record Hist : Type 0 where
  pub dat : Hdat
  pub bakbuf : List ℕ
  pub buckets : List ℕ
  pub sampled : Bool

-- The data of a period that starts, over a buffer.
abbrev pub new_hdat : List ℕ → Hdat
new_hdat buf = record { count = 0; kept = 0; total = 0; min = max_uint64; max = 0; buf = buf }

unfoldable pub new_hist : Bool → Hist
new_hist sampled = record {
  dat = new_hdat (replicate (buflen + 1) 0);
  bakbuf = replicate (buflen + 1) 0;
  buckets = replicate num_atlas_buckets 0;
  sampled = sampled;
}

-- The observation counted, and put into the running total, the extremes and its bucket.
abbrev pub counted : ℕ → Hdat → Hdat
counted value d = record d {
  count = (d.count + 1) % 2 ^ 64;
  total = (d.total + value) % 2 ^ 64;
  max = if ltb value d.max then d.max else value;
  min = if ltb d.min value then d.min else value;
}

abbrev pub recorded : ℕ → Hdat → Hdat
recorded value d =
    let kept = (d.kept + 1) % 2 ^ 64 in
    record d { kept = kept; buf = set d.buf (kept % 2 ^ 15) value }

-- A sampled histogram keeps every fourth observation.
abbrev pub passed_over : Bool → Hdat → Bool
passed_over sampled d = sampled && ltb 0 (d.count % 4)

unfoldable pub observe_hist : ℕ → Hist → Hist
unfolding get_bucket
observe_hist value h =
    let d = counted value h.dat in
    let bucket = get_bucket value in
    record h {
      dat = if passed_over h.sampled d then d else recorded value d;
      buckets = set h.buckets bucket ((get_or h.buckets bucket 0 + 1) % 2 ^ 64);
    }

unfoldable pub extract_hist : Hist → Hdat × Hist
extract_hist h = (h.dat, record h { dat = new_hdat h.bakbuf; bakbuf = h.dat.buf })

-- sort.Sort over uint64slice.
unfoldable pub insert : ℕ → List ℕ → List ℕ
insert x [] = x ∷ []
insert x (y ∷ ys) = if leb x y then x ∷ y ∷ ys else y ∷ insert x ys

unfoldable pub sort : List ℕ → List ℕ
unfolding insert
sort [] = []
sort (x ∷ xs) = insert x (sort xs)

-- The part of the buffer that the percentiles are taken from.
abbrev pub kept_part : Hdat → List ℕ
kept_part d = if ltb d.kept (length d.buf) then take d.kept d.buf else d.buf

-- The 5th to the 95th percentile of a sorted buffer, from the `i`th on, `n` of them.
abbrev pub percentiles : List ℕ → ℕ → ℕ → List ℕ
percentiles buf i zero = []
percentiles buf i (suc n) = get_or buf (length buf * i / 20) 0 ∷ percentiles buf (i + 1) n

-- `int(math.Floor(float64(len) * 99.9 / 100.0))` is the quotient for the lengths that a buffer has.
unfoldable pub hdat_percentiles : Hdat → List ℕ
unfolding sort
hdat_percentiles d =
    if d.kept == 0
    then replicate 23 0
    else let buf = sort (kept_part d) in
      (d.min ∷ percentiles buf 1 19)
      ++ (d.max
          ∷ get_or buf (length buf * 99 / 100) 0
          ∷ get_or buf (length buf * 999 / 1000) 0
          ∷ [])

-- The buffer behind the percentiles, which are taken of the part sorted in place.
abbrev pub sorted_in_place : Hdat → List ℕ
sorted_in_place d =
    if ltb d.kept (length d.buf) then sort (take d.kept d.buf) ++ drop d.kept d.buf else sort d.buf

-- What a poll reports of a histogram with observations: the total and the count, whose quotient is
-- the average, the percentiles, and how many observations were kept.
pub record Polled : Type 0 where
  pub total : ℕ
  pub count : ℕ
  pub percentiles : List ℕ
  pub kept : ℕ

-- One histogram's part of `getAllHistograms`. The buffer that is sorted is the one that the histogram
-- has set aside.
unfoldable pub poll : Hist → Option Polled × Hist
unfolding extract_hist hdat_percentiles
poll h =
    let (d, h') = extract_hist h in
    if d.count == 0 then (none, h') else (
      some (record {
        total = d.total;
        count = d.count;
        percentiles = hdat_percentiles d;
        kept = d.kept;
      }),
      record h' { bakbuf = if d.kept == 0 then d.buf else sorted_in_place d },
    )

-- Observations one after another.
unfoldable pub observe_all : List ℕ → Hist → Hist
unfolding observe_hist
observe_all [] h = h
observe_all (v ∷ vs) h = observe_all vs (observe_hist v h)
