-- ===== src/Metrics/Tests.antt =====
-- The theorems on histograms at concrete observations.
use rend.Prelude.{
  get_elem?, ◌+◌, ℕ, ◌≡◌, refl, false, some, [], ◌∷◌, replicate, length-replicate, arith,
}
use rend.Metrics.Buckets.{lzcnt, get_bucket}
use rend.Metrics.Histograms.{
  buflen, Polled, new_hist, kept_part, hdat_percentiles, poll, observe_all,
}
use rend.Metrics.Histograms.Totals.{sum, sum-zeros, kept_of, Starts, poll-observed}
use rend.Metrics.Histograms.Extremes.{least, greatest}
use rend.Metrics.Histograms.Buffer.{kept_part-observed}

-- Values of PercentileBuckets, and the ones behind them.
buckets_of_values :
    (get_bucket 15 ≡ 15)
    × (get_bucket 16 ≡ 15)
    × (get_bucket 20 ≡ 15)
    × (get_bucket 21 ≡ 16)
    × (get_bucket 1000 ≡ 41)
    × (get_bucket 9223372036854775807 ≡ 275)
unfolding get_bucket lzcnt
buckets_of_values = (refl, refl, refl, refl, refl, refl)

poll-observed_example :
    let h = observe_all (5 ∷ 3 ∷ []) (new_hist false) in
    let report : Polled = record {
      total = 8;
      count = 2;
      percentiles = hdat_percentiles h.dat;
      kept = 2;
    } in
    ((poll h).0 ≡ some report)
    × (get_elem? (hdat_percentiles h.dat) 0 ≡ some 3)
    × (get_elem? (hdat_percentiles h.dat) 20 ≡ some 5)
    × Starts (poll h).1 (replicate (buflen + 1) 0)
    × (sum (poll h).1.buckets ≡ sum (new_hist false).buckets + 2)
unfolding sum new_hist kept_of least greatest
poll-observed_example =
    poll-observed (replicate (buflen + 1) 0) (new_hist false) 5 (3 ∷ [])
      (refl, length-replicate {A = ℕ} 276 0) (omega (arith, sum-zeros 276))

kept_part-observed_example : kept_part (observe_all (7 ∷ 8 ∷ []) (new_hist false)).dat ≡ 0 ∷ 7 ∷ []
unfolding new_hist
kept_part-observed_example =
    kept_part-observed 0 (7 ∷ 8 ∷ []) (replicate buflen 0) (new_hist false) refl refl
      (length-replicate {A = ℕ} buflen 0) (omega arith)
