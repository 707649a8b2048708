-- ===== src/Metrics/Buckets.antt =====
-- metrics/histograms.go and lzcnt.go: the bucket that an observation is counted in.
use rend.Prelude.{ℕ, ◌+◌, ◌-◌, ◌*◌, ◌/◌, ◌%◌, ◌^◌, [], ◌∷◌, leb, ◌==◌, if◌then◌else◌, get_or, Bytes}

abbrev pub num_atlas_buckets : ℕ
num_atlas_buckets = 276

abbrev pub power_of4_index : Bytes
power_of4_index =
    0 ∷ 3 ∷ 14 ∷ 23 ∷ 32 ∷ 41 ∷ 50 ∷ 59 ∷ 68 ∷ 77 ∷ 86 ∷ 95 ∷ 104 ∷ 113 ∷ 122 ∷ 131 ∷ 140 ∷ 149
    ∷ 158 ∷ 167 ∷ 176 ∷ 185 ∷ 194 ∷ 203 ∷ 212 ∷ 221 ∷ 230 ∷ 239 ∷ 248 ∷ 257 ∷ 266 ∷ 275 ∷ []

-- One step of `lzcnt`: the count and the number, moved by `w` bits if its upper `64 - s` bits are 0.
abbrev pub lzcnt_step : ℕ → ℕ → ℕ × ℕ → ℕ × ℕ
lzcnt_step s w (n, x) = if x / 2 ^ s == 0 then (n + w, x * 2 ^ w % 2 ^ 64) else (n, x)

unfoldable pub lzcnt : ℕ → ℕ
lzcnt x =
    let (n, y) =
      lzcnt_step 62 2
        (lzcnt_step 60 4 (lzcnt_step 56 8 (lzcnt_step 48 16 (lzcnt_step 32 32 (1, x))))) in
    n - y / 2 ^ 63

-- The greatest even number that is not above one.
abbrev pub even_shift : ℕ → ℕ
even_shift n = if n % 2 == 1 then n - 1 else n

abbrev pub prev_power_of4 : ℕ → ℕ → ℕ
prev_power_of4 n rshift = n / 2 ^ rshift * 2 ^ even_shift rshift % 2 ^ 64

unfoldable pub get_bucket : ℕ → ℕ
unfolding lzcnt
get_bucket n =
    if leb n 15
    then n
    else let rshift = 64 - lzcnt n - 1 in
      let prev = prev_power_of4 n rshift in
      let offset = (n - prev) / (prev / 3) in
      let pos = offset + get_or power_of4_index (even_shift rshift / 2) 0 in
      if leb (num_atlas_buckets - 1) pos then num_atlas_buckets - 1 else pos + 1
