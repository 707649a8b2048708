-- ===== src/Metrics/Histograms/Extremes.antt =====
-- metrics/histograms.go: the least and the greatest of the values that a histogram has seen.
use rend.Prelude.{ℕ, ◌≤◌, ◌≡◌, List, [], ◌∷◌, ltb, if◌then◌else◌, arith}
use rend.Metrics.Histograms.{max_uint64}

abbrev pub lower : ℕ → ℕ → ℕ
lower x y = if ltb x y then x else y

abbrev pub higher : ℕ → ℕ → ℕ
higher x y = if ltb y x then x else y

-- The least and the greatest of some observations; the extremes of uint64 for none.
unfoldable pub least : List ℕ → ℕ
least [] = max_uint64
least (v ∷ vs) = lower v (least vs)

unfoldable pub greatest : List ℕ → ℕ
greatest [] = 0
greatest (v ∷ vs) = higher v (greatest vs)

pub lower_assoc : (x y z : ℕ) → lower (lower x y) z ≡ lower x (lower y z)
lower_assoc x y z = ground arith

pub higher_assoc : (x y z : ℕ) → higher (higher x y) z ≡ higher x (higher y z)
higher_assoc x y z = ground arith

pub lower_le : (x y : ℕ) → lower x y ≤ x
lower_le x y = ground arith

pub lower_le_right : (x y : ℕ) → lower x y ≤ y
lower_le_right x y = ground arith

pub least_le : (vs : List ℕ) → least vs ≤ max_uint64
unfolding least
least_le [] = omega arith
least_le (v ∷ vs) = omega (arith, lower_le_right v (least vs), least_le vs)

pub lower_none : (x : ℕ) → x ≤ max_uint64 → lower max_uint64 x ≡ x
lower_none x h = ground arith

pub higher_none : (x : ℕ) → higher 0 x ≡ x
higher_none x = ground arith
