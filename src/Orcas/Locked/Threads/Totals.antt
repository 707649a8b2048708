-- ===== src/Orcas/Locked/Threads/Totals.antt =====
-- Sums over the connections of a system.
use rend.Prelude.{
  List, ℕ, zero, suc, ◌+◌, ◌<◌, ◌≤◌, ◌≡◌, ◌≢◌, refl, ◌==◌, Bool-cases, inl, inr, arith,
}
use rend.Orcas.Locked.Methods.{Event}
use rend.Orcas.Locked.Threads.{update}

-- What a connection has still to do.
abbrev pub Todo : Type 0
Todo = List Event

abbrev pub total : ℕ → (Todo → ℕ) → (ℕ → Todo) → ℕ
total zero w f = 0
total (suc n) w f = total n w f + w (f n)

total_beyond :
    (n : ℕ) (w : Todo → ℕ) (f : ℕ → Todo) (i : ℕ) (p : Todo)
    → n ≤ i
    → total n w (update f i p) ≡ total n w f
total_beyond zero w f i p h = refl
total_beyond (suc n) w f i p h = ground (arith, total_beyond n w f i p (omega arith))

-- A change of one connection changes the sum by its share.
pub total-update :
    (n : ℕ) (w : Todo → ℕ) (f : ℕ → Todo) (i : ℕ) (p : Todo)
    → i < n
    → total n w (update f i p) + w (f i) ≡ total n w f + w p
total-update zero w f i p h = absurd (omega arith)
total-update (suc n) w f i p h = elim (Bool-cases (i == n)) [
  | inl e ↦ ground (arith, total_beyond n w f i p)
  | inr e ↦ ground (arith, total-update n w f i p)
]

pub total_one : (n : ℕ) (w : Todo → ℕ) (f : ℕ → Todo) (i : ℕ) → i < n → w (f i) ≤ total n w f
total_one zero w f i h = absurd (omega arith)
total_one (suc n) w f i h = elim (Bool-cases (i == n)) [
  | inl e ↦ ground arith
  | inr e ↦ ground (arith, total_one n w f i)
]

pub total_two :
    (n : ℕ) (w : Todo → ℕ) (f : ℕ → Todo) (i j : ℕ)
    → i < n
    → j < n
    → i ≢ j
    → w (f i) + w (f j) ≤ total n w f
total_two zero w f i j h h' d = absurd (omega arith)
total_two (suc n) w f i j h h' d = elim (Bool-cases (i == n)) [
  | inl e ↦ ground (arith, total_one n w f j)
  | inr e ↦ elim (Bool-cases (j == n)) [
    | inl e' ↦ ground (arith, total_one n w f i)
    | inr e' ↦ ground (arith, total_two n w f i j)
  ]
]

-- A sum that is not 0 has a share that is not.
pub total_holder :
    (n : ℕ) (w : Todo → ℕ) (f : ℕ → Todo) → 0 < total n w f → (i : ℕ) × (i < n) × (0 < w (f i))
total_holder zero w f h = absurd (omega arith)
total_holder (suc n) w f h = elim (Bool-cases (w (f n) == 0)) [
  | inl e ↦ let (i, p, q) = total_holder n w f (ground arith) in (i, omega arith, q)
  | inr e ↦ (n, omega arith, ground arith)
]
