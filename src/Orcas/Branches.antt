-- ===== src/Orcas/Branches.antt =====
-- The branches of an orchestrator's method.
use rend.Prelude.{◌≡◌, refl, Bool, true, false, Option, none, some, if◌then◌else◌}
use rend.Common.{Error}
use rend.Orcas.{World, M}

-- A predicate that both branches of a test give holds of the test.
pub if_holds {ℓ} :
    {S1 S2 A : Type 0} (P : A × World S1 S2 → Type ℓ) (b : Bool) (m k : M S1 S2 A) (w : World S1 S2)
    → (b ≡ true → P (m w))
    → (b ≡ false → P (k w))
    → P ((if b then m else k) w)
if_holds P true m k w p q = p refl
if_holds P false m k w p q = q refl

-- The same for the test of an error for nil.
pub error_holds {ℓ} :
    {S1 S2 A : Type 0} (P : A × World S1 S2 → Type ℓ) (x : Option Error) (m : M S1 S2 A)
    (k : Error → M S1 S2 A) (w : World S1 S2)
    → (x ≡ none → P (m w))
    → ((e : Error) → x ≡ some e → P (k e w))
    → P ((elim x as (λ y. M S1 S2 A) [ none ↦ m | some e ↦ k e ]) w)
error_holds P none m k w p q = p refl
error_holds P (some e) m k w p q = q e refl

-- The levels are those of `w`.
abbrev pub LevelsOf : {S1 S2 A : Type 0} → World S1 S2 → A × World S1 S2 → Type 0
LevelsOf w r = (r.1.l1 ≡ w.l1) × (r.1.l2 ≡ w.l2)
