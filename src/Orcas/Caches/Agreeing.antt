-- ===== src/Orcas/Caches/Agreeing.antt =====
-- When two levels of a cache agree.
use rend.Prelude.{◌≡◌, refl, ◌⊎◌, inl, inr, Option, none, some, Bytes, bytes_eq_iff, arith}
use rend.Orcas.{Handler, World}
use rend.Orcas.Caches.{
  Item, View, Below, ◌⊑◌, at, write, erase, append_item, prepend_item, keep, IsCache,
}

-- Two levels agree when no key has different items in the two.
abbrev pub Compatible : Option Item → Option Item → Type 0
Compatible x y = (x ≡ none) ⊎ (y ≡ none) ⊎ (x ≡ y)

abbrev pub Agree : View → View → Type 0
Agree f g = (j : Bytes) → Compatible (f j) (g j)

-- The two levels of a state agree.
abbrev pub AgreeIn : {l1 l2 : Handler} → IsCache l1 → IsCache l2 → World l1.State l2.State → Type 0
AgreeIn c1 c2 w = Agree (c1.view w.l1) (c2.view w.l2)

Compatible-Below :
    {x y x' y' : Option Item} → Compatible x y → Below x' x → Below y' y → Compatible x' y'
Compatible-Below p q r = ground arith

pub Agree-below : {f g f' g' : View} → Agree f g → f' ⊑ f → g' ⊑ g → Agree f' g'
Agree-below a p q j = Compatible-Below (a j) (p j) (q j)

-- A change of the item that keeps two copies alike.
abbrev pub Uniform : (Option Item → Option Item) → Type 0
Uniform u = (x y : Option Item) → Compatible x y → Compatible (u x) (u y)

pub write-Uniform : (x : Item) → Uniform (write x)
write-Uniform x a b p = inr (inr refl)

pub erase-Uniform : Uniform erase
erase-Uniform a b p = inl refl

pub keep-Uniform : Uniform keep
keep-Uniform a b p = p

pub append_item-Uniform : (v : Bytes) → Uniform (append_item v)
append_item-Uniform v none y p = inl refl
append_item-Uniform v (some x) none p = inr (inl refl)
append_item-Uniform v (some x) (some y) p = ground arith

pub prepend_item-Uniform : (v : Bytes) → Uniform (prepend_item v)
prepend_item-Uniform v none y p = inl refl
prepend_item-Uniform v (some x) none p = inr (inl refl)
prepend_item-Uniform v (some x) (some y) p = ground arith

pub Agree-at :
    (k : Bytes) (u : Option Item → Option Item) {f g : View}
    → Uniform u
    → Agree f g
    → Agree (at k u f) (at k u g)
Agree-at k u {f} {g} unif a j = ground (arith, unif (f j) (g j) (a j), a j)

-- A write of an item that the other level holds, or has dropped since.
pub Agree-copy :
    {f g f' : View} (k : Bytes) (x : Item)
    → Agree f g
    → f' ⊑ at k (write x) f
    → Below (g k) (some x)
    → Agree f' g
Agree-copy {f} {g} {f'} k x a p q j = ground (arith, a j, p j, q, bytes_eq_iff k j)
