-- ===== src/Orcas/Caches.antt =====
-- What the orchestrators rely on in a handler, as laws on what it holds: a handler is a cache, so
-- an item may be gone at any time (evicted, expired, dropped by a failing node), but an item that
-- is there is one that a request put there.
pub mod Agreeing
pub mod Calls
use rend.Prelude.{
  ℕ, ◌≡◌, refl, ◌⊎◌, inl, inr, Bool, true, false, ◌||◌, ◌++◌, Option, none, some, if◌then◌else◌,
  Bytes, bytes_eq, All, arith,
}
use rend.Common.{
  Error, is_key_not_found, is_key_exists, is_item_not_stored, SetRequest, GetRequest, DeleteRequest,
  TouchRequest, GatRequest, GetResponse, GetEResponse,
}
use rend.Orcas.{Event, received, failed, Handler}

-- Data and flags.
abbrev pub Item : Type 0
Item = Bytes × ℕ

abbrev pub View : Type 0
View = Bytes → Option Item

-- What a lossy copy of an item may be.
abbrev pub Below : Option Item → Option Item → Type 0
Below x y = (x ≡ none) ⊎ (x ≡ y)

infix 4 ◌⊑◌
abbrev pub ◌⊑◌ : View → View → Type 0
◌⊑◌ f g = (j : Bytes) → Below (f j) (g j)

-- A view with one key changed.
abbrev pub at : Bytes → (Option Item → Option Item) → View → View
at k u f j = if bytes_eq k j then u (f j) else f j

abbrev pub write : Item → Option Item → Option Item
write x old = some x

abbrev pub erase : Option Item → Option Item
erase old = none

abbrev pub append_item : Bytes → Option Item → Option Item
append_item v none = none
append_item v (some (d, fl)) = some (d ++ v, fl)

abbrev pub prepend_item : Bytes → Option Item → Option Item
prepend_item v none = none
prepend_item v (some (d, fl)) = some (v ++ d, fl)

abbrev pub keep : Option Item → Option Item
keep old = old

-- A response that is not a miss carries the item of its key.
abbrev pub Serves : View → GetResponse → Type 0
Serves f r = r.miss ≡ false → f r.key ≡ some (r.value, r.flags)

abbrev pub ServesE : View → GetEResponse → Type 0
ServesE f r = r.miss ≡ false → f r.key ≡ some (r.value, r.flags)

abbrev pub OnReceived : {A : Type 0} → (A → Type 0) → Event A → Type 0
OnReceived P (received r) = P r
OnReceived P (failed e) = Unit {0}

-- An error of the kind that a test picks out.
abbrev pub refused : (Error → Bool) → Option Error → Bool
refused p none = false
refused p (some e) = p e

abbrev pub not_held : Error → Bool
not_held e = is_item_not_stored e || is_key_not_found e

pub record IsCache (h : Handler) : Type 0 where
  pub view : h.State → View
  pub set_ok :
      (r : SetRequest) (s : h.State)
      → (h.set r s).0 ≡ none
      → view (h.set r s).1 ⊑ at r.key (write (r.value, r.flags)) (view s)
  pub add_ok :
      (r : SetRequest) (s : h.State)
      → (h.add r s).0 ≡ none
      → view (h.add r s).1 ⊑ at r.key (write (r.value, r.flags)) (view s)
  pub add_exists :
      (r : SetRequest) (s : h.State)
      → refused is_key_exists (h.add r s).0 ≡ true
      → view (h.add r s).1 ⊑ view s
  pub replace_ok :
      (r : SetRequest) (s : h.State)
      → (h.replace r s).0 ≡ none
      → view (h.replace r s).1 ⊑ at r.key (write (r.value, r.flags)) (view s)
  pub replace_miss :
      (r : SetRequest) (s : h.State)
      → refused is_key_not_found (h.replace r s).0 ≡ true
      → view (h.replace r s).1 ⊑ at r.key erase (view s)
  pub append_ok :
      (r : SetRequest) (s : h.State)
      → (h.append r s).0 ≡ none
      → view (h.append r s).1 ⊑ at r.key (append_item r.value) (view s)
  pub append_miss :
      (r : SetRequest) (s : h.State)
      → refused not_held (h.append r s).0 ≡ true
      → view (h.append r s).1 ⊑ at r.key erase (view s)
  pub prepend_ok :
      (r : SetRequest) (s : h.State)
      → (h.prepend r s).0 ≡ none
      → view (h.prepend r s).1 ⊑ at r.key (prepend_item r.value) (view s)
  pub prepend_miss :
      (r : SetRequest) (s : h.State)
      → refused not_held (h.prepend r s).0 ≡ true
      → view (h.prepend r s).1 ⊑ at r.key erase (view s)
  pub delete_ok :
      (r : DeleteRequest) (s : h.State)
      → (h.delete r s).0 ≡ none
      → view (h.delete r s).1 ⊑ at r.key erase (view s)
  pub delete_miss :
      (r : DeleteRequest) (s : h.State)
      → refused is_key_not_found (h.delete r s).0 ≡ true
      → view (h.delete r s).1 ⊑ at r.key erase (view s)
  pub touch_ok :
      (r : TouchRequest) (s : h.State) → (h.touch r s).0 ≡ none → view (h.touch r s).1 ⊑ view s
  pub touch_miss :
      (r : TouchRequest) (s : h.State)
      → refused is_key_not_found (h.touch r s).0 ≡ true
      → view (h.touch r s).1 ⊑ view s
  pub get_keeps : (r : GetRequest) (s : h.State) → view (h.get r s).1 ⊑ view s
  pub get_serves : (r : GetRequest) (s : h.State) → All (OnReceived (Serves (view s))) (h.get r s).0
  pub get_e_keeps : (r : GetRequest) (s : h.State) → view (h.get_e r s).1 ⊑ view s
  pub get_e_serves :
      (r : GetRequest) (s : h.State) → All (OnReceived (ServesE (view s))) (h.get_e r s).0
  pub gat_keeps :
      (r : GatRequest) (s : h.State) → (h.gat r s).0.1 ≡ none → view (h.gat r s).1 ⊑ view s
  pub gat_serves :
      (r : GatRequest) (s : h.State)
      → (h.gat r s).0.1 ≡ none
      → (h.gat r s).0.0.miss ≡ false
      → view s r.key ≡ some ((h.gat r s).0.0.value, (h.gat r s).0.0.flags)

Below-trans : {x y z : Option Item} → Below x y → Below y z → Below x z
Below-trans {x} {y} {z} p q = ground arith

pub view_trans : {f g h : View} → f ⊑ g → g ⊑ h → f ⊑ h
view_trans p q j = Below-trans (p j) (q j)

pub view_refl : (f : View) → f ⊑ f
view_refl f j = inr refl

-- Erasing an item is below every change of it.
pub erase-at : (k : Bytes) (u : Option Item → Option Item) (f : View) → at k erase f ⊑ at k u f
erase-at k u f j = ground arith

pub erase-below : (k : Bytes) (f : View) → at k erase f ⊑ f
erase-below k f j = ground arith

-- What was served stays that, or goes.
pub Below-served :
    {g g' : View} {k : Bytes} {x : Item} → g' ⊑ g → g k ≡ some x → Below (g' k) (some x)
Below-served {g} {g'} {k} {x} p e = ground (arith, p k, e)
