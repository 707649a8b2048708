-- ===== src/Orcas/Caches/Calls.antt =====
-- What a cache holds after a call of one of the methods that write one key.
use rend.Prelude.{◌≡◌, true, false, Option, none, arith, Bytes, Bool}
use rend.Common.{Error, is_key_not_found, is_key_exists}
use rend.Orcas.{Handler}
use rend.Orcas.Caches.{
  Item, View, ◌⊑◌, at, write, erase, append_item, prepend_item, keep, IsCache, refused, not_held,
  view_trans, erase-below,
}
use rend.Orcas.Caches.Agreeing.{
  Uniform, write-Uniform, erase-Uniform, keep-Uniform, append_item-Uniform, prepend_item-Uniform,
}
use rend.Orcas.Writes.{Write, sets, adds, replaces, appends, prepends, deletes, touches, call}

abbrev pub key_of : Write → Bytes
key_of (sets r) = r.key
key_of (adds r) = r.key
key_of (replaces r) = r.key
key_of (appends r) = r.key
key_of (prepends r) = r.key
key_of (deletes r) = r.key
key_of (touches r) = r.key

-- What a call that succeeds does to the item of its key.
abbrev pub change : Write → Option Item → Option Item
change (sets r) = write (r.value, r.flags)
change (adds r) = write (r.value, r.flags)
change (replaces r) = write (r.value, r.flags)
change (appends r) = append_item r.value
change (prepends r) = prepend_item r.value
change (deletes r) = erase
change (touches r) = keep

-- The errors that only say what the handler holds.
abbrev pub refusable : Write → Error → Bool
refusable (sets r) e = false
refusable (adds r) e = is_key_exists e
refusable (replaces r) e = is_key_not_found e
refusable (appends r) e = not_held e
refusable (prepends r) e = not_held e
refusable (deletes r) e = is_key_not_found e
refusable (touches r) e = is_key_not_found e

pub change-Uniform : (x : Write) → Uniform (change x)
change-Uniform (sets r) = write-Uniform (r.value, r.flags)
change-Uniform (adds r) = write-Uniform (r.value, r.flags)
change-Uniform (replaces r) = write-Uniform (r.value, r.flags)
change-Uniform (appends r) = append_item-Uniform r.value
change-Uniform (prepends r) = prepend_item-Uniform r.value
change-Uniform (deletes r) = erase-Uniform
change-Uniform (touches r) = keep-Uniform

pub below-keep : (k : Bytes) (f : View) → f ⊑ at k keep f
below-keep k f j = ground arith

module _ (h : Handler) (c : IsCache h) where
  pub call-done :
      (x : Write) (s : h.State)
      → (call h x s).0 ≡ none
      → c.view (call h x s).1 ⊑ at (key_of x) (change x) (c.view s)
  call-done (sets r) s e = c.set_ok r s e
  call-done (adds r) s e = c.add_ok r s e
  call-done (replaces r) s e = c.replace_ok r s e
  call-done (appends r) s e = c.append_ok r s e
  call-done (prepends r) s e = c.prepend_ok r s e
  call-done (deletes r) s e = c.delete_ok r s e
  call-done (touches r) s e = view_trans (c.touch_ok r s e) (below-keep r.key (c.view s))

  pub call-refused :
      (x : Write) (s : h.State)
      → refused (refusable x) (call h x s).0 ≡ true
      → c.view (call h x s).1 ⊑ c.view s
  call-refused (sets r) s e = absurd (ground arith)
  call-refused (adds r) s e = c.add_exists r s e
  call-refused (replaces r) s e = view_trans (c.replace_miss r s e) (erase-below r.key (c.view s))
  call-refused (appends r) s e = view_trans (c.append_miss r s e) (erase-below r.key (c.view s))
  call-refused (prepends r) s e = view_trans (c.prepend_miss r s e) (erase-below r.key (c.view s))
  call-refused (deletes r) s e = view_trans (c.delete_miss r s e) (erase-below r.key (c.view s))
  call-refused (touches r) s e = c.touch_miss r s e
