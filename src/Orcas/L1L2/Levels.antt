-- ===== src/Orcas/L1L2/Levels.antt =====
-- orcas/l1l2.go: what the methods that write one key do to the two levels.
use rend.Prelude.{◌≡◌, true, Option, none, arith, Bytes}
use rend.Common.{is_key_not_found, SetRequest, DeleteRequest, TouchRequest}
use rend.Orcas.{Handler, Responder, World}
use rend.Orcas.Caches.{
  Item, ◌⊑◌, at, write, erase, append_item, prepend_item, IsCache, refused, not_held, view_trans,
  erase-at,
}
use rend.Orcas.L1L2.Writes.{
  set, set_l1, add, add_l1, replace, replace_l1, append, append_l1, prepend, prepend_l1,
}
use rend.Orcas.L1L2.Keys.{delete, delete_l1, touch, touch_l1}

module _ (l1 l2 : Handler) (c1 : IsCache l1) (c2 : IsCache l2) (res : Responder) where
  abbrev pub Both :
      Bytes
      → (Option Item → Option Item)
      → World l1.State l2.State
      → World l1.State l2.State
      → Type 0
  Both k u w w' = (c1.view w'.l1 ⊑ at k u (c1.view w.l1)) × (c2.view w'.l2 ⊑ at k u (c2.view w.l2))

  pub set-Both :
      (r : SetRequest) (w : World l1.State l2.State)
      → (set l1 l2 res r w).0 ≡ none
      → Both r.key (write (r.value, r.flags)) w (set l1 l2 res r w).1
  unfolding set set_l1
  set-Both r w ok = ground (arith, c1.set_ok r w.l1, c2.set_ok r w.l2)

  pub add-Both :
      (r : SetRequest) (w : World l1.State l2.State)
      → (add l1 l2 res r w).0 ≡ none
      → Both r.key (write (r.value, r.flags)) w (add l1 l2 res r w).1
  unfolding add add_l1
  add-Both r w ok = ground (arith, c1.add_ok r w.l1, c2.add_ok r w.l2)

  replace-miss :
      (r : SetRequest) (s : l1.State)
      → refused is_key_not_found (l1.replace r s).0 ≡ true
      → c1.view (l1.replace r s).1 ⊑ at r.key (write (r.value, r.flags)) (c1.view s)
  replace-miss r s p =
      view_trans (c1.replace_miss r s p) (erase-at r.key (write (r.value, r.flags)) (c1.view s))

  pub replace-Both :
      (r : SetRequest) (w : World l1.State l2.State)
      → (replace l1 l2 res r w).0 ≡ none
      → Both r.key (write (r.value, r.flags)) w (replace l1 l2 res r w).1
  unfolding replace replace_l1
  replace-Both r w ok =
      ground (arith, c1.replace_ok r w.l1, c2.replace_ok r w.l2, replace-miss r w.l1)

  append-miss :
      (r : SetRequest) (s : l1.State)
      → refused not_held (l1.append r s).0 ≡ true
      → c1.view (l1.append r s).1 ⊑ at r.key (append_item r.value) (c1.view s)
  append-miss r s p =
      view_trans (c1.append_miss r s p) (erase-at r.key (append_item r.value) (c1.view s))

  pub append-Both :
      (r : SetRequest) (w : World l1.State l2.State)
      → (append l1 l2 res r w).0 ≡ none
      → Both r.key (append_item r.value) w (append l1 l2 res r w).1
  unfolding append append_l1
  append-Both r w ok = ground (arith, c1.append_ok r w.l1, c2.append_ok r w.l2, append-miss r w.l1)

  prepend-miss :
      (r : SetRequest) (s : l1.State)
      → refused not_held (l1.prepend r s).0 ≡ true
      → c1.view (l1.prepend r s).1 ⊑ at r.key (prepend_item r.value) (c1.view s)
  prepend-miss r s p =
      view_trans (c1.prepend_miss r s p) (erase-at r.key (prepend_item r.value) (c1.view s))

  pub prepend-Both :
      (r : SetRequest) (w : World l1.State l2.State)
      → (prepend l1 l2 res r w).0 ≡ none
      → Both r.key (prepend_item r.value) w (prepend l1 l2 res r w).1
  unfolding prepend prepend_l1
  prepend-Both r w ok =
      ground (arith, c1.prepend_ok r w.l1, c2.prepend_ok r w.l2, prepend-miss r w.l1)

  pub delete-Both :
      (r : DeleteRequest) (w : World l1.State l2.State)
      → (delete l1 l2 res r w).0 ≡ none
      → Both r.key erase w (delete l1 l2 res r w).1
  unfolding delete delete_l1
  delete-Both r w ok =
      ground (arith, c1.delete_ok r w.l1, c2.delete_ok r w.l2, c1.delete_miss r w.l1)

  pub touch-keeps :
      (r : TouchRequest) (w : World l1.State l2.State)
      → (touch l1 l2 res r w).0 ≡ none
      → (c1.view (touch l1 l2 res r w).1.l1 ⊑ c1.view w.l1)
        × (c2.view (touch l1 l2 res r w).1.l2 ⊑ c2.view w.l2)
  unfolding touch touch_l1
  touch-keeps r w ok = ground (arith, c1.touch_ok r w.l1, c2.touch_ok r w.l2, c1.touch_miss r w.l1)
