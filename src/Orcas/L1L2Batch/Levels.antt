-- ===== src/Orcas/L1L2Batch/Levels.antt =====
-- orcas/l1l2batch.go: what the methods do to the two levels.
use rend.Prelude.{
  ◌≡◌, refl, ap, ◌∙◌, ◌⊎◌, inl, inr, true, List, [], ◌∷◌, Option, none, some, arith, Bytes,
}
use rend.Common.{Error, GetRequest, GatRequest, TouchRequest}
use rend.Protocol.{Reply}
use rend.Orcas.{Handler, Responder, World}
use rend.Orcas.Caches.{◌⊑◌, at, IsCache, refused, view_trans, view_refl, erase-at}
use rend.Orcas.Caches.Calls.{key_of, change, below-keep, call-done}
use rend.Orcas.Writes.{Write, sets, adds, replaces, appends, prepends, deletes, touches, call}
use rend.Orcas.L1Only.Batches.{sent, last_error}
use rend.Orcas.L1L2.Reads.{no_keys}
use rend.Orcas.L1L2.Outcomes.{absent}
use rend.Orcas.L1L2Batch.Outcomes.{follow, perform, outcome-follow, gat_outcome}
use rend.Orcas.L1L2Batch.Keys.{gat, touch_request}
use rend.Orcas.L1L2Batch.Reads.{get}
use rend.Orcas.L1L2Batch.Gets.{misses, hits, ended, asked_l2, get-gathered}

module _ (l1 l2 : Handler) (c1 : IsCache l1) (c2 : IsCache l2) (res : Responder) where
  -- An error of L1 that only says that it does not hold the key.
  absent-below :
      (x : Write) (s : l1.State)
      → refused (absent x) (call l1 x s).0 ≡ true
      → c1.view (call l1 x s).1 ⊑ at (key_of x) (change x) (c1.view s)
  absent-below (sets r) s e = absurd (ground arith)
  absent-below (adds r) s e = absurd (ground arith)
  absent-below (replaces r) s e =
      view_trans (c1.replace_miss r s e) (erase-at r.key (change (replaces r)) (c1.view s))
  absent-below (appends r) s e =
      view_trans (c1.append_miss r s e) (erase-at r.key (change (appends r)) (c1.view s))
  absent-below (prepends r) s e =
      view_trans (c1.prepend_miss r s e) (erase-at r.key (change (prepends r)) (c1.view s))
  absent-below (deletes r) s e = c1.delete_miss r s e
  absent-below (touches r) s e = view_trans (c1.touch_miss r s e) (below-keep r.key (c1.view s))

  -- The call of L1 has succeeded, or said that L1 does not hold the key.
  abbrev pub Followed : Write → Option Error → Type 0
  Followed x out = (out ≡ none) ⊎ (refused (absent x) out ≡ true)

  Followed-below :
      (x : Write) (s : l1.State)
      → Followed x (call l1 x s).0
      → c1.view (call l1 x s).1 ⊑ at (key_of x) (change x) (c1.view s)
  Followed-below x s (inl e) = call-done l1 c1 x s e
  Followed-below x s (inr e) = absent-below x s e

  pub follow-below :
      (x : Write) (s : l1.State)
      → Followed (follow x) (call l1 (follow x) s).0
      → c1.view (call l1 (follow x) s).1 ⊑ at (key_of x) (change x) (c1.view s)
  follow-below (sets r) s p = Followed-below (replaces r) s p
  follow-below (adds r) s p = Followed-below (replaces r) s p
  follow-below (replaces r) s p = Followed-below (replaces r) s p
  follow-below (appends r) s p = Followed-below (appends r) s p
  follow-below (prepends r) s p = Followed-below (prepends r) s p
  follow-below (deletes r) s p = Followed-below (deletes r) s p
  follow-below (touches r) s p = Followed-below (touches r) s p

  -- The calls behind a write that has returned nil.
  pub write_calls :
      (x : Write) (w : World l1.State l2.State)
      → (perform l1 l2 res x w).0 ≡ none
      → ((call l2 x w.l2).0 ≡ none)
        × Followed (follow x) (call l1 (follow x) w.l1).0
        × ((perform l1 l2 res x w).1.l1 ≡ (call l1 (follow x) w.l1).1)
        × ((perform l1 l2 res x w).1.l2 ≡ (call l2 x w.l2).1)
  write_calls x w ok = ground (arith, outcome-follow l1 l2 res x w)

  pub gat_calls :
      (r : GatRequest) (w : World l1.State l2.State)
      → (gat l1 l2 res r w).0 ≡ none
      → ((l2.gat r w.l2).0.1 ≡ none)
        × ((gat l1 l2 res r w).1.l2 ≡ (l2.gat r w.l2).1)
        × (((gat l1 l2 res r w).1.l1 ≡ w.l1)
            ⊎ (Followed (touches (touch_request r)) (l1.touch (touch_request r) w.l1).0
                × ((gat l1 l2 res r w).1.l1 ≡ (l1.touch (touch_request r) w.l1).1)))
  gat_calls r w ok = ground (arith, gat_outcome l1 l2 res r w)

  ended-keeps :
      (req : GetRequest) (err : Option Error) (s1 : l1.State) (s2 : l2.State) (replies : List Reply)
      → ((ended l1 l2 res req err s1 s2 replies).1 ≡ s1)
        × ((ended l1 l2 res req err s1 s2 replies).2 ≡ s2)
  ended-keeps req none s1 s2 replies = (refl, refl)
  ended-keeps req (some e) s1 s2 replies = (refl, refl)

  asked_l2-keeps :
      (keys : List Bytes) (req : GetRequest) (err : Option Error) (s1 : l1.State) (s2 : l2.State)
      (replies : List Reply)
      → ((asked_l2 l1 l2 res keys req err s1 s2 replies).1 ≡ s1)
        × (c2.view (asked_l2 l1 l2 res keys req err s1 s2 replies).2 ⊑ c2.view s2)
  asked_l2-keeps [] req err s1 s2 replies =
      let (e, f) = ended-keeps req err s1 s2 replies in (e, rw f (view_refl _))
  asked_l2-keeps (k ∷ keys) req err s1 s2 replies =
      let (events, s2') = l2.get req s2 in
      let (e, f) = ended-keeps req (last_error events err) s1 s2' (sent Reply.get events replies) in
      (e, rw f (c2.get_keeps req s2))

  -- The two levels hold no more than before.
  abbrev pub Kept : World l1.State l2.State → World l1.State l2.State → Type 0
  Kept w v = (c1.view v.l1 ⊑ c1.view w.l1) × (c2.view v.l2 ⊑ c2.view w.l2)

  pub get-Kept : (req : GetRequest) (w : World l1.State l2.State) → Kept w (get l1 l2 res req w).1
  get-Kept req w =
      let (events, s1) = l1.get req w.l1 in
      let req' = misses events (no_keys req) in
      let q = get-gathered l1 l2 res req w in
      let (e, f) =
        asked_l2-keeps req'.keys req' (last_error events none) s1 w.l2 (hits events w.replies) in
      (rw (ap (λ o. o.1) q ∙ e) (c1.get_keeps req w.l1), rw (ap (λ o. o.2) q) f)

  touch-below :
      (r : TouchRequest) (s : l1.State)
      → Followed (touches r) (l1.touch r s).0
      → c1.view (l1.touch r s).1 ⊑ c1.view s
  touch-below r s (inl e) = c1.touch_ok r s e
  touch-below r s (inr e) = c1.touch_miss r s e

  pub gat-Kept :
      (r : GatRequest) (w : World l1.State l2.State)
      → (gat l1 l2 res r w).0 ≡ none
      → Kept w (gat l1 l2 res r w).1
  gat-Kept r w ok =
      let (p, e2, rest) = gat_calls r w ok in
      elim rest [
        | inl e1 ↦ rw (e1, e2) (view_refl _, c2.gat_keeps r w.l2 p)
        | inr (q, e1) ↦ rw (e1, e2) (touch-below (touch_request r) w.l1 q, c2.gat_keeps r w.l2 p)
      ]
