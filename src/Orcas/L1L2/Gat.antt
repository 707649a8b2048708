-- ===== src/Orcas/L1L2/Gat.antt =====
-- orcas/l1l2.go: whether the two levels agree after GAT.
use rend.Prelude.{◌≡◌, ◌⊎◌, inl, inr, true, false, none, arith}
use rend.Common.{is_key_exists, GatRequest}
use rend.Orcas.{Handler, Responder, World}
use rend.Orcas.Caches.{IsCache, refused, view_trans, Below-served}
use rend.Orcas.L1L2.Keys.{copy_request, touch_request, gat, gat_add, gat_l2, gat_touch}
use rend.Orcas.Caches.Agreeing.{Agree, Agree-below, Agree-copy, AgreeIn}

module _ (l1 l2 : Handler) (c1 : IsCache l1) (c2 : IsCache l2) (res : Responder) where
  -- What a GAT that returns no error has called: L1's GAT, and then the Touch of L2, or L2's GAT,
  -- after a hit of which comes an Add in L1.
  abbrev Added : GatRequest → World l1.State l2.State → l1.State → Type 0
  Added r w s =
      let added = l1.add (copy_request r (l2.gat r w.l2).0.0) (l1.gat r w.l1).1 in
      ((l2.gat r w.l2).0.0.miss ≡ false)
      × (s ≡ added.1)
      × ((added.0 ≡ none) ⊎ (refused is_key_exists added.0 ≡ true))

  gat_calls :
      (r : GatRequest) (w : World l1.State l2.State)
      → (gat l1 l2 res r w).0 ≡ none
      → ((l1.gat r w.l1).0.1 ≡ none)
        × ((((l2.touch (touch_request r) w.l2).0 ≡ none)
              × ((gat l1 l2 res r w).1.l1 ≡ (l1.gat r w.l1).1)
              × ((gat l1 l2 res r w).1.l2 ≡ (l2.touch (touch_request r) w.l2).1))
            ⊎ (((l2.gat r w.l2).0.1 ≡ none)
                × ((gat l1 l2 res r w).1.l2 ≡ (l2.gat r w.l2).1)
                × (((gat l1 l2 res r w).1.l1 ≡ (l1.gat r w.l1).1)
                    ⊎ Added r w (gat l1 l2 res r w).1.l1)))
  unfolding gat gat_l2 gat_touch gat_add
  gat_calls r w ok = ground arith

  Added-Agree :
      (r : GatRequest) (w : World l1.State l2.State) (s : l1.State)
      → AgreeIn c1 c2 w
      → (l1.gat r w.l1).0.1 ≡ none
      → (l2.gat r w.l2).0.1 ≡ none
      → Added r w s
      → Agree (c1.view s) (c2.view (l2.gat r w.l2).1)
  Added-Agree r w s a p q (hit, e, inl ok) = rw e (
      Agree-copy r.key _ (Agree-below a (c1.gat_keeps r w.l1 p) (c2.gat_keeps r w.l2 q))
        (c1.add_ok _ _ ok) (Below-served (c2.gat_keeps r w.l2 q) (c2.gat_serves r w.l2 q hit)))
  Added-Agree r w s a p q (hit, e, inr ex) = rw e (
      Agree-below a (view_trans (c1.add_exists _ _ ex) (c1.gat_keeps r w.l1 p))
        (c2.gat_keeps r w.l2 q))

  pub gat-Agree :
      (r : GatRequest) (w : World l1.State l2.State)
      → AgreeIn c1 c2 w
      → (gat l1 l2 res r w).0 ≡ none
      → AgreeIn c1 c2 (gat l1 l2 res r w).1
  gat-Agree r w a ok =
      let (p, rest) = gat_calls r w ok in
      elim rest [
        | inl (t, e1, e2) ↦ rw (e1, e2) (Agree-below a (c1.gat_keeps r w.l1 p) (c2.touch_ok _ _ t))
        | inr (q, e2, e) ↦ rw e2 (elim e [
          | inl e1 ↦ rw e1 (Agree-below a (c1.gat_keeps r w.l1 p) (c2.gat_keeps r w.l2 q))
          | inr added ↦ Added-Agree r w _ a p q added
        ])
      ]
