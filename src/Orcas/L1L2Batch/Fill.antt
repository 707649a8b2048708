-- ===== src/Orcas/L1L2Batch/Fill.antt =====
-- orcas/l1l2batch.go: whether calls put keys into L1.
use rend.Prelude.{◌≡◌, refl, ◌≢◌, inl, inr, Option, none, arith, Bytes, bytes_eq_iff}
use rend.Common.{SetRequest}
use rend.Orcas.{Handler, Responder, World}
use rend.Orcas.Caches.{Item, View, Below, ◌⊑◌, at, IsCache}
use rend.Orcas.Caches.Calls.{key_of, change}
use rend.Orcas.Writes.{Write, sets, adds, replaces, appends, prepends, deletes, touches, call}
use rend.Orcas.L1L2Batch.Outcomes.{follow}
use rend.Orcas.L1L2Batch.Levels.{Followed, follow-below, write_calls, get-Kept, gat-Kept}
use rend.Orcas.L1L2Batch.Agreement.{Run, start, wrote, refuse, touched, got, refuse-Kept}

module _ (l1 l2 : Handler) (c1 : IsCache l1) (c2 : IsCache l2) (res : Responder) where
  -- A Replace that succeeds finds an item.
  abbrev pub ReplacesHeld : Type 0
  ReplacesHeld =
      (r : SetRequest) (s : l1.State) → (l1.replace r s).0 ≡ none → c1.view s r.key ≢ none

  at-none :
      (k : Bytes) (u : Option Item → Option Item) (f g : View) (j : Bytes)
      → u none ≡ none
      → g ⊑ at k u f
      → f j ≡ none
      → g j ≡ none
  at-none k u f g j e p h = ground (arith, p j)

  Followed-none :
      (x : Write) (s : l1.State) (j : Bytes)
      → change x none ≡ none
      → Followed l1 l2 c1 c2 res (follow x) (call l1 (follow x) s).0
      → c1.view s j ≡ none
      → c1.view (call l1 (follow x) s).1 j ≡ none
  Followed-none x s j e p =
      at-none (key_of x) (change x) (c1.view s) _ j e (follow-below l1 l2 c1 c2 res x s p)

  replaced-none :
      (r : SetRequest) (s : l1.State) (j : Bytes)
      → ReplacesHeld
      → Followed l1 l2 c1 c2 res (replaces r) (l1.replace r s).0
      → c1.view s j ≡ none
      → c1.view (l1.replace r s).1 j ≡ none
  replaced-none r s j held (inl e) h =
      ground (arith, c1.replace_ok r s e j, held r s e, bytes_eq_iff r.key j)
  replaced-none r s j held (inr e) h = ground (arith, c1.replace_miss r s e j)

  follow-none :
      (x : Write) (s : l1.State) (j : Bytes)
      → ReplacesHeld
      → Followed l1 l2 c1 c2 res (follow x) (call l1 (follow x) s).0
      → c1.view s j ≡ none
      → c1.view (call l1 (follow x) s).1 j ≡ none
  follow-none (sets r) s j held p = replaced-none r s j held p
  follow-none (adds r) s j held p = replaced-none r s j held p
  follow-none (replaces r) s j held p = replaced-none r s j held p
  follow-none (appends r) s j held p = Followed-none (appends r) s j refl p
  follow-none (prepends r) s j held p = Followed-none (prepends r) s j refl p
  follow-none (deletes r) s j held p = Followed-none (deletes r) s j refl p
  follow-none (touches r) s j held p = Followed-none (touches r) s j refl p

  Below-none : {x y : Option Item} → Below x y → y ≡ none → x ≡ none
  Below-none {x} {y} p e = ground arith

  -- The batch orchestrator puts nothing into L1 that L1 does not hold: if L1's Replace succeeds only
  -- for a key that L1 holds, then a key that L1 does not hold is not there after any sequence of
  -- calls either, of the calls that keep the levels in agreement.
  pub Run-none :
      {w v : World l1.State l2.State} (j : Bytes)
      → ReplacesHeld
      → c1.view w.l1 j ≡ none
      → Run l1 l2 c1 c2 res w v
      → c1.view v.l1 j ≡ none
  Run-none j held h start = h
  Run-none j held h (wrote {v} x run ok) =
      let (p, q, e1, e2) = write_calls l1 l2 c1 c2 res x v ok in
      rw e1 (follow-none x v.l1 j held q (Run-none j held h run))
  Run-none j held h (refuse {v} x run e) =
      Below-none ((refuse-Kept l1 l2 c1 c2 res x v e).0 j) (Run-none j held h run)
  Run-none j held h (touched {v} r run ok) =
      Below-none ((gat-Kept l1 l2 c1 c2 res r v ok).0 j) (Run-none j held h run)
  Run-none j held h (got {v} r run) =
      Below-none ((get-Kept l1 l2 c1 c2 res r v).0 j) (Run-none j held h run)
