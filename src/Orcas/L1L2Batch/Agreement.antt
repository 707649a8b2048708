-- ===== src/Orcas/L1L2Batch/Agreement.antt =====
-- orcas/l1l2batch.go: what sequences of calls do to the two levels.
use rend.Prelude.{◌≡◌, true, none, arith}
use rend.Common.{GetRequest, GatRequest}
use rend.Orcas.{Handler, Responder, World}
use rend.Orcas.Caches.{IsCache, refused, view_refl}
use rend.Orcas.Caches.Agreeing.{AgreeIn, Agree-below, Agree-at}
use rend.Orcas.Caches.Calls.{key_of, change, refusable, change-Uniform, call-done, call-refused}
use rend.Orcas.Writes.{Write, call}
use rend.Orcas.L1L2Batch.Outcomes.{perform, outcome-follow}
use rend.Orcas.L1L2Batch.Keys.{gat}
use rend.Orcas.L1L2Batch.Reads.{get}
use rend.Orcas.L1L2Batch.Levels.{Kept, follow-below, write_calls, get-Kept, gat-Kept}

module _ (l1 l2 : Handler) (c1 : IsCache l1) (c2 : IsCache l2) (res : Responder) where
  -- The states that calls lead to: of writes and GATs which return nil, of writes which L2 refuses
  -- for what it holds, and of Gets, whatever they return.
  pub data Run (w : World l1.State l2.State) : World l1.State l2.State → Type 0 where
    start : Run w w
    wrote :
        {v : World l1.State l2.State} (x : Write)
        → Run w v
        → (perform l1 l2 res x v).0 ≡ none
        → Run w (perform l1 l2 res x v).1
    refuse :
        {v : World l1.State l2.State} (x : Write)
        → Run w v
        → refused (refusable x) (call l2 x v.l2).0 ≡ true
        → Run w (perform l1 l2 res x v).1
    touched :
        {v : World l1.State l2.State} (r : GatRequest)
        → Run w v
        → (gat l1 l2 res r v).0 ≡ none
        → Run w (gat l1 l2 res r v).1
    got : {v : World l1.State l2.State} (r : GetRequest) → Run w v → Run w (get l1 l2 res r v).1

  wrote-Agree :
      (x : Write) (w : World l1.State l2.State)
      → AgreeIn c1 c2 w
      → (perform l1 l2 res x w).0 ≡ none
      → AgreeIn c1 c2 (perform l1 l2 res x w).1
  wrote-Agree x w a ok =
      let (p, q, e1, e2) = write_calls l1 l2 c1 c2 res x w ok in
      rw (e1, e2)
        (Agree-below (Agree-at (key_of x) (change x) (change-Uniform x) a)
          (follow-below l1 l2 c1 c2 res x w.l1 q) (call-done l2 c2 x w.l2 p))

  -- A write that L2 refuses leaves L1 alone.
  refuse_calls :
      (x : Write) (w : World l1.State l2.State)
      → refused (refusable x) (call l2 x w.l2).0 ≡ true
      → ((perform l1 l2 res x w).1.l1 ≡ w.l1) × ((perform l1 l2 res x w).1.l2 ≡ (call l2 x w.l2).1)
  refuse_calls x w e = ground (arith, outcome-follow l1 l2 res x w)

  pub refuse-Kept :
      (x : Write) (w : World l1.State l2.State)
      → refused (refusable x) (call l2 x w.l2).0 ≡ true
      → Kept l1 l2 c1 c2 res w (perform l1 l2 res x w).1
  refuse-Kept x w e =
      let (e1, e2) = refuse_calls x w e in
      rw (e1, e2) (view_refl (c1.view w.l1), call-refused l2 c2 x w.l2 e)

  -- In the batch orchestrator too: from a state in which no key has different items in L1 and L2,
  -- every sequence of calls leads to such a state, if each Set, Add, Replace, Append, Prepend, Delete
  -- and Touch in it returns nil or is refused by L2 for what L2 holds, and each GAT returns nil. A Get
  -- may fail. The handlers may drop items at any time, and keep the laws of `IsCache`.
  pub Run-AgreeIn : {w v : World l1.State l2.State} → AgreeIn c1 c2 w → Run w v → AgreeIn c1 c2 v
  Run-AgreeIn a start = a
  Run-AgreeIn a (wrote {v} x run ok) = wrote-Agree x v (Run-AgreeIn a run) ok
  Run-AgreeIn a (refuse {v} x run e) =
      let (p, q) = refuse-Kept x v e in Agree-below (Run-AgreeIn a run) p q
  Run-AgreeIn a (touched {v} r run ok) =
      let (p, q) = gat-Kept l1 l2 c1 c2 res r v ok in Agree-below (Run-AgreeIn a run) p q
  Run-AgreeIn a (got {v} r run) =
      let (p, q) = get-Kept l1 l2 c1 c2 res r v in Agree-below (Run-AgreeIn a run) p q
