-- ===== src/Orcas/L1Only/Outcomes.antt =====
-- orcas/l1only.go: what the methods that write one key return and send.
use rend.Prelude.{◌≡◌, ◌∷◌, Option, none, some, arith}
use rend.Common.{Error}
use rend.Orcas.{Handler, Responder, World, Method}
use rend.Orcas.Writes.{
  Write, sets, adds, replaces, appends, prepends, deletes, touches, call, answer,
}
use rend.Orcas.L1Only.{set, add, replace, append, prepend, delete, touch}
use rend.Orcas.L1Only.Batches.{Outcome, outcome}

-- What is returned of the responder's result.
abbrev pub result : Write → Option Error → Option Error
result (deletes r) e = none
result (touches r) e = none
result _ e = e

module _ (l1 l2 : Handler) (res : Responder) where
  abbrev pub perform : Write → Method l1 l2 (Option Error)
  perform (sets r) = set l1 l2 res r
  perform (adds r) = add l1 l2 res r
  perform (replaces r) = replace l1 l2 res r
  perform (appends r) = append l1 l2 res r
  perform (prepends r) = prepend l1 l2 res r
  perform (deletes r) = delete l1 l2 res r
  perform (touches r) = touch l1 l2 res r

  abbrev pub expected : Write → World l1.State l2.State → Option Error × l1.State → Outcome l1.State
  expected c w (some e, s) = (some e, s, w.replies)
  expected c w (none, s) = (result c (res w.replies (answer c)), s, answer c ∷ w.replies)

  -- Set, Add, Replace, Append, Prepend, Delete and Touch call the handler's method of that name. Its
  -- error is returned, and nothing is sent; if it succeeds, the one success reply is sent, and
  -- Delete and Touch return nil, and the others the responder's result.
  pub outcome-expected :
      (c : Write) (w : World l1.State l2.State)
      → outcome (perform c w) ≡ expected c w (call l1 c w.l1)
  unfolding set add replace append prepend delete touch
  outcome-expected (sets r) w = ground arith
  outcome-expected (adds r) w = ground arith
  outcome-expected (replaces r) w = ground arith
  outcome-expected (appends r) w = ground arith
  outcome-expected (prepends r) w = ground arith
  outcome-expected (deletes r) w = ground arith
  outcome-expected (touches r) w = ground arith
