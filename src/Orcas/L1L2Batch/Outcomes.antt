-- ===== src/Orcas/L1L2Batch/Outcomes.antt =====
-- orcas/l1l2batch.go: what the methods that write one key, and GAT, call, return and send.
use rend.Prelude.{◌≡◌, Bool, ◌∷◌, Option, none, some, arith, if◌then◌else◌}
use rend.Common.{Error, is_key_not_found, GatRequest, GetResponse}
use rend.Protocol.{Reply}
use rend.Orcas.{Handler, Responder, World, Method}
use rend.Orcas.Writes.{
  Write, sets, adds, replaces, appends, prepends, deletes, touches, call, answer,
}
use rend.Orcas.L1L2.Outcomes.{Outcome, absent}
use rend.Orcas.L1L2Batch.Writes.{
  set, set_l1, add, add_l1, replace, replace_l1, append, append_l1, prepend, prepend_l1,
}
use rend.Orcas.L1L2Batch.Keys.{delete, delete_l1, touch, touch_l1, gat, gat_touch, touch_request}

-- The call of L1 behind a write of L2: no more than a Replace for the methods that bring an item.
abbrev pub follow : Write → Write
follow (sets r) = replaces r
follow (adds r) = replaces r
follow x = x

module _ (l1 l2 : Handler) (res : Responder) where
  abbrev pub perform : Write → Method l1 l2 (Option Error)
  perform (sets r) = set l1 l2 res r
  perform (adds r) = add l1 l2 res r
  perform (replaces r) = replace l1 l2 res r
  perform (appends r) = append l1 l2 res r
  perform (prepends r) = prepend l1 l2 res r
  perform (deletes r) = delete l1 l2 res r
  perform (touches r) = touch l1 l2 res r

  abbrev pub outcome_of : Option Error × World l1.State l2.State → Outcome l1 l2
  outcome_of (err, v) = (err, v.l1, v.l2, v.replies)

  -- One reply is sent, and its error is returned.
  abbrev pub replied : Reply → World l1.State l2.State → l1.State → l2.State → Outcome l1 l2
  replied r w s1 s2 = (res w.replies r, s1, s2, r ∷ w.replies)

  -- L1's turn, with L2 left at `s2`; an error for which `p` holds makes no difference.
  abbrev pub second :
      (Error → Bool)
      → Reply
      → World l1.State l2.State
      → l2.State
      → Option Error × l1.State
      → Outcome l1 l2
  second p r w s2 (none, s1) = replied r w s1 s2
  second p r w s2 (some e, s1) = if p e then replied r w s1 s2 else (some e, s1, s2, w.replies)

  abbrev pub first : Write → World l1.State l2.State → Option Error × l2.State → Outcome l1 l2
  first x w (some e, s2) = (some e, w.l1, s2, w.replies)
  first x w (none, s2) = second (absent (follow x)) (answer x) w s2 (call l1 (follow x) w.l1)

  -- In the batch orchestrator Set, Add, Replace, Append, Prepend, Delete and Touch call L2 first. If
  -- L2 fails, its error is returned, L1 is not called and nothing is sent. Otherwise L1 is called
  -- too, with Replace for a Set or an Add; if L1 succeeds, or says that it does not hold the key, the
  -- one success reply is sent and the responder's result returned, and else L1's error is returned
  -- and nothing is sent.
  pub outcome-follow :
      (x : Write) (w : World l1.State l2.State)
      → outcome_of (perform x w) ≡ first x w (call l2 x w.l2)
  unfolding set set_l1 add add_l1 replace replace_l1 append append_l1 prepend prepend_l1 delete
      delete_l1 touch touch_l1
  outcome-follow (sets r) w = ground arith
  outcome-follow (adds r) w = ground arith
  outcome-follow (replaces r) w = ground arith
  outcome-follow (appends r) w = ground arith
  outcome-follow (prepends r) w = ground arith
  outcome-follow (deletes r) w = ground arith
  outcome-follow (touches r) w = ground arith

  -- GAT's turn of L1, and before it of L2.
  abbrev pub gat_second :
      GatRequest → GetResponse → World l1.State l2.State → l2.State → Outcome l1 l2
  gat_second req r w s2 =
      if r.miss
      then replied (Reply.gat r) w w.l1 s2
      else second is_key_not_found (Reply.gat r) w s2 (l1.touch (touch_request req) w.l1)

  abbrev pub gat_first :
      GatRequest → World l1.State l2.State → (GetResponse × Option Error) × l2.State → Outcome l1 l2
  gat_first req w ((r, some e), s2) = (some e, w.l1, s2, w.replies)
  gat_first req w ((r, none), s2) = gat_second req r w s2

  pub gat_outcome :
      (req : GatRequest) (w : World l1.State l2.State)
      → outcome_of (gat l1 l2 res req w) ≡ gat_first req w (l2.gat req w.l2)
  unfolding gat gat_touch
  gat_outcome req w = ground arith
