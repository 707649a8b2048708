-- ===== src/Orcas/L1L2/Outcomes.antt =====
-- orcas/l1l2.go: what the methods that write one key call, return and send, in one description.
use rend.Prelude.{◌≡◌, Bool, false, List, ◌∷◌, Option, none, some, arith, if◌then◌else◌}
use rend.Common.{Error, is_key_not_found}
use rend.Protocol.{Reply}
use rend.Orcas.{Handler, Responder, World, Method}
use rend.Orcas.Caches.{not_held}
use rend.Orcas.Writes.{
  Write, sets, adds, replaces, appends, prepends, deletes, touches, call, answer,
}
use rend.Orcas.L1L2.Writes.{
  set, set_l1, add, add_l1, replace, replace_l1, append, append_l1, prepend, prepend_l1,
}
use rend.Orcas.L1L2.Keys.{delete, delete_l1, touch, touch_l1}

-- An error of L1 that only says that L1 does not hold the key, for a method that needs it to.
abbrev pub absent : Write → Error → Bool
absent (sets r) e = false
absent (adds r) e = false
absent (replaces r) e = is_key_not_found e
absent (appends r) e = not_held e
absent (prepends r) e = not_held e
absent (deletes r) e = is_key_not_found e
absent (touches r) e = is_key_not_found e

-- The error returned, the states of the two levels, and the calls on the responder.
abbrev pub Outcome : Handler → Handler → Type 0
Outcome l1 l2 = Option Error × l1.State × l2.State × List Reply

module _ (l1 l2 : Handler) (res : Responder) where
  abbrev pub perform : Write → Method l1 l2 (Option Error)
  perform (sets r) = set l1 l2 res r
  perform (adds r) = add l1 l2 res r
  perform (replaces r) = replace l1 l2 res r
  perform (appends r) = append l1 l2 res r
  perform (prepends r) = prepend l1 l2 res r
  perform (deletes r) = delete l1 l2 res r
  perform (touches r) = touch l1 l2 res r

  abbrev pub outcome : Write → World l1.State l2.State → Outcome l1 l2
  outcome c w = let (err, v) = perform c w in (err, v.l1, v.l2, v.replies)

  abbrev replied : Write → World l1.State l2.State → l1.State → l2.State → Outcome l1 l2
  replied c w s1 s2 = (res w.replies (answer c), s1, s2, answer c ∷ w.replies)

  -- L1's turn, with L2 left at `s2`.
  abbrev second :
      Write → World l1.State l2.State → l2.State → Option Error × l1.State → Outcome l1 l2
  second c w s2 (none, s1) = replied c w s1 s2
  second c w s2 (some e, s1) = if absent c e then replied c w s1 s2 else (some e, s1, s2, w.replies)

  abbrev pub first : Write → World l1.State l2.State → Option Error × l2.State → Outcome l1 l2
  first c w (some e, s2) = (some e, w.l1, s2, w.replies)
  first c w (none, s2) = second c w s2 (call l1 c w.l1)

  -- Set, Add, Replace, Append, Prepend, Delete and Touch call L2 first. If L2 fails, its error is
  -- returned, L1 is not called and nothing is sent. Otherwise L1 is called too; if L1 succeeds, or
  -- says to one of the last five methods that it does not hold the key, the one success reply is
  -- sent and the responder's result returned, and else L1's error is returned and nothing is sent.
  pub outcome-first :
      (c : Write) (w : World l1.State l2.State) → outcome c w ≡ first c w (call l2 c w.l2)
  unfolding set set_l1 add add_l1 replace replace_l1 append append_l1 prepend prepend_l1 delete
      delete_l1 touch touch_l1
  outcome-first (sets r) w = ground arith
  outcome-first (adds r) w = ground arith
  outcome-first (replaces r) w = ground arith
  outcome-first (appends r) w = ground arith
  outcome-first (prepends r) w = ground arith
  outcome-first (deletes r) w = ground arith
  outcome-first (touches r) w = ground arith
