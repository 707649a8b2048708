-- ===== src/Orcas/L1L2/Agreement.antt =====
-- orcas/l1l2.go: whether the two levels agree after sequences of calls.
use rend.Prelude.{◌≡◌, Bool, true, false, Option, none, arith}
use rend.Common.{
  Error, is_key_not_found, is_key_exists, SetRequest, GetRequest, DeleteRequest, TouchRequest,
  GatRequest,
}
use rend.Orcas.{Handler, Responder, World, Method}
use rend.Orcas.Caches.{◌⊑◌, IsCache, refused, not_held, view_trans, view_refl, erase-below}
use rend.Orcas.Caches.Agreeing.{
  AgreeIn, Agree-below, write-Uniform, erase-Uniform, append_item-Uniform, prepend_item-Uniform,
  Agree-at,
}
use rend.Orcas.L1L2.Writes.{set, add, replace, append, prepend}
use rend.Orcas.L1L2.Keys.{delete, touch, gat}
use rend.Orcas.L1L2.Reads.{get}
use rend.Orcas.L1L2.Levels.{
  set-Both, add-Both, replace-Both, append-Both, prepend-Both, delete-Both, touch-keeps,
}
use rend.Orcas.L1L2.Gat.{gat-Agree}
use rend.Orcas.L1L2.Fill.{get-Agree}

-- A call of a method that changes a level.
pub data Call : Type 0 where
  sets adds replaces appends prepends : SetRequest → Call
  deletes : DeleteRequest → Call
  touches : TouchRequest → Call
  gats : GatRequest → Call
  gets : GetRequest → Call

module _ (l1 l2 : Handler) (c1 : IsCache l1) (c2 : IsCache l2) (res : Responder) where
  abbrev pub perform : Call → Method l1 l2 (Option Error)
  perform (sets r) = set l1 l2 res r
  perform (adds r) = add l1 l2 res r
  perform (replaces r) = replace l1 l2 res r
  perform (appends r) = append l1 l2 res r
  perform (prepends r) = prepend l1 l2 res r
  perform (deletes r) = delete l1 l2 res r
  perform (touches r) = touch l1 l2 res r
  perform (gats r) = gat l1 l2 res r
  perform (gets r) = get l1 l2 res r

  -- L2 refuses the call for what it holds.
  abbrev pub refusal : Call → l2.State → Bool
  refusal (adds r) s = refused is_key_exists (l2.add r s).0
  refusal (replaces r) s = refused is_key_not_found (l2.replace r s).0
  refusal (appends r) s = refused not_held (l2.append r s).0
  refusal (prepends r) s = refused not_held (l2.prepend r s).0
  refusal (deletes r) s = refused is_key_not_found (l2.delete r s).0
  refusal (touches r) s = refused is_key_not_found (l2.touch r s).0
  refusal _ s = false

  -- L1 is as before, and L2 as its call left it.
  abbrev Called : World l1.State l2.State → World l1.State l2.State → l2.State → Type 0
  Called w w' s = (w'.l1 ≡ w.l1) × (w'.l2 ≡ s)

  add-refusal :
      (r : SetRequest) (w : World l1.State l2.State)
      → refused is_key_exists (l2.add r w.l2).0 ≡ true
      → Called w (add l1 l2 res r w).1 (l2.add r w.l2).1
  unfolding add
  add-refusal r w e = ground arith

  replace-refusal :
      (r : SetRequest) (w : World l1.State l2.State)
      → refused is_key_not_found (l2.replace r w.l2).0 ≡ true
      → Called w (replace l1 l2 res r w).1 (l2.replace r w.l2).1
  unfolding replace
  replace-refusal r w e = ground arith

  append-refusal :
      (r : SetRequest) (w : World l1.State l2.State)
      → refused not_held (l2.append r w.l2).0 ≡ true
      → Called w (append l1 l2 res r w).1 (l2.append r w.l2).1
  unfolding append
  append-refusal r w e = ground arith

  prepend-refusal :
      (r : SetRequest) (w : World l1.State l2.State)
      → refused not_held (l2.prepend r w.l2).0 ≡ true
      → Called w (prepend l1 l2 res r w).1 (l2.prepend r w.l2).1
  unfolding prepend
  prepend-refusal r w e = ground arith

  delete-refusal :
      (r : DeleteRequest) (w : World l1.State l2.State)
      → refused is_key_not_found (l2.delete r w.l2).0 ≡ true
      → Called w (delete l1 l2 res r w).1 (l2.delete r w.l2).1
  unfolding delete
  delete-refusal r w e = ground arith

  touch-refusal :
      (r : TouchRequest) (w : World l1.State l2.State)
      → refused is_key_not_found (l2.touch r w.l2).0 ≡ true
      → Called w (touch l1 l2 res r w).1 (l2.touch r w.l2).1
  unfolding touch
  touch-refusal r w e = ground arith

  Called-Agree :
      (w w' : World l1.State l2.State) (s : l2.State)
      → AgreeIn c1 c2 w
      → Called w w' s
      → c2.view s ⊑ c2.view w.l2
      → AgreeIn c1 c2 w'
  Called-Agree w w' s a (e1, e2) p = rw (e1, e2) (Agree-below a (view_refl _) p)

  refusal-Agree :
      (c : Call) (w : World l1.State l2.State)
      → AgreeIn c1 c2 w
      → refusal c w.l2 ≡ true
      → AgreeIn c1 c2 (perform c w).1
  refusal-Agree (sets r) w a e = absurd (ground arith)
  refusal-Agree (adds r) w a e =
      Called-Agree w (perform (adds r) w).1 _ a (add-refusal r w e) (c2.add_exists r w.l2 e)
  refusal-Agree (replaces r) w a e =
      Called-Agree w (perform (replaces r) w).1 _ a (replace-refusal r w e)
        (view_trans (c2.replace_miss r w.l2 e) (erase-below _ _))
  refusal-Agree (appends r) w a e =
      Called-Agree w (perform (appends r) w).1 _ a (append-refusal r w e)
        (view_trans (c2.append_miss r w.l2 e) (erase-below _ _))
  refusal-Agree (prepends r) w a e =
      Called-Agree w (perform (prepends r) w).1 _ a (prepend-refusal r w e)
        (view_trans (c2.prepend_miss r w.l2 e) (erase-below _ _))
  refusal-Agree (deletes r) w a e =
      Called-Agree w (perform (deletes r) w).1 _ a (delete-refusal r w e)
        (view_trans (c2.delete_miss r w.l2 e) (erase-below _ _))
  refusal-Agree (touches r) w a e =
      Called-Agree w (perform (touches r) w).1 _ a (touch-refusal r w e) (c2.touch_miss r w.l2 e)
  refusal-Agree (gats r) w a e = absurd (ground arith)
  refusal-Agree (gets r) w a e = absurd (ground arith)

  success-Agree :
      (c : Call) (w : World l1.State l2.State)
      → AgreeIn c1 c2 w
      → (perform c w).0 ≡ none
      → AgreeIn c1 c2 (perform c w).1
  success-Agree (sets r) w a ok =
      let (p, q) = set-Both l1 l2 c1 c2 res r w ok in
      Agree-below (Agree-at r.key _ (write-Uniform (r.value, r.flags)) a) p q
  success-Agree (adds r) w a ok =
      let (p, q) = add-Both l1 l2 c1 c2 res r w ok in
      Agree-below (Agree-at r.key _ (write-Uniform (r.value, r.flags)) a) p q
  success-Agree (replaces r) w a ok =
      let (p, q) = replace-Both l1 l2 c1 c2 res r w ok in
      Agree-below (Agree-at r.key _ (write-Uniform (r.value, r.flags)) a) p q
  success-Agree (appends r) w a ok =
      let (p, q) = append-Both l1 l2 c1 c2 res r w ok in
      Agree-below (Agree-at r.key _ (append_item-Uniform r.value) a) p q
  success-Agree (prepends r) w a ok =
      let (p, q) = prepend-Both l1 l2 c1 c2 res r w ok in
      Agree-below (Agree-at r.key _ (prepend_item-Uniform r.value) a) p q
  success-Agree (deletes r) w a ok =
      let (p, q) = delete-Both l1 l2 c1 c2 res r w ok in
      Agree-below (Agree-at r.key _ erase-Uniform a) p q
  success-Agree (touches r) w a ok =
      let (p, q) = touch-keeps l1 l2 c1 c2 res r w ok in Agree-below a p q
  success-Agree (gats r) w a ok = gat-Agree l1 l2 c1 c2 res r w a ok
  success-Agree (gets r) w a ok = get-Agree l1 l2 c1 c2 res r w a ok

  -- The states that calls lead to which succeed, or which L2 refuses.
  pub data Run (w : World l1.State l2.State) : World l1.State l2.State → Type 0 where
    start : Run w w
    success :
        {v : World l1.State l2.State} (c : Call)
        → Run w v
        → (perform c v).0 ≡ none
        → Run w (perform c v).1
    refuse :
        {v : World l1.State l2.State} (c : Call)
        → Run w v
        → refusal c v.l2 ≡ true
        → Run w (perform c v).1

  -- From a state in which no key has different items in L1 and L2, every sequence of calls of Set,
  -- Add, Replace, Append, Prepend, Delete, Touch, GAT and Get, each of which returns nil or is
  -- refused by L2 for what L2 holds, leads to such a state. The handlers may drop items at any time,
  -- and keep the laws of `IsCache`.
  pub Run-Agree : {w v : World l1.State l2.State} → AgreeIn c1 c2 w → Run w v → AgreeIn c1 c2 v
  Run-Agree a start = a
  Run-Agree a (success {v} c run ok) = success-Agree c v (Run-Agree a run) ok
  Run-Agree a (refuse {v} c run e) = refusal-Agree c v (Run-Agree a run) e
