-- ===== src/Orcas/L1L2/Fill.antt =====
-- orcas/l1l2.go: whether the two levels agree after Get, which fills L1 from L2.
use rend.Prelude.{◌≡◌, refl, false, List, [], ◌∷◌, Option, none, some, arith, Bytes, All}
use rend.Common.{Error, GetRequest, GetResponse, GetEResponse}
use rend.Orcas.{Event, received, failed, Handler, Responder, World, Method}
use rend.Orcas.Caches.{View, ◌⊑◌, Below, IsCache, view_refl, Below-served, ServesE, OnReceived}
use rend.Orcas.L1L2.Query.{get_l2-no_keys, get_l2-keys}
use rend.Orcas.L1L2.Reads.{
  l1_loop, l2_loop, l2_hit, Loop, finished, returned, get_end, loop_end, query_l2, get_l2, get,
  refill, with_miss, no_keys,
}
use rend.Orcas.Caches.Agreeing.{Agree-below, Agree-copy, AgreeIn}
use rend.Orcas.Branches.{if_holds, error_holds, LevelsOf}

module _ (l1 l2 : Handler) (c1 : IsCache l1) (c2 : IsCache l2) (res : Responder) where
  pub l1_loop-keeps :
      (events : List (Event GetResponse)) (req : GetRequest) (err : Option Error)
      (w : World l1.State l2.State)
      → LevelsOf w (l1_loop l1 l2 res events req err w)
  unfolding l1_loop
  l1_loop-keeps [] req err w = (refl, refl)
  l1_loop-keeps (received r ∷ events) req err w =
      if_holds (LevelsOf w) r.miss _ _ w (λ e. l1_loop-keeps events (with_miss req r) err _)
        (λ e. l1_loop-keeps events req err _)
  l1_loop-keeps (failed e ∷ events) req err w = l1_loop-keeps events req (some e) _

  -- What a hit of L2 promises while the loop runs: the item, unless L2 has dropped it.
  abbrev Promises : View → Event GetEResponse → Type 0
  Promises g = OnReceived (λ r. r.miss ≡ false → Below (g r.key) (some (r.value, r.flags)))

  -- The levels agree where the loop has run to its end.
  abbrev Done : Option Error → Loop × World l1.State l2.State → Type 0
  Done out r = r.0 ≡ finished out → AgreeIn c1 c2 r.1

  l2_hit-Done :
      (r : GetEResponse) (rest : Method l1 l2 Loop) (w : World l1.State l2.State)
      (out : Option Error)
      → AgreeIn c1 c2 w
      → Below (c2.view w.l2 r.key) (some (r.value, r.flags))
      → ((w' : World l1.State l2.State) → w'.l2 ≡ w.l2 → AgreeIn c1 c2 w' → Done out (rest w'))
      → Done out (l2_hit l1 l2 res r rest w)
  unfolding l2_hit
  l2_hit-Done r rest w out a q next =
      error_holds (Done out) (l1.set (refill r) w.l1).0 _ _ _
        (λ ok. next _ refl (Agree-copy r.key _ a (c1.set_ok _ _ ok) q))
        (λ x e f. absurd (ground arith))

  l2_loop-Done :
      (events : List (Event GetEResponse)) (err : Option Error) (w : World l1.State l2.State)
      (out : Option Error)
      → AgreeIn c1 c2 w
      → All (Promises (c2.view w.l2)) events
      → Done out (l2_loop l1 l2 res events err w)
  unfolding l2_loop
  l2_loop-Done [] err w out a p = λ e. a
  l2_loop-Done (received r ∷ events) err w out a (p, ps) =
      if_holds (Done out) r.miss _ _ w (λ e. l2_loop-Done events err _ out a ps)
        (λ e.
          l2_hit-Done r (l2_loop l1 l2 res events none) w out a (p e)
            (λ w' same a'. l2_loop-Done events none w' out a' (rw same ps)))
  l2_loop-Done (failed x ∷ events) err w out a (p, ps) = l2_loop-Done events (some x) _ out a ps

  get_end-Agree :
      (req : GetRequest) (err : Option Error) (w : World l1.State l2.State)
      → AgreeIn c1 c2 w
      → AgreeIn c1 c2 (get_end l1 l2 res req err w).1
  unfolding get_end
  get_end-Agree req none w a = a
  get_end-Agree req (some e) w a = a

  loop_end-Agree :
      (req : GetRequest) (out : Loop) (w : World l1.State l2.State)
      → ((err : Option Error) → out ≡ finished err → AgreeIn c1 c2 w)
      → (loop_end l1 l2 res req out w).0 ≡ none
      → AgreeIn c1 c2 (loop_end l1 l2 res req out w).1
  unfolding loop_end
  loop_end-Agree req (returned e) w a ok = absurd (ground arith)
  loop_end-Agree req (finished err) w a ok = get_end-Agree req err w (a err refl)

  promise :
      (g g' : View)
      → g' ⊑ g
      → (events : List (Event GetEResponse)) → All (OnReceived (ServesE g)) events
      → All (Promises g') events
  promise g g' p [] ps = tt
  promise g g' p (received r ∷ events) (q, ps) =
      (λ e. Below-served p (q e), promise g g' p events ps)
  promise g g' p (failed x ∷ events) (q, ps) = (tt, promise g g' p events ps)

  query_l2-Agree :
      (req : GetRequest) (err : Option Error) (w : World l1.State l2.State)
      → AgreeIn c1 c2 w
      → (query_l2 l1 l2 res req err w).0 ≡ none
      → AgreeIn c1 c2 (query_l2 l1 l2 res req err w).1
  unfolding query_l2
  query_l2-Agree req err w a =
      let got = l2.get_e req w.l2 in
      loop_end-Agree req _ _ (λ out.
        l2_loop-Done got.0 err _ out (Agree-below a (view_refl _) (c2.get_e_keeps req w.l2))
          (promise _ _ (c2.get_e_keeps req w.l2) got.0 (c2.get_e_serves req w.l2)))

  -- `get_l2` with the keys of the request in the open.
  get_l2-Agree :
      (keys : List Bytes) (req : GetRequest) (err : Option Error) (w : World l1.State l2.State)
      → req.keys ≡ keys
      → AgreeIn c1 c2 w
      → (get_l2 l1 l2 res req err w).0 ≡ none
      → AgreeIn c1 c2 (get_l2 l1 l2 res req err w).1
  get_l2-Agree [] req err w e a =
      rw (get_l2-no_keys l1 l2 res req err w e) (λ ok. get_end-Agree req err w a)
  get_l2-Agree (k ∷ keys) req err w e a =
      rw (get_l2-keys l1 l2 res k keys req err w e) (query_l2-Agree req err w a)

  l1_loop-Agree :
      (events : List (Event GetResponse)) (req : GetRequest) (err : Option Error)
      (w : World l1.State l2.State)
      → AgreeIn c1 c2 w
      → AgreeIn c1 c2 (l1_loop l1 l2 res events req err w).1
  l1_loop-Agree events req err w a = let (e1, e2) = l1_loop-keeps events req err w in rw (e1, e2) a

  pub get-Agree :
      (req : GetRequest) (w : World l1.State l2.State)
      → AgreeIn c1 c2 w
      → (get l1 l2 res req w).0 ≡ none
      → AgreeIn c1 c2 (get l1 l2 res req w).1
  unfolding get
  get-Agree req w a = get_l2-Agree _ _ _ _ refl (
      l1_loop-Agree (l1.get req w.l1).0 (no_keys req) none _
        (Agree-below a (c1.get_keeps req w.l1) (view_refl _)))
