-- ===== src/Orcas/L1L2/Errors.antt =====
-- orcas/l1l2.go: what Get makes of errors that a hit of L2 follows.
use rend.Prelude.{
  ◌≡◌, refl, ap, ◌∙◌, true, false, List, [], ◌∷◌, ◌++◌, Option, none, some, arith, subst, sym,
  Bytes,
}
use rend.Common.{Error, GetEResponse, GetRequest, SetRequest}
use rend.Protocol.{Reply}
use rend.Orcas.{Event, received, failed, Handler, Responder, World, Method}
use rend.Orcas.Branches.{if_holds, error_holds}
use rend.Orcas.L1Only.Batches.{sent}
use rend.Orcas.L1L2.Outcomes.{Outcome}
use rend.Orcas.L1L2.Query.{get_l2-keys}
use rend.Orcas.L1L2.Reads.{
  l2_loop, l2_hit, Loop, finished, refill, get_response, no_keys, loop_end, get_end, query_l2,
  get_l2, get,
}
use rend.Orcas.L1L2Batch.Gets.{misses, hits, l1_loop-Looped}
use rend.Orcas.L1L2Batch.Outcomes.{outcome_of}

module _ (l1 l2 : Handler) (res : Responder) where
  -- Every event is a miss.
  abbrev pub Misses : List (Event GetEResponse) → Type 0
  Misses [] = Unit
  Misses (received r ∷ events) = (r.miss ≡ true) × Misses events
  Misses (failed e ∷ events) = ⊥

  -- The client's replies to L2's events, before the ones it had.
  abbrev pub told : List (Event GetEResponse) → List Reply → List Reply
  told events replies = sent (λ r. Reply.get (get_response r)) events replies

  -- L1 takes what it is given.
  abbrev pub Stores : Type 0
  Stores = (q : SetRequest) (s : l1.State) → (l1.set q s).0 ≡ none

  -- A loop that has run to its end without an error, and told the client of all events.
  abbrev Clean : List (Event GetEResponse) → List Reply → Loop × World l1.State l2.State → Type 0
  Clean events replies out = (out.0 ≡ finished none) × (out.1.replies ≡ told events replies)

  Misses-Clean :
      (events : List (Event GetEResponse)) (w : World l1.State l2.State)
      → Misses events
      → Clean events w.replies (l2_loop l1 l2 res events none w)
  unfolding l2_loop
  Misses-Clean [] w m = (refl, refl)
  Misses-Clean (received r ∷ events) w (e, m) = rw e (Misses-Clean events _ m)
  Misses-Clean (failed x ∷ events) w m = absurd m

  hit-Clean :
      (r : GetEResponse) (events : List (Event GetEResponse)) (rest : Method l1 l2 Loop)
      (w : World l1.State l2.State)
      → Stores
      → ((w' : World l1.State l2.State) → Clean events w'.replies (rest w'))
      → Clean (received r ∷ events) w.replies (l2_hit l1 l2 res r rest w)
  unfolding l2_hit
  hit-Clean r events rest w stores next =
      error_holds (Clean (received r ∷ events) w.replies) (l1.set (refill r) w.l1).0 _ _ _
        (λ ok. next _) (λ e f. absurd (ground (arith, stores (refill r) w.l1)))

  hit_last-Clean :
      (before after : List (Event GetEResponse)) (r : GetEResponse) (err : Option Error)
      (w : World l1.State l2.State)
      → Stores
      → r.miss ≡ false
      → Misses after
      → let events = before ++ (received r ∷ after) in
        Clean events w.replies (l2_loop l1 l2 res events err w)
  unfolding l2_loop
  hit_last-Clean [] after r err w stores hit m =
      if_holds (Clean (received r ∷ after) w.replies) r.miss _ _ w (λ p. absurd (ground arith))
        (λ _.
          hit-Clean r after (l2_loop l1 l2 res after none) w stores (λ w'. Misses-Clean after w' m))
  hit_last-Clean (received x ∷ before) after r err w stores hit m =
      let events = before ++ (received r ∷ after) in
      if_holds (Clean (received x ∷ events) w.replies) x.miss _ _ w
        (λ _. hit_last-Clean before after r err _ stores hit m)
        (λ _.
          hit-Clean x events (l2_loop l1 l2 res events none) w stores
            (λ w'. hit_last-Clean before after r none w' stores hit m))
  hit_last-Clean (failed x ∷ before) after r err w stores hit m =
      hit_last-Clean before after r (some x) _ stores hit m

  -- GetEnd is sent behind the replies, and its error returned.
  abbrev pub Ends : GetRequest → List Reply → Option Error × World l1.State l2.State → Type 0
  Ends req replies out =
      let last = Reply.get_end req.noop_opaque req.noop_end in
      (out.0 ≡ res replies last) × (out.1.replies ≡ last ∷ replies)

  loop_end-Ends :
      (req : GetRequest) (events : List (Event GetEResponse)) (replies : List Reply)
      (out : Loop × World l1.State l2.State)
      → Clean events replies out
      → Ends req (told events replies) (loop_end l1 l2 res req out.0 out.1)
  unfolding loop_end get_end
  loop_end-Ends req events replies (out, w) (e, f) = rw (e, f) (refl, refl)

  query_l2-Ends :
      (req : GetRequest) (err : Option Error) (w : World l1.State l2.State)
      (before after : List (Event GetEResponse)) (r : GetEResponse)
      → (l2.get_e req w.l2).0 ≡ before ++ (received r ∷ after)
      → r.miss ≡ false
      → Misses after
      → Stores
      → Ends req (told (before ++ (received r ∷ after)) w.replies) (query_l2 l1 l2 res req err w)
  unfolding query_l2
  query_l2-Ends req err w before after r e hit m stores = rw e (
      loop_end-Ends req (before ++ (received r ∷ after)) w.replies _
        (hit_last-Clean before after r err _ stores hit m))

  get_l2-Ends :
      {o : Outcome l1 l2} (a a' : GetRequest × Option Error) (v : World l1.State l2.State)
      (k : Bytes) (keys : List Bytes) (before after : List (Event GetEResponse)) (r : GetEResponse)
      → a ≡ a'
      → outcome_of l1 l2 res (none, v) ≡ o
      → a'.0.keys ≡ k ∷ keys
      → (l2.get_e a'.0 o.2).0 ≡ before ++ (received r ∷ after)
      → r.miss ≡ false
      → Misses after
      → Stores
      → Ends a'.0 (told (before ++ (received r ∷ after)) o.3) (get_l2 l1 l2 res a.0 a.1 v)
  get_l2-Ends a a' v k keys before after r ea eo ek e hit m stores =
      let all = told (before ++ (received r ∷ after)) in
      let out = get_l2 l1 l2 res a.0 a.1 v in
      let c : Ends a.0 (all v.replies) out =
        subst (Ends a.0 (all v.replies))
          (sym (get_l2-keys l1 l2 res k keys a.0 a.1 v (ap (λ x. x.0.keys) ea ∙ ek)))
          (query_l2-Ends a.0 a.1 v before after r
            (ap (λ x. (l2.get_e x.0 v.l2).0) ea ∙ ap (λ x. (l2.get_e a'.0 x.2).0) eo ∙ e) hit m
            stores) in
      subst (λ x. Ends a'.0 (all x.3) out) eo (subst (λ x. Ends x.0 (all v.replies) out) ea c)

  -- Get forgets the errors before a hit of L2. Let L1 answer the request with any events, errors
  -- among them, and miss some key; let L2 answer the request that the misses make with any events,
  -- errors among them, then a hit and then misses; and let L1 store what it is given. Then Get sends
  -- the hits of L1 and all that L2 has answered, and behind them GetEnd, whose result it returns: the
  -- client hears of no error, and the keys that failed are not answered.
  pub get-forgets :
      (req : GetRequest) (w : World l1.State l2.State) (k : Bytes) (keys : List Bytes)
      (before after : List (Event GetEResponse)) (r : GetEResponse)
      → (misses (l1.get req w.l1).0 (no_keys req)).keys ≡ k ∷ keys
      → (l2.get_e (misses (l1.get req w.l1).0 (no_keys req)) w.l2).0
        ≡ before ++ (received r ∷ after)
      → r.miss ≡ false
      → Misses after
      → Stores
      → Ends
          (misses (l1.get req w.l1).0 (no_keys req))
          (told (before ++ (received r ∷ after)) (hits (l1.get req w.l1).0 w.replies))
          (get l1 l2 res req w)
  unfolding get
  get-forgets req w k keys before after r ek e hit m stores =
      let (ea, eo) = l1_loop-Looped l1 l2 res (l1.get req w.l1).0 (no_keys req) none _ in
      get_l2-Ends _ _ _ k keys before after r ea eo ek e hit m stores
