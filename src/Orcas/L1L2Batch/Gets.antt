-- ===== src/Orcas/L1L2Batch/Gets.antt =====
-- orcas/l1l2batch.go: what Get calls, returns and sends.
use rend.Prelude.{◌≡◌, refl, ap, ◌∙◌, List, [], ◌∷◌, Option, none, some, if◌then◌else◌, Bytes}
use rend.Common.{Error, GetRequest, GetResponse}
use rend.Protocol.{Reply}
use rend.Orcas.{Event, received, failed, Handler, Responder, World}
use rend.Orcas.Branches.{if_holds}
use rend.Orcas.L1Only.Batches.{sent, last_error}
use rend.Orcas.L1L2.Reads.{l1_loop, with_miss, no_keys}
use rend.Orcas.L1L2.Outcomes.{Outcome}
use rend.Orcas.L1L2Batch.Reads.{l2_loop, get_end, query_l2, get_l2, get}
use rend.Orcas.L1L2Batch.Outcomes.{outcome_of}

-- The request for L2, which has the misses among the events of L1, and the replies to the hits.
abbrev pub misses : List (Event GetResponse) → GetRequest → GetRequest
misses [] req = req
misses (received r ∷ events) req = misses events (if r.miss then with_miss req r else req)
misses (failed e ∷ events) req = misses events req

abbrev pub hits : List (Event GetResponse) → List Reply → List Reply
hits [] replies = replies
hits (received r ∷ events) replies = hits events (if r.miss then replies else Reply.get r ∷ replies)
hits (failed e ∷ events) replies = hits events replies

module _ (l1 l2 : Handler) (res : Responder) where
  -- The world with the replies `replies`, as far as an outcome tells.
  abbrev pub ended : GetRequest → Option Error → l1.State → l2.State → List Reply → Outcome l1 l2
  ended req (some e) s1 s2 replies = (some e, s1, s2, replies)
  ended req none s1 s2 replies =
      let r = Reply.get_end req.noop_opaque req.noop_end in (res replies r, s1, s2, r ∷ replies)

  -- The rest of a Get, with the request for L2, the error of L1 and the replies so far.
  abbrev pub asked_l2 :
      List Bytes → GetRequest → Option Error → l1.State → l2.State → List Reply → Outcome l1 l2
  asked_l2 [] req err s1 s2 replies = ended req err s1 s2 replies
  asked_l2 (k ∷ keys) req err s1 s2 replies =
      let (events, s2') = l2.get req s2 in
      ended req (last_error events err) s1 s2' (sent Reply.get events replies)

  -- What the loop over L1's channels leaves, from the world `w`.
  abbrev pub Looped :
      List (Event GetResponse)
      → GetRequest
      → Option Error
      → World l1.State l2.State
      → (GetRequest × Option Error) × World l1.State l2.State
      → Type 0
  Looped events req err w out =
      (out.0 ≡ (misses events req, last_error events err))
      × (outcome_of l1 l2 res (none, out.1) ≡ (none, w.l1, w.l2, hits events w.replies))

  pub l1_loop-Looped :
      (events : List (Event GetResponse)) (req : GetRequest) (err : Option Error)
      (w : World l1.State l2.State)
      → Looped events req err w (l1_loop l1 l2 res events req err w)
  unfolding l1_loop
  l1_loop-Looped [] req err w = (refl, refl)
  l1_loop-Looped (received r ∷ events) req err w =
      if_holds (Looped (received r ∷ events) req err w) r.miss _ _ w
        (λ m. rw m (l1_loop-Looped events (with_miss req r) err _))
        (λ m. rw m (l1_loop-Looped events req err _))
  l1_loop-Looped (failed e ∷ events) req err w = l1_loop-Looped events req (some e) _

  -- The same for L2's channels.
  abbrev Told :
      List (Event GetResponse)
      → Option Error
      → World l1.State l2.State
      → Option Error × World l1.State l2.State
      → Type 0
  Told events err w out =
      outcome_of l1 l2 res out
      ≡ (last_error events err, w.l1, w.l2, sent Reply.get events w.replies)

  l2_loop-Told :
      (events : List (Event GetResponse)) (err : Option Error) (w : World l1.State l2.State)
      → Told events err w (l2_loop l1 l2 res events err w)
  unfolding l2_loop
  l2_loop-Told [] err w = refl
  l2_loop-Told (received r ∷ events) err w =
      if_holds (Told (received r ∷ events) err w) r.miss _ _ w (λ m. l2_loop-Told events err _)
        (λ m. l2_loop-Told events err _)
  l2_loop-Told (failed e ∷ events) err w = l2_loop-Told events (some e) _

  get_end-ended :
      (req : GetRequest) (err : Option Error) (w : World l1.State l2.State)
      → outcome_of l1 l2 res (get_end l1 l2 res req err w) ≡ ended req err w.l1 w.l2 w.replies
  unfolding get_end
  get_end-ended req none w = refl
  get_end-ended req (some e) w = refl

  query_l2-outcome :
      (req : GetRequest) (err : Option Error) (w : World l1.State l2.State)
      → outcome_of l1 l2 res (query_l2 l1 l2 res req err w) ≡ (
          let (events, s2) = l2.get req w.l2 in
          ended req (last_error events err) w.l1 s2 (sent Reply.get events w.replies))
  unfolding query_l2
  query_l2-outcome req err w =
      get_end-ended req _ _
      ∙ ap (λ (o : Outcome l1 l2). ended req o.0 o.1 o.2 o.3)
          (l2_loop-Told (l2.get req w.l2).0 err _)

  get_l2-keys :
      (k : Bytes) (keys : List Bytes) (req : GetRequest) (err : Option Error)
      (w : World l1.State l2.State)
      → req.keys ≡ k ∷ keys
      → get_l2 l1 l2 res req err w ≡ query_l2 l1 l2 res req err w
  unfolding get_l2
  get_l2-keys k keys req err w e = rw e refl

  get_l2-outcome :
      (keys : List Bytes) (req : GetRequest) (err : Option Error) (w : World l1.State l2.State)
      → req.keys ≡ keys
      → outcome_of l1 l2 res (get_l2 l1 l2 res req err w)
        ≡ asked_l2 keys req err w.l1 w.l2 w.replies
  unfolding get_l2
  get_l2-outcome [] req err w e = rw e (get_end-ended req err w)
  get_l2-outcome (k ∷ keys) req err w e =
      ap (outcome_of l1 l2 res) (get_l2-keys k keys req err w e) ∙ query_l2-outcome req err w

  abbrev pub gathered : GetRequest → World l1.State l2.State → Outcome l1 l2
  gathered req w =
      let (events, s1) = l1.get req w.l1 in
      let req' = misses events (no_keys req) in
      asked_l2 req'.keys req' (last_error events none) s1 w.l2 (hits events w.replies)

  -- The rest of a Get from what its first loop leaves.
  abbrev resume : GetRequest × Option Error → Outcome l1 l2 → Outcome l1 l2
  resume a o = asked_l2 a.0.keys a.0 a.1 o.1 o.2 o.3

  get_l2-resumed :
      {a' : GetRequest × Option Error} {o : Outcome l1 l2} (a : GetRequest × Option Error)
      (v : World l1.State l2.State)
      → a ≡ a'
      → outcome_of l1 l2 res (none, v) ≡ o
      → outcome_of l1 l2 res (get_l2 l1 l2 res a.0 a.1 v) ≡ resume a' o
  get_l2-resumed {a'} a v e f =
      get_l2-outcome _ a.0 a.1 v refl
      ∙ ap (λ x. resume x (outcome_of l1 l2 res (none, v))) e
      ∙ ap (resume a') f

  pub get-gathered :
      (req : GetRequest) (w : World l1.State l2.State)
      → outcome_of l1 l2 res (get l1 l2 res req w) ≡ gathered req w
  unfolding get
  get-gathered req w =
      let (e, f) = l1_loop-Looped (l1.get req w.l1).0 (no_keys req) none _ in get_l2-resumed _ _ e f
