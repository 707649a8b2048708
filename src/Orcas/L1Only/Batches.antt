-- ===== src/Orcas/L1Only/Batches.antt =====
-- orcas/l1only.go: what Get and GetE send and return.
use rend.Prelude.{ℕ, ◌≡◌, refl, ap, ◌∙◌, List, [], ◌∷◌, map, length, Option, none, some, arith}
use rend.Common.{Error, GetRequest, GetResponse, GetEResponse}
use rend.Protocol.{Reply}
use rend.Orcas.{Event, received, failed, Handler, Responder, World}
use rend.Orcas.L1Only.{get_count, get_e_count, get_end, get_loop, get, get_e_loop, get_e}
use rend.Orcas.Inmem.{inmem}
use rend.Inmem.Live.{live}
use rend.Inmem.Answers.{response, responses, get-Answers}

-- The replies with those to the received responses in front, the last one first.
abbrev pub sent : {A : Type 0} → (A → Reply) → List (Event A) → List Reply → List Reply
sent f [] replies = replies
sent f (received r ∷ events) replies = sent f events (f r ∷ replies)
sent f (failed e ∷ events) replies = sent f events replies

-- The last error received, or the one so far.
abbrev pub last_error : {A : Type 0} → List (Event A) → Option Error → Option Error
last_error [] err = err
last_error (received r ∷ events) err = last_error events err
last_error (failed e ∷ events) err = last_error events (some e)

-- An error, the state of the handler and the replies.
abbrev pub Outcome : Type 0 → Type 0
Outcome S = Option Error × S × List Reply

abbrev pub outcome : {S1 S2 : Type 0} → Option Error × World S1 S2 → Outcome S1
outcome (err, w) = (err, w.l1, w.replies)

-- The end of a batch: GetEnd, or the error.
abbrev pub ended : {S : Type 0} → GetRequest → Option Error → S → List Reply → Outcome S
ended req none s replies = (none, s, Reply.get_end req.noop_opaque req.noop_end ∷ replies)
ended req (some e) s replies = (some e, s, replies)

module _ (l1 l2 : Handler) (res : Responder) where
  get_end-ended :
      (req : GetRequest) (err : Option Error) (w : World l1.State l2.State)
      → outcome (get_end l1 l2 res req err w) ≡ ended req err w.l1 w.replies
  unfolding get_end
  get_end-ended req none w = refl
  get_end-ended req (some e) w = refl

  get_end-outcome :
      (req : GetRequest) (m : Option Error × World l1.State l2.State) {err : Option Error}
      {s : l1.State} {replies : List Reply}
      → outcome m ≡ (err, s, replies)
      → outcome (get_end l1 l2 res req m.0 m.1) ≡ ended req err s replies
  get_end-outcome req m e = get_end-ended req m.0 m.1 ∙ ap (λ o. ended req o.0 o.1 o.2) e

  get_count-keeps :
      (r : GetResponse) (w : World l1.State l2.State)
      → ((get_count l1 l2 res r w).1.l1 ≡ w.l1) × ((get_count l1 l2 res r w).1.replies ≡ w.replies)
  unfolding get_count
  get_count-keeps r w = ground arith

  get_loop-outcome :
      (events : List (Event GetResponse)) (err : Option Error) (w : World l1.State l2.State)
      → outcome (get_loop l1 l2 res events err w)
        ≡ (last_error events err, w.l1, sent Reply.get events w.replies)
  unfolding get_loop
  get_loop-outcome [] err w = refl
  get_loop-outcome (received r ∷ events) err w =
      let (e1, e2) = get_count-keeps r w in get_loop-outcome events err _ ∙ rw (e1, e2) refl
  get_loop-outcome (failed e ∷ events) err w = get_loop-outcome events (some e) _

  get-outcome :
      (req : GetRequest) (w : World l1.State l2.State)
      → outcome (get l1 l2 res req w) ≡ (
          let (events, s) = l1.get req w.l1 in
          ended req (last_error events none) s (sent Reply.get events w.replies))
  unfolding get
  get-outcome req w = get_end-outcome req _ (get_loop-outcome (l1.get req w.l1).0 none _)

  get_e_count-keeps :
      (r : GetEResponse) (w : World l1.State l2.State)
      → ((get_e_count l1 l2 res r w).1.l1 ≡ w.l1)
        × ((get_e_count l1 l2 res r w).1.replies ≡ w.replies)
  unfolding get_e_count
  get_e_count-keeps r w = ground arith

  get_e_loop-outcome :
      (events : List (Event GetEResponse)) (err : Option Error) (w : World l1.State l2.State)
      → outcome (get_e_loop l1 l2 res events err w)
        ≡ (last_error events err, w.l1, sent Reply.get_e events w.replies)
  unfolding get_e_loop
  get_e_loop-outcome [] err w = refl
  get_e_loop-outcome (received r ∷ events) err w =
      let (e1, e2) = get_e_count-keeps r w in get_e_loop-outcome events err _ ∙ rw (e1, e2) refl
  get_e_loop-outcome (failed e ∷ events) err w = get_e_loop-outcome events (some e) _

  get_e-outcome :
      (req : GetRequest) (w : World l1.State l2.State)
      → outcome (get_e l1 l2 res req w) ≡ (
          let (events, s) = l1.get_e req w.l1 in
          ended req (last_error events none) s (sent Reply.get_e events w.replies))
  unfolding get_e
  get_e-outcome req w = get_end-outcome req _ (get_e_loop-outcome (l1.get_e req w.l1).0 none _)

  -- Get and GetE send, in order, one reply for each response that the handler sends, whatever
  -- errors come between; then they send GetEnd and return nil if there was no error, and otherwise
  -- they return the last error and send no GetEnd.
  pub batches-outcome :
      (req : GetRequest) (w : World l1.State l2.State)
      → (outcome (get l1 l2 res req w) ≡ (
          let (events, s) = l1.get req w.l1 in
          ended req (last_error events none) s (sent Reply.get events w.replies)))
        × (outcome (get_e l1 l2 res req w) ≡ (
            let (events, s) = l1.get_e req w.l1 in
            ended req (last_error events none) s (sent Reply.get_e events w.replies)))
  batches-outcome req w = (get-outcome req w, get_e-outcome req w)

no_error : {A : Type 0} (rs : List A) (err : Option Error) → last_error (map received rs) err ≡ err
no_error [] err = refl
no_error (r ∷ rs) err = no_error rs err

-- The orchestrator over the in-memory handler alone: for as many opaques and quiet flags as keys,
-- Get returns nil, having sent one reply for each key, in order, with the data and flags of the
-- entry that is visible at that second or a miss, and GetEnd behind them; what is visible stays.
pub serves_live :
    (now : ℕ) (l2 : Handler) (res : Responder) (req : GetRequest)
    (w : World rend.Inmem.Handler l2.State)
    → length req.opaques ≡ length req.keys
    → length req.quiet ≡ length req.keys
    → (h : rend.Inmem.Handler) × (outcome (get (inmem now) l2 res req w)
        ≡ ended req none h (
            sent Reply.get
              (map received (responses response (live now w.l1) req.keys req.opaques req.quiet))
              w.replies))
      × (live now h ≡ live now w.l1)
serves_live now l2 res req w e f =
    let (h, done, same) = (get-Answers now req w.l1 e f).0 in
    (
      h,
      get-outcome (inmem now) l2 res req w
          ∙ rw
              (
                done,
                no_error (responses response (live now w.l1) req.keys req.opaques req.quiet) none,
              )
              refl,
      same,
    )
