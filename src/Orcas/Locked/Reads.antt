-- ===== src/Orcas/Locked/Reads.antt =====
-- orcas/locked.go: what Get answers, over orcas/l1only.go and the in-memory handler.
use rend.Prelude.{
  ℕ, ◌≡◌, refl, ap, ◌∙◌, false, List, [], ◌∷◌, length, Option, none, some, Bool, Bytes, arith,
}
use rend.Common.{GetRequest}
use rend.Protocol.{Reply}
use rend.Server.{Orca}
use rend.Server.L1Only.{client, works}
use rend.Orcas.{Handler, World}
use rend.Orcas.L1Only.Batches.{serves_live}
use rend.Inmem.{Entry}
use rend.Inmem.Live.{live}
use rend.Inmem.Answers.{response}
use rend.Orcas.Locked.Sets.{LockSet}
use rend.Orcas.Locked.Calls.{Outcome, returned, panics, PanickingOrca, gets}
use rend.Orcas.Locked.Methods.{Traced, L, return, sub_request, is_nil, read_loop, get}

-- An orchestrator that does not panic.
abbrev pub calm : {W : Type 0} → Orca W → PanickingOrca W
calm o = record {
  set = λ r w. (returned (o.set r w).0, (o.set r w).1);
  add = λ r w. (returned (o.add r w).0, (o.add r w).1);
  replace = λ r w. (returned (o.replace r w).0, (o.replace r w).1);
  append = λ r w. (returned (o.append r w).0, (o.append r w).1);
  prepend = λ r w. (returned (o.prepend r w).0, (o.prepend r w).1);
  delete = λ r w. (returned (o.delete r w).0, (o.delete r w).1);
  touch = λ r w. (returned (o.touch r w).0, (o.touch r w).1);
  get = λ r w. (returned (o.get r w).0, (o.get r w).1);
  get_e = λ r w. (returned (o.get_e r w).0, (o.get_e r w).1);
  gat = λ r w. (returned (o.gat r w).0, (o.gat r w).1);
  noop = λ r w. (returned (o.noop r w).0, (o.noop r w).1);
  quit = λ r w. (returned (o.quit r w).0, (o.quit r w).1);
  version = λ r w. (returned (o.version r w).0, (o.version r w).1);
  unknown = λ w. (returned (o.unknown w).0, (o.unknown w).1);
  error = o.error;
}

-- The GetEnd behind a key that has these keys behind it: only behind the last is it the request's.
abbrev pub end_before : GetRequest → List Bytes → Reply
end_before req [] = Reply.get_end req.noop_opaque req.noop_end
end_before req (k ∷ keys) = Reply.get_end 0 false

-- The replies to the keys, each with a GetEnd behind it, in front of others; the last one first.
abbrev pub answers :
    (Bytes → Option Entry) → GetRequest → List Bytes → List ℕ → List Bool → List Reply → List Reply
answers f req (k ∷ keys) (o ∷ opaques) (q ∷ quiets) replies =
    answers f req keys opaques quiets
      (end_before req keys ∷ Reply.get (response (f k) k o q) ∷ replies)
answers f req _ _ _ replies = replies

module _ (now : ℕ) (l2 : Handler) (set : LockSet) where
  abbrev Client : Type 0
  Client = World rend.Inmem.Handler l2.State

  -- The call of one key.
  sub_get :
      (req : GetRequest) (k : Bytes) (o : ℕ) (q last : Bool) (w : Client)
      → let sub = sub_request req k o q last in
        let (err, v) = (client now l2).get sub w in
        (err ≡ none)
        × (live now v.l1 ≡ live now w.l1)
        × (v.replies
            ≡ Reply.get_end sub.noop_opaque sub.noop_end
              ∷ Reply.get (response (live now w.l1 k) k o q)
              ∷ w.replies)
  unfolding sub_request
  sub_get req k o q last w =
      let (h, e, same) = serves_live now l2 works (sub_request req k o q last) w refl refl in
      (ap (λ x. x.0) e, ap (λ x. live now x.1) e ∙ same, ap (λ x. x.2) e)

  sub_end :
      (req : GetRequest) (k : Bytes) (o : ℕ) (q : Bool) (keys : List Bytes)
      → let sub = sub_request req k o q (is_nil keys) in
        Reply.get_end sub.noop_opaque sub.noop_end ≡ end_before req keys
  unfolding sub_request
  sub_end req k o q [] = refl
  sub_end req k o q (k' ∷ keys) = refl

  -- A run over keys that answers each of them, from the world `w`.
  abbrev Answered :
      GetRequest → List Bytes → List ℕ → List Bool → Client → Outcome × Traced Client → Type 0
  Answered req keys os qs w (ret, t) =
      (ret ≡ returned none)
      × (live now t.world.l1 ≡ live now w.l1)
      × (t.world.replies ≡ answers (live now w.l1) req keys os qs w.replies)

  -- One more key in front, whose call has led from `w` to `v`.
  Answered-key :
      (req : GetRequest) (k : Bytes) (keys : List Bytes) (o : ℕ) (os : List ℕ) (q : Bool)
      (qs : List Bool) (w v : Client) (out : Outcome × Traced Client)
      → live now v.l1 ≡ live now w.l1
      → v.replies ≡ end_before req keys ∷ Reply.get (response (live now w.l1 k) k o q) ∷ w.replies
      → Answered req keys os qs v out
      → Answered req (k ∷ keys) (o ∷ os) (q ∷ qs) w out
  Answered-key req k keys o os q qs w v out same e (p, p', p'') = (
    p,
    p' ∙ same,
    p''
        ∙ ap (λ f. answers f req keys os qs v.replies) same
        ∙ ap (answers (live now w.l1) req keys os qs) e,
  )

  after_call-Answered :
      (req : GetRequest) (keys : List Bytes) (os : List ℕ) (qs : List Bool) (w : Client)
      (ret rescue : Outcome) (rest : L Client Outcome) (t : Traced Client)
      → ret ≡ returned none
      → Answered req keys os qs w (rest t)
      → Answered req keys os qs w (
          (elim ret as (λ r. L Client Outcome) [
            | panics ↦ return rescue
            | returned (some e) ↦ return (returned (some e))
            | returned none ↦ rest
          ])
            t)
  after_call-Answered req keys os qs w panics rescue rest t e p = absurd (ground arith)
  after_call-Answered req keys os qs w (returned (some x)) rescue rest t e p = absurd (ground arith)
  after_call-Answered req keys os qs w (returned none) rescue rest t e p = p

  read_loop-Answered :
      (req : GetRequest) (keys : List Bytes) (os : List ℕ) (qs : List Bool) (rescue : Outcome)
      (t : Traced Client)
      → length os ≡ length keys
      → length qs ≡ length keys
      → Answered req keys os qs t.world
          (read_loop set (calm (client now l2)) gets rescue req keys os qs t)
  unfolding read_loop
  read_loop-Answered req [] os qs rescue t e f = (refl, refl, refl)
  read_loop-Answered req (k ∷ keys) [] qs rescue t e f = absurd (omega arith)
  read_loop-Answered req (k ∷ keys) (o ∷ os) [] rescue t e f = absurd (omega arith)
  read_loop-Answered req (k ∷ keys) (o ∷ os) (q ∷ qs) rescue t e f =
      let (ok, same, sent) = sub_get req k o q (is_nil keys) t.world in
      let v = ((client now l2).get (sub_request req k o q (is_nil keys)) t.world).1 in
      Answered-key req k keys o os q qs t.world v
        (read_loop set (calm (client now l2)) gets rescue req (k ∷ keys) (o ∷ os) (q ∷ qs) t) same
        (sent
          ∙ ap (λ x. x ∷ Reply.get (response (live now t.world.l1 k) k o q) ∷ t.world.replies)
              (sub_end req k o q keys))
        (after_call-Answered req keys os qs v _ rescue _ _ (ap returned ok)
          (read_loop-Answered req keys os qs rescue _ (omega arith) (omega arith)))

  -- Get of the locking orchestrator over L1Only and the in-memory handler, with as many opaques and
  -- quiet flags as keys: it returns nil, having answered each key, in order, with the data and flags
  -- of the entry that is visible at that second or a miss, and what is visible stays. Behind each
  -- answer it has sent a GetEnd, of which the last only has the opaque and the no-op of the request.
  pub get-answers :
      (req : GetRequest) (t : Traced Client)
      → length req.opaques ≡ length req.keys
      → length req.quiet ≡ length req.keys
      → let (ret, t') = get set (calm (client now l2)) req t in
        (ret ≡ returned none)
        × (live now t'.world.l1 ≡ live now t.world.l1)
        × (t'.world.replies
            ≡ answers (live now t.world.l1) req req.keys req.opaques req.quiet t.world.replies)
  unfolding get
  get-answers req t e f =
      read_loop-Answered req req.keys req.opaques req.quiet (returned none) t e f
