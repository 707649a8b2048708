-- ===== src/Orcas/L1L2/Answered.antt =====
-- orcas/l1l2.go: how often Get answers each of its keys, told by their opaques.
use rend.Prelude.{
  ℕ, ◌+◌, ◌≡◌, refl, ap, ◌∙◌, List, [], ◌∷◌, ◌++◌, length, length-append, Option, none, some, arith,
  if◌then◌else◌, ◌==◌, Bytes,
}
use rend.Common.{Error, GetRequest, GetResponse, GetEResponse}
use rend.Protocol.{Reply}
use rend.Orcas.{Event, received, failed, Handler, Responder, World, Method}
use rend.Orcas.Branches.{if_holds, error_holds}
use rend.Orcas.L1L2.Query.{get_l2-no_keys, get_l2-keys}
use rend.Orcas.L1L2.Reads.{
  l1_loop, l2_loop, l2_hit, Loop, finished, returned, get_end, loop_end, query_l2, get_l2, get,
  refill, with_miss, no_keys, get_response,
}

abbrev pub one : ℕ → ℕ → ℕ
one o x = if o == x then 1 else 0

-- How often an opaque stands in a list, in the replies to single keys, and in a batch's events.
abbrev pub asked : ℕ → List ℕ → ℕ
asked o [] = 0
asked o (x ∷ xs) = one o x + asked o xs

abbrev pub told_of : ℕ → Reply → ℕ
told_of o (Reply.get r) = one o r.opaque
told_of o r = 0

abbrev pub answered : ℕ → List Reply → ℕ
answered o [] = 0
answered o (r ∷ rs) = told_of o r + answered o rs

abbrev pub arrived : {A : Type 0} → (A → ℕ) → ℕ → List (Event A) → ℕ
arrived f o [] = 0
arrived f o (received r ∷ events) = one o (f r) + arrived f o events
arrived f o (failed e ∷ events) = arrived f o events

abbrev pub opaque_of : GetResponse → ℕ
opaque_of r = r.opaque

abbrev pub opaque_of_e : GetEResponse → ℕ
opaque_of_e r = r.opaque

-- As many opaques and quiet flags as keys.
pub record IsBatch (req : GetRequest) : Type 0 where
  pub opaques_match : length req.opaques ≡ length req.keys
  pub quiet_match : length req.quiet ≡ length req.keys

asked-snoc : (o x : ℕ) (xs : List ℕ) → asked o (xs ++ x ∷ []) ≡ asked o xs + one o x
asked-snoc o x [] = omega arith
asked-snoc o x (y ∷ ys) = let e = asked-snoc o x ys in omega arith

with_miss-IsBatch : (req : GetRequest) (r : GetResponse) → IsBatch req → IsBatch (with_miss req r)
with_miss-IsBatch req r p = record {
  opaques_match =
      omega (arith, length-append req.opaques (r.opaque ∷ []), length-append req.keys (r.key ∷ []));
  quiet_match =
      omega (arith, length-append req.quiet (r.quiet ∷ []), length-append req.keys (r.key ∷ []));
}

asked-empty : (o : ℕ) (xs : List ℕ) → length xs ≡ 0 → asked o xs ≡ 0
asked-empty o [] e = refl
asked-empty o (x ∷ xs) e = absurd (omega arith)

module _ (l1 l2 : Handler) (res : Responder) (o : ℕ) where
  abbrev Counted : ℕ → (GetRequest × Option Error) × World l1.State l2.State → Type 0
  Counted n out = (answered o out.1.replies + asked o out.0.0.opaques ≡ n) × IsBatch out.0.0

  l1_loop-Counted :
      (events : List (Event GetResponse)) (req : GetRequest) (err : Option Error)
      (w : World l1.State l2.State) (n : ℕ)
      → IsBatch req
      → answered o w.replies + asked o req.opaques + arrived opaque_of o events ≡ n
      → Counted n (l1_loop l1 l2 res events req err w)
  unfolding l1_loop
  l1_loop-Counted [] req err w n p e = (omega arith, p)
  l1_loop-Counted (received r ∷ events) req err w n p e =
      if_holds (Counted n) r.miss _ _ w
        (λ m.
          l1_loop-Counted events (with_miss req r) err _ n (with_miss-IsBatch req r p)
            (let s = asked-snoc o r.opaque req.opaques in omega arith))
        (λ m. l1_loop-Counted events req err _ n p (omega arith))
  l1_loop-Counted (failed x ∷ events) req err w n p e = l1_loop-Counted events req (some x) _ n p e

  -- A loop that has run to its end has answered what arrived.
  abbrev Done : ℕ → Loop × World l1.State l2.State → Type 0
  Done n out = (err : Option Error) → out.0 ≡ finished err → answered o out.1.replies ≡ n

  l2_hit-Done :
      (r : GetEResponse) (rest : Method l1 l2 Loop) (w : World l1.State l2.State) (n : ℕ)
      → ((w' : World l1.State l2.State)
          → w'.replies ≡ Reply.get (get_response r) ∷ w.replies
          → Done n (rest w'))
      → Done n (l2_hit l1 l2 res r rest w)
  unfolding l2_hit
  l2_hit-Done r rest w n next =
      error_holds (Done n) (l1.set (refill r) w.l1).0 _ _ _ (λ ok. next _ refl)
        (λ x e err f. absurd (ground arith))

  l2_loop-Done :
      (events : List (Event GetEResponse)) (err : Option Error) (w : World l1.State l2.State)
      (n : ℕ)
      → answered o w.replies + arrived opaque_of_e o events ≡ n
      → Done n (l2_loop l1 l2 res events err w)
  unfolding l2_loop
  l2_loop-Done [] err w n e = λ x f. omega arith
  l2_loop-Done (received r ∷ events) err w n e =
      if_holds (Done n) r.miss _ _ w (λ m. l2_loop-Done events err _ n (omega arith))
        (λ m.
          l2_hit-Done r (l2_loop l1 l2 res events none) w n
            (λ w' f. l2_loop-Done events none w' n (let g = ap (answered o) f in omega arith)))
  l2_loop-Done (failed x ∷ events) err w n e = l2_loop-Done events (some x) _ n e

  get_end-answered :
      (req : GetRequest) (err : Option Error) (w : World l1.State l2.State)
      → answered o (get_end l1 l2 res req err w).1.replies ≡ answered o w.replies
  unfolding get_end
  get_end-answered req none w = omega arith
  get_end-answered req (some e) w = refl

  loop_end-answered :
      (req : GetRequest) (out : Loop) (w : World l1.State l2.State) (n : ℕ)
      → ((err : Option Error) → out ≡ finished err → answered o w.replies ≡ n)
      → (loop_end l1 l2 res req out w).0 ≡ none
      → answered o (loop_end l1 l2 res req out w).1.replies ≡ n
  unfolding loop_end
  loop_end-answered req (returned e) w n p ok = absurd (ground arith)
  loop_end-answered req (finished err) w n p ok = get_end-answered req err w ∙ p err refl

  -- L2 answers every key of a batch.
  abbrev pub AnswersAll : Type 0
  AnswersAll =
      (r : GetRequest) (s : l2.State)
      → IsBatch r
      → arrived opaque_of_e o (l2.get_e r s).0 ≡ asked o r.opaques

  query_l2-answered :
      (req : GetRequest) (err : Option Error) (w : World l1.State l2.State) (n : ℕ)
      → answered o w.replies + asked o req.opaques ≡ n
      → AnswersAll
      → IsBatch req
      → (query_l2 l1 l2 res req err w).0 ≡ none
      → answered o (query_l2 l1 l2 res req err w).1.replies ≡ n
  unfolding query_l2
  query_l2-answered req err w n e all p =
      loop_end-answered req _ _ n
        (l2_loop-Done (l2.get_e req w.l2).0 err _ n (let f = all req w.l2 p in omega arith))

  get_l2-answered :
      (keys : List Bytes) (req : GetRequest) (err : Option Error) (w : World l1.State l2.State)
      (n : ℕ)
      → req.keys ≡ keys
      → answered o w.replies + asked o req.opaques ≡ n
      → AnswersAll
      → IsBatch req
      → (get_l2 l1 l2 res req err w).0 ≡ none
      → answered o (get_l2 l1 l2 res req err w).1.replies ≡ n
  unfolding get_l2
  get_l2-answered [] req err w n f e all p = rw (get_l2-no_keys l1 l2 res req err w f) (λ ok.
      get_end-answered req err w
      ∙ (let z = asked-empty o req.opaques (p.opaques_match ∙ ap length f) in omega arith))
  get_l2-answered (k ∷ keys) req err w n f e all p =
      rw (get_l2-keys l1 l2 res k keys req err w f) (query_l2-answered req err w n e all p)

  -- With handlers that answer every key of a batch (L1 this one, L2 any with as many opaques and
  -- quiet flags as keys), a Get that returns nil has answered each of its keys: every opaque is
  -- answered as often as the request has it, be it from L1, from L2 or as a miss.
  pub get-answered :
      (req : GetRequest) (w : World l1.State l2.State)
      → arrived opaque_of o (l1.get req w.l1).0 ≡ asked o req.opaques
      → AnswersAll
      → (get l1 l2 res req w).0 ≡ none
      → answered o (get l1 l2 res req w).1.replies ≡ answered o w.replies + asked o req.opaques
  unfolding get
  get-answered req w e all ok =
      let (f, p) =
        l1_loop-Counted (l1.get req w.l1).0 (no_keys req) none _
          (answered o w.replies + asked o req.opaques)
          (record { opaques_match = refl; quiet_match = refl }) (omega arith) in
      get_l2-answered _ _ _ _ _ refl f all p ok
