-- ===== src/Orcas/L1L2/Served.antt =====
-- orcas/l1l2.go: what Get sends.
use rend.Prelude.{◌≡◌, refl, ◌⊎◌, true, inl, inr, List, [], ◌∷◌, Option, none, some, Bytes, All}
use rend.Common.{Error, GetRequest, GetResponse, GetEResponse}
use rend.Protocol.{Reply}
use rend.Orcas.{Event, received, failed, Handler, Responder, World, Method}
use rend.Orcas.Branches.{if_holds, error_holds}
use rend.Orcas.Caches.{View, IsCache, Serves, ServesE, OnReceived}
use rend.Orcas.L1L2.Query.{get_l2-no_keys, get_l2-keys}
use rend.Orcas.L1L2.Reads.{
  l1_loop, l2_loop, l2_hit, Loop, finished, returned, get_end, loop_end, query_l2, get_l2, get,
  refill, with_miss, no_keys, get_response,
}
use rend.Orcas.L1L2.Fill.{l1_loop-keeps}

-- A list of replies, the last one first, that some of a kind were added to.
pub data Sent (P : Reply → Type 0) (old : List Reply) : List Reply → Type 0 where
  nothing : Sent P old old
  more : {r : Reply} {rs : List Reply} → P r → Sent P old rs → Sent P old (r ∷ rs)

Sent-trans :
    {P : Reply → Type 0} {xs ys zs : List Reply} → Sent P xs ys → Sent P ys zs → Sent P xs zs
Sent-trans p nothing = p
Sent-trans p (more x q) = more x (Sent-trans p q)

-- A reply to a Get is a miss, or has the item that one of two views holds.
abbrev pub Served : View → View → Reply → Type 0
Served f g (Reply.get r) =
    (r.miss ≡ true) ⊎ (f r.key ≡ some (r.value, r.flags)) ⊎ (g r.key ≡ some (r.value, r.flags))
Served f g r = Unit {0}

module _ (l1 l2 : Handler) (res : Responder) where
  -- The method adds replies of the kind `P` only.
  abbrev Adds :
      {A : Type 0}
      → (Reply → Type 0)
      → World l1.State l2.State
      → A × World l1.State l2.State
      → Type 0
  Adds P w out = Sent P w.replies out.1.replies

  module _ (f g : View) where
    l1_loop-Adds :
        (events : List (Event GetResponse)) (req : GetRequest) (err : Option Error)
        (w : World l1.State l2.State)
        → All (OnReceived (Serves f)) events
        → Adds (Served f g) w (l1_loop l1 l2 res events req err w)
    unfolding l1_loop
    l1_loop-Adds [] req err w p = nothing
    l1_loop-Adds (received r ∷ events) req err w (p, ps) =
        if_holds (Adds (Served f g) w) r.miss _ _ w
          (λ e. l1_loop-Adds events (with_miss req r) err _ ps)
          (λ e. Sent-trans (more (inr (inl (p e))) nothing) (l1_loop-Adds events req err _ ps))
    l1_loop-Adds (failed x ∷ events) req err w (p, ps) = l1_loop-Adds events req (some x) _ ps

    l2_hit-Adds :
        (r : GetEResponse) (rest : Method l1 l2 Loop) (w : World l1.State l2.State)
        → Served f g (Reply.get (get_response r))
        → ((w' : World l1.State l2.State) → Adds (Served f g) w' (rest w'))
        → Adds (Served f g) w (l2_hit l1 l2 res r rest w)
    unfolding l2_hit
    l2_hit-Adds r rest w p next =
        error_holds (Adds (Served f g) w) (l1.set (refill r) w.l1).0 _ _ _
          (λ ok. Sent-trans (more p nothing) (next _)) (λ x e. nothing)

    l2_loop-Adds :
        (events : List (Event GetEResponse)) (err : Option Error) (w : World l1.State l2.State)
        → All (OnReceived (ServesE g)) events
        → Adds (Served f g) w (l2_loop l1 l2 res events err w)
    unfolding l2_loop
    l2_loop-Adds [] err w p = nothing
    l2_loop-Adds (received r ∷ events) err w (p, ps) =
        if_holds (Adds (Served f g) w) r.miss _ _ w
          (λ e. Sent-trans (more (inl e) nothing) (l2_loop-Adds events err _ ps))
          (λ e.
            l2_hit-Adds r (l2_loop l1 l2 res events none) w (inr (inr (p e)))
              (λ w'. l2_loop-Adds events none w' ps))
    l2_loop-Adds (failed x ∷ events) err w (p, ps) = l2_loop-Adds events (some x) _ ps

    get_end-Adds :
        (req : GetRequest) (err : Option Error) (w : World l1.State l2.State)
        → Adds (Served f g) w (get_end l1 l2 res req err w)
    unfolding get_end
    get_end-Adds req none w = more tt nothing
    get_end-Adds req (some e) w = nothing

    loop_end-Adds :
        (req : GetRequest) (out : Loop) (w : World l1.State l2.State)
        → Adds (Served f g) w (loop_end l1 l2 res req out w)
    unfolding loop_end
    loop_end-Adds req (returned e) w = nothing
    loop_end-Adds req (finished err) w = get_end-Adds req err w

    -- Every answer of L2 to a GetE serves what `g` holds.
    abbrev Serving : World l1.State l2.State → Type 0
    Serving w = (r : GetRequest) → All (OnReceived (ServesE g)) (l2.get_e r w.l2).0

    query_l2-Adds :
        (req : GetRequest) (err : Option Error) (w : World l1.State l2.State)
        → Serving w
        → Adds (Served f g) w (query_l2 l1 l2 res req err w)
    unfolding query_l2
    query_l2-Adds req err w p =
        Sent-trans (l2_loop-Adds (l2.get_e req w.l2).0 err _ (p req)) (loop_end-Adds req _ _)

    -- `get_l2` with the keys of the request in the open.
    get_l2-Adds :
        (keys : List Bytes) (req : GetRequest) (err : Option Error) (w : World l1.State l2.State)
        → req.keys ≡ keys
        → Serving w
        → Adds (Served f g) w (get_l2 l1 l2 res req err w)
    get_l2-Adds [] req err w e p =
        rw (get_l2-no_keys l1 l2 res req err w e) (get_end-Adds req err w)
    get_l2-Adds (k ∷ keys) req err w e p =
        rw (get_l2-keys l1 l2 res k keys req err w e) (query_l2-Adds req err w p)

  -- Whatever fails on the way, each reply to a key that Get sends is a miss, or has the data and
  -- flags that L1 or L2 held for the key of the reply when Get was called.
  pub get-Sent :
      (c1 : IsCache l1) (c2 : IsCache l2) (req : GetRequest) (w : World l1.State l2.State)
      → Sent (Served (c1.view w.l1) (c2.view w.l2)) w.replies (get l1 l2 res req w).1.replies
  unfolding get
  get-Sent c1 c2 req w =
      let events = (l1.get req w.l1).0 in
      Sent-trans
        (l1_loop-Adds (c1.view w.l1) (c2.view w.l2) events (no_keys req) none _
          (c1.get_serves req w.l1))
        (get_l2-Adds (c1.view w.l1) (c2.view w.l2) _ _ _ _ refl (λ r.
          rw (l1_loop-keeps l1 l2 c1 c2 res events (no_keys req) none _).1
            (c2.get_e_serves r w.l2)))
