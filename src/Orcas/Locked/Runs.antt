-- ===== src/Orcas/Locked/Runs.antt =====
-- orcas/locked.go: which locks a method takes and gives back around its calls.
use mathlib.Core.Path.{subst}
use rend.Prelude.{ap, ◌∙◌, ◌≡◌, refl, true, false, List, [], ◌∷◌, none, some, ℕ, Bool, Bytes}
use rend.Common.{GetRequest}
use rend.Orcas.Locked.Sets.{LockSet}
use rend.Orcas.Locked.Calls.{
  Outcome, returned, panics, PanickingOrca, Call, sets, adds, replaces, appends, prepends, deletes,
  touches, gats, gets, get_es, noops, quits, versions, unknowns, perform,
}
use rend.Orcas.Locked.Methods.{
  Section, Event, locked, unlocked, called, Traced, L, getlock, sub_request, is_nil, return,
  guarded, read_loop, get, get_e, unguarded, locked_orca,
}

-- Events in their order, in front of older ones of which the last is first.
abbrev pub onto : List Event → List Event → List Event
onto [] old = old
onto (e ∷ es) old = onto es (e ∷ old)

-- What is to be done for one key: a call under its lock, or, with no opaque or quiet flag for the key,
-- the lock alone.
pub data Turn : Type 0 where
  under : Section → Call → Turn
  refused : Section → Turn

-- The request for one key of a batch that has these keys behind it.
abbrev pub alone : GetRequest → Bytes → ℕ → Bool → List Bytes → GetRequest
alone req k o q [] = record req { keys = k ∷ []; opaques = o ∷ []; quiet = q ∷ [] }
alone req k o q (k' ∷ keys) = record {
  keys = k ∷ [];
  opaques = o ∷ [];
  quiet = q ∷ [];
  noop_opaque = 0;
  noop_end = false;
}

-- The turns of a Get or GetE: each key's lock for reading, and the request for it alone.
abbrev pub turns :
    LockSet → (GetRequest → Call) → GetRequest → List Bytes → List ℕ → List Bool → List Turn
turns set method req [] os qs = []
turns set method req (k ∷ keys) (o ∷ os) (q ∷ qs) =
    under (getlock set k true) (method (alone req k o q keys)) ∷ turns set method req keys os qs
turns set method req (k ∷ keys) _ _ = refused (getlock set k true) ∷ []

-- Whether a call that has come to this is followed by the next.
abbrev pub goes_on : Outcome → Bool
goes_on (returned none) = true
goes_on _ = false

-- The events, in order, of the turns: each lock is taken, held for its call, and given back before the
-- next one is taken. A call that returns an error or panics is the last, and so is a turn without one.
pub data Follows : List Event → List Turn → Type 0 where
  ends : Follows [] []
  passes :
      {s : Section} {c : Call} {es : List Event} {xs : List Turn}
      → Follows es xs
      → Follows (locked s ∷ called c (returned none) ∷ unlocked s ∷ es) (under s c ∷ xs)
  stops :
      {s : Section} {c : Call} {xs : List Turn} (ret : Outcome)
      → goes_on ret ≡ false
      → Follows (locked s ∷ called c ret ∷ unlocked s ∷ []) (under s c ∷ xs)
  skips : {s : Section} {xs : List Turn} → Follows (locked s ∷ unlocked s ∷ []) (refused s ∷ xs)

-- What a Get or GetE comes to: the failure that it stops at, or nil; `rescue` for a panic.
abbrev pub comes_to : {es : List Event} {xs : List Turn} → Outcome → Follows es xs → Outcome
comes_to rescue ends = returned none
comes_to rescue (passes f) = comes_to rescue f
comes_to rescue (stops panics _) = rescue
comes_to rescue (stops (returned e) _) = returned e
comes_to rescue skips = rescue

-- The events of a write: its key's lock is taken for writing, the wrapped method is called with the
-- request, and the lock is given back, whatever the call has come to.
abbrev pub Written : LockSet → Bytes → Call → List Event → Type 0
Written set key c es =
    (ret : Outcome) × (es
      ≡ locked (getlock set key false) ∷ called c ret ∷ unlocked (getlock set key false) ∷ [])

-- The events of a call, in order.
abbrev pub Expected : LockSet → Call → List Event → Type 0
Expected set (sets r) es = Written set r.key (sets r) es
Expected set (adds r) es = Written set r.key (adds r) es
Expected set (replaces r) es = Written set r.key (replaces r) es
Expected set (appends r) es = Written set r.key (appends r) es
Expected set (prepends r) es = Written set r.key (prepends r) es
Expected set (deletes r) es = Written set r.key (deletes r) es
Expected set (touches r) es = Written set r.key (touches r) es
Expected set (gats r) es = Written set r.key (gats r) es
Expected set (gets r) es = Follows es (turns set gets r r.keys r.opaques r.quiet)
Expected set (get_es r) es = Follows es (turns set get_es r r.keys r.opaques r.quiet)
Expected set c es = (ret : Outcome) × (es ≡ called c ret ∷ [])

-- What a method comes to: what its only call does, or, for a Get or GetE, what `comes_to` says. Get
-- turns a panic into nil, and GetE panics again.
abbrev pub result : (set : LockSet) (c : Call) (es : List Event) → Expected set c es → Outcome
result set (sets r) es (ret, _) = ret
result set (adds r) es (ret, _) = ret
result set (replaces r) es (ret, _) = ret
result set (appends r) es (ret, _) = ret
result set (prepends r) es (ret, _) = ret
result set (deletes r) es (ret, _) = ret
result set (touches r) es (ret, _) = ret
result set (gats r) es (ret, _) = ret
result set (gets r) es f = comes_to (returned none) f
result set (get_es r) es f = comes_to panics f
result set (noops r) es (ret, _) = ret
result set (quits r) es (ret, _) = ret
result set (versions r) es (ret, _) = ret
result set unknowns es (ret, _) = ret

sub_request-alone :
    (req : GetRequest) (k : Bytes) (o : ℕ) (q : Bool) (keys : List Bytes)
    → sub_request req k o q (is_nil keys) ≡ alone req k o q keys
unfolding sub_request
sub_request-alone req k o q [] = refl
sub_request-alone req k o q (k' ∷ keys) = refl

module _ {W : Type 0} (set : LockSet) (wrapped : PanickingOrca W) where
  -- A run from older events that follows the turns.
  abbrev Run : Outcome → List Turn → List Event → Outcome × Traced W → Type 0
  Run rescue xs old out =
      (es : List Event) × (f : Follows es xs) × (out.1.events ≡ onto es old)
      × (out.0 ≡ comes_to rescue f)

  after_call-Run :
      (rescue ret : Outcome) (rest : L W Outcome) (t : Traced W) (s : Section) (c : Call)
      (xs : List Turn) (old : List Event)
      → t.events ≡ unlocked s ∷ called c ret ∷ locked s ∷ old
      → Run rescue xs t.events (rest t)
      → Run rescue (under s c ∷ xs) old (
          (elim ret as (λ r. L W Outcome) [
            | panics ↦ return rescue
            | returned (some e) ↦ return (returned (some e))
            | returned none ↦ rest
          ])
            t)
  after_call-Run rescue panics rest t s c xs old e p = (_, stops panics refl, e, refl)
  after_call-Run rescue (returned (some x)) rest t s c xs old e p =
      (_, stops (returned (some x)) refl, e, refl)
  after_call-Run rescue (returned none) rest t s c xs old e (es, f, q, z) =
      (_, passes f, q ∙ ap (onto es) e, z)

  read_loop-Run :
      (method : GetRequest → Call) (rescue : Outcome) (req : GetRequest) (keys : List Bytes)
      (opaques : List ℕ) (quiets : List Bool) (t : Traced W)
      → Run rescue
          (turns set method req keys opaques quiets)
          t.events
          (read_loop set wrapped method rescue req keys opaques quiets t)
  unfolding read_loop
  read_loop-Run method rescue req [] os qs t = ([], ends, refl, refl)
  read_loop-Run method rescue req (k ∷ keys) (o ∷ os) (q ∷ qs) t =
      let c = method (sub_request req k o q (is_nil keys)) in
      let out = read_loop set wrapped method rescue req (k ∷ keys) (o ∷ os) (q ∷ qs) t in
      subst
        (λ r.
          Run rescue (under (getlock set k true) (method r) ∷ turns set method req keys os qs)
            t.events out)
        (sub_request-alone req k o q keys)
        (after_call-Run rescue (perform wrapped c t.world).0 _ _ (getlock set k true) c _ t.events
          refl (read_loop-Run method rescue req keys os qs _))
  read_loop-Run method rescue req (k ∷ keys) [] qs t = (_, skips, refl, refl)
  read_loop-Run method rescue req (k ∷ keys) (o ∷ os) [] t = (_, skips, refl, refl)

  -- What a method of the locking orchestrator does, whether the calls that it makes return nil, an
  -- error or panic: a write takes its key's lock for writing, calls the wrapped method once, with its
  -- request, while it holds the lock, and gives it back; a Get or GetE takes, for each key in order,
  -- the key's lock for reading, calls the wrapped method for this key alone, with the no-op of the
  -- request for the last key only, and gives the lock back before it takes the next, up to the first
  -- call that fails; and the other methods call the wrapped one and take no lock. For a key without an
  -- opaque or a quiet flag a Get or GetE takes the lock, gives it back and ends without a call. It
  -- returns what the wrapped call does; a Get or GetE what the last of its calls does, but Get nil for a
  -- panic.
  pub perform-Expected :
      (c : Call) (t : Traced W)
      → (es : List Event) × (x : Expected set c es) × ((perform
            (locked_orca set wrapped)
            c
            t).1.events
          ≡ onto es t.events)
        × ((perform (locked_orca set wrapped) c t).0 ≡ result set c es x)
  unfolding locked_orca guarded get get_e unguarded
  perform-Expected (sets r) t = (_, (_, refl), refl, refl)
  perform-Expected (adds r) t = (_, (_, refl), refl, refl)
  perform-Expected (replaces r) t = (_, (_, refl), refl, refl)
  perform-Expected (appends r) t = (_, (_, refl), refl, refl)
  perform-Expected (prepends r) t = (_, (_, refl), refl, refl)
  perform-Expected (deletes r) t = (_, (_, refl), refl, refl)
  perform-Expected (touches r) t = (_, (_, refl), refl, refl)
  perform-Expected (gats r) t = (_, (_, refl), refl, refl)
  perform-Expected (gets r) t = read_loop-Run gets (returned none) r r.keys r.opaques r.quiet t
  perform-Expected (get_es r) t = read_loop-Run get_es panics r r.keys r.opaques r.quiet t
  perform-Expected (noops r) t = (_, (_, refl), refl, refl)
  perform-Expected (quits r) t = (_, (_, refl), refl, refl)
  perform-Expected (versions r) t = (_, (_, refl), refl, refl)
  perform-Expected unknowns t = (_, (_, refl), refl, refl)
