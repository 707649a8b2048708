-- ===== src/Orcas/Locked/Methods.antt =====
-- orcas/locked.go: the methods of LockedOrca, which all but the last five take locks.
use rend.Prelude.{
  ◌<◌, ◌≡◌, refl, ℕ, Bool, true, false, List, [], ◌∷◌, none, some, Bytes, if◌then◌else◌,
}
use rend.Common.{GetRequest}
use rend.Orcas.Locked.Calls.{
  Outcome, returned, panics, PanickingOrca, Call, sets, adds, replaces, appends, prepends, deletes,
  touches, gats, gets, get_es, noops, quits, versions, unknowns, perform,
}
use rend.Orcas.Locked.Buckets.{bucket, bucket-lt}
use rend.Orcas.Locked.Sets.{LockSet}

-- How a lock is taken: from `locks`, or from `rlocks`.
pub data Mode : Type 0 where
  read write : Mode

-- One lock of the set, and how it is taken.
pub record Section : Type 0 where
  pub place : ℕ
  pub mode : Mode

-- A lock is taken or given back, or a call of the wrapped orchestrator comes to an outcome.
pub data Event : Type 0 where
  locked unlocked : Section → Event
  called : Call → Outcome → Event

-- The world of the wrapped orchestrator, and what happened, the last event first.
pub record Traced (W : Type 0) : Type 0 where
  pub world : W
  pub events : List Event

abbrev pub L : Type 0 → Type 0 → Type 0
L W A = Traced W → A × Traced W

module _ {W : Type 0} where
  infixl 5 ◌>>=◌ ◌>>◌
  abbrev pub ◌>>=◌ : {A B : Type 0} → L W A → (A → L W B) → L W B
  ◌>>=◌ m f t = f (m t).0 (m t).1

  abbrev pub ◌>>◌ : {A B : Type 0} → L W A → L W B → L W B
  ◌>>◌ m k t = k (m t).1

  abbrev pub return : {A : Type 0} → A → L W A
  return a t = (a, t)

  abbrev pub lock : Section → L W (Unit {0})
  lock s t = (tt, record t { events = locked s ∷ t.events })

  abbrev pub unlock : Section → L W (Unit {0})
  unlock s t = (tt, record t { events = unlocked s ∷ t.events })

  -- A call of the wrapped orchestrator.
  abbrev pub call : PanickingOrca W → Call → L W Outcome
  call wrapped c t =
      let (ret, w) = perform wrapped c t.world in
      (ret, record { world = w; events = called c ret ∷ t.events })

-- `getlock`
unfoldable pub getlock : LockSet → Bytes → Bool → Section
unfolding bucket
getlock set key is_read = record {
  place = bucket set.count key;
  mode = if is_read then read else write;
}

-- A key has one place among the locks of a set with one lock or more, for reading and for writing, and
-- it is in range.
pub getlock-place :
    (set : LockSet) (key : Bytes)
    → 0 < set.count
    → ((getlock set key true).place ≡ (getlock set key false).place)
      × ((getlock set key false).place < set.count)
unfolding getlock
getlock-place set key h = (refl, bucket-lt set.count key h)

-- The request for one key of a batch; the last one ends it.
unfoldable pub sub_request : GetRequest → Bytes → ℕ → Bool → Bool → GetRequest
sub_request req key opaque quiet last = record {
  keys = key ∷ [];
  opaques = opaque ∷ [];
  quiet = quiet ∷ [];
  noop_opaque = if last then req.noop_opaque else 0;
  noop_end = if last then req.noop_end else false;
}

abbrev pub is_nil : List Bytes → Bool
is_nil [] = true
is_nil (k ∷ ks) = false

module _ {W : Type 0} (set : LockSet) (wrapped : PanickingOrca W) where
  -- Lock, call, and unlock, deferred: behind a panic too.
  unfoldable pub guarded : Bytes → Call → L W Outcome
  unfolding getlock
  guarded key c = do
    lock (getlock set key false)
    ret ← call wrapped c
    unlock (getlock set key false)
    return ret

  -- The loop over the keys of Get and GetE, with the method that it calls and what a recovered panic
  -- comes to. A missing opaque or quiet flag is an index out of range, a panic while the lock is held.
  unfoldable pub read_loop :
      (GetRequest → Call) → Outcome → GetRequest → List Bytes → List ℕ → List Bool → L W Outcome
  unfolding getlock sub_request
  read_loop method rescue req [] opaques quiets = return (returned none)
  read_loop method rescue req (key ∷ keys) (o ∷ opaques) (q ∷ quiets) = do
    lock (getlock set key true)
    ret ← call wrapped (method (sub_request req key o q (is_nil keys)))
    unlock (getlock set key true)
    elim ret [
      | panics ↦ return rescue
      | returned (some e) ↦ return (returned (some e))
      | returned none ↦ read_loop method rescue req keys opaques quiets
    ]
  read_loop method rescue req (key ∷ keys) _ _ = do
    lock (getlock set key true)
    unlock (getlock set key true)
    return rescue

  -- Get recovers from a panic, and then returns the nil error of its unnamed result.
  unfoldable pub get : GetRequest → L W Outcome
  unfolding read_loop
  get req = read_loop gets (returned none) req req.keys req.opaques req.quiet

  -- GetE panics again.
  unfoldable pub get_e : GetRequest → L W Outcome
  unfolding read_loop
  get_e req = read_loop get_es panics req req.keys req.opaques req.quiet

  -- A method that takes no lock.
  unfoldable pub unguarded : Call → L W Outcome
  unguarded c = call wrapped c

  unfoldable pub locked_orca : PanickingOrca (Traced W)
  unfolding guarded get get_e unguarded
  locked_orca = record {
    set = λ req. guarded req.key (sets req);
    add = λ req. guarded req.key (adds req);
    replace = λ req. guarded req.key (replaces req);
    append = λ req. guarded req.key (appends req);
    prepend = λ req. guarded req.key (prepends req);
    delete = λ req. guarded req.key (deletes req);
    touch = λ req. guarded req.key (touches req);
    get = get;
    get_e = get_e;
    gat = λ req. guarded req.key (gats req);
    noop = λ req. unguarded (noops req);
    quit = λ req. unguarded (quits req);
    version = λ req. unguarded (versions req);
    unknown = unguarded unknowns;
    error = λ req t e w. record w { world = wrapped.error req t e w.world };
  }
