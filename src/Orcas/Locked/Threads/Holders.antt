-- ===== src/Orcas/Locked/Threads/Holders.antt =====
-- orcas/locked.go: what a connection still holds of a lock, by what it has still to do.
use mathlib.Core.Path.{subst}
use rend.Prelude.{
  ℕ, ◌≡◌, refl, sym, ap, ◌∙◌, Bool, true, false, not, ◌&&◌, ==_iff, List, [], ◌∷◌, some, ◌==◌,
  if◌then◌else◌, Bool-cases, inl, inr, arith, Bytes,
}
use rend.Orcas.Locked.Sets.{LockSet}
use rend.Orcas.Locked.Calls.{Outcome, Call, key_of, is_get}
use rend.Orcas.Locked.Methods.{Section, Event, locked, unlocked, called, getlock}
use rend.Orcas.Locked.Threads.{exclusive, update}
use rend.Orcas.Locked.Threads.Programs.{
  Free, idle, asks, calls, touches_lock, Inside, in_call, at_end, Prog,
}

abbrev pub bit : Bool → ℕ
bit true = 1
bit false = 0

-- The connection has still to give the lock at `b` back, which it holds exclusively or with other
-- readers.
abbrev pub holds : Bool → Bool → ℕ → List Event → ℕ
holds shared ex b [] = 0
holds shared ex b (called c ret ∷ es) = holds shared ex b es
holds shared ex b (locked x ∷ es) = 0
holds shared ex b (unlocked x ∷ es) =
    if x.place == b
    then (if ex then bit (exclusive shared x.mode) else bit (not (exclusive shared x.mode)))
    else 0

pub Free-holds :
    {set : LockSet} {es : List Event} (ex : Bool) (b : ℕ)
    → Free set es
    → holds set.shared ex b es ≡ 0
Free-holds ex b idle = refl
Free-holds ex b (asks e) = refl
Free-holds ex b (calls g f) = refl
Free-holds ex b (touches_lock f) = refl

pub Inside-holds :
    {set : LockSet} {s : Section} {es : List Event} (ex : Bool) (b : ℕ)
    → Inside set s es
    → holds set.shared ex b es ≡ holds set.shared ex b (unlocked s ∷ [])
Inside-holds ex b (in_call g f) = refl
Inside-holds ex b (at_end f) = refl

-- What follows a lock that is taken, one that is given back, and a call.
pub behind_lock :
    {set : LockSet} {x : Section} {es : List Event} → Prog set (locked x ∷ es) → Inside set x es
behind_lock (inl (calls g f)) = in_call g f
behind_lock (inl (touches_lock f)) = at_end f
behind_lock (inr (s, p)) = elim p [ ]

pub behind_unlock :
    {set : LockSet} {x : Section} {es : List Event} → Prog set (unlocked x ∷ es) → Free set es
behind_unlock (inl p) = elim p [ ]
behind_unlock (inr (s, at_end f)) = f

pub behind_call :
    {set : LockSet} {c : Call} {ret : Outcome} {es : List Event}
    → Prog set (called c ret ∷ es)
    → Prog set es
behind_call (inl (asks e)) = inl idle
behind_call (inr (s, in_call g f)) = inr (s, at_end f)

pub update-Prog :
    {set : LockSet} (f : ℕ → List Event) (i : ℕ) (es : List Event)
    → ((j : ℕ) → Prog set (f j))
    → Prog set es
    → (j : ℕ) → Prog set (update f i es j)
update-Prog f i es h p j = elim (Bool-cases (i == j)) [ inl e ↦ rw e p | inr e ↦ rw e (h j) ]

-- A connection in a call that names a key holds the key's lock, for the call's mode.
call-holds :
    {set : LockSet} {c : Call} {ret : Outcome} {es : List Event} (ex : Bool) (b : ℕ) (key : Bytes)
    → Prog set (called c ret ∷ es)
    → key_of c ≡ some key
    → holds set.shared ex b (called c ret ∷ es)
      ≡ holds set.shared ex b (unlocked (getlock set key (is_get c)) ∷ [])
call-holds ex b key (inl (asks e)) k = absurd (ground (arith, sym e ∙ k))
call-holds {set} {c} ex b key (inr (s, in_call g f)) k =
    let same : g.key ≡ key = ground (arith, sym g.names ∙ k) in
    ap (λ x. holds set.shared ex b (unlocked x ∷ []))
      (g.section_is ∙ ap (λ k. getlock set k (is_get c)) same)

exclusive_of :
    (set : LockSet) (key : Bytes) (reads : Bool)
    → exclusive set.shared (getlock set key reads).mode ≡ not (reads && set.shared)
unfolding getlock
exclusive_of set key true = refl
exclusive_of set key false = refl

-- What a connection holds in a call that names a key, of the key's own lock.
pub key-holds :
    {set : LockSet} {c : Call} {ret : Outcome} {es todo : List Event} (ex : Bool) (key : Bytes)
    → Prog set todo
    → todo ≡ called c ret ∷ es
    → key_of c ≡ some key
    → let x = not (is_get c && set.shared) in
      holds set.shared ex (getlock set key false).place todo ≡ (if ex then bit x else bit (not x))
unfolding getlock
key-holds {set} {c} {ret} {es} ex key p e k =
    let b = (getlock set key false).place in
    ap (holds set.shared ex b) e
    ∙ call-holds ex b key (subst (Prog set) e p) k
    ∙ rw ((==_iff b b).1 refl)
        (ap (λ x. if ex then bit x else bit (not x)) (exclusive_of set key (is_get c)))
