-- ===== src/Orcas/Locked/Threads/Programs.antt =====
-- orcas/locked.go: the form that every method's run has, of which the theorems on connections are made.
use mathlib.Core.Path.{subst}
use mathlib.Core.List.{append-nil}
use rend.Prelude.{
  ◌≡◌, refl, sym, ap, ◌∙◌, ◌⊎◌, true, false, List, [], ◌∷◌, ◌++◌, none, some, ℕ, Bool, Bytes,
}
use rend.Common.{GetRequest}
use rend.Orcas.Locked.Sets.{LockSet}
use rend.Orcas.Locked.Calls.{
  Outcome, PanickingOrca, Call, sets, adds, replaces, appends, prepends, deletes, touches, gats,
  gets, get_es, noops, quits, versions, unknowns, key_of, is_get,
}
use rend.Orcas.Locked.Methods.{Section, Event, locked, unlocked, called, getlock}
use rend.Orcas.Locked.Runs.{
  onto, turns, alone, Follows, ends, passes, stops, skips, Expected, Written, perform-Expected,
}
use rend.Orcas.Locked.Threads.{program}

onto-onto : (p q r : List Event) → onto (onto p q) r ≡ onto q (p ++ r)
onto-onto [] q r = refl
onto-onto (e ∷ p) q r = onto-onto p (e ∷ q) r

-- A wrapped call under a key's lock: the lock is that of the key that it names, for its mode.
pub record IsGuarded (set : LockSet) (s : Section) (c : Call) : Type 0 where
  pub key : Bytes
  pub names : key_of c ≡ some key
  pub section_is : s ≡ getlock set key (is_get c)

-- What a connection that holds no lock has to do, by the list of it: to take one lock at a time, to
-- make under it one wrapped call or none, and to give it back; or one call that names no key.
pub data Free (set : LockSet) : List Event → Type 0 where
  idle : Free set []
  asks : {c : Call} {ret : Outcome} → key_of c ≡ none → Free set (called c ret ∷ [])
  calls :
      {s : Section} {c : Call} {ret : Outcome} {es : List Event}
      → IsGuarded set s c
      → Free set es
      → Free set (locked s ∷ called c ret ∷ unlocked s ∷ es)
  touches_lock :
      {s : Section} {es : List Event} → Free set es → Free set (locked s ∷ unlocked s ∷ es)

-- The same for one that is inside a lock.
pub data Inside (set : LockSet) (s : Section) : List Event → Type 0 where
  in_call :
      {c : Call} {ret : Outcome} {es : List Event}
      → IsGuarded set s c
      → Free set es
      → Inside set s (called c ret ∷ unlocked s ∷ es)
  at_end : {es : List Event} → Free set es → Inside set s (unlocked s ∷ es)

abbrev pub Prog : LockSet → List Event → Type 0
Prog set es = Free set es ⊎ ((s : Section) × Inside set s es)

module _ (set : LockSet) where
  Written-Free :
      (key : Bytes) (c : Call) (es : List Event)
      → key_of c ≡ some key
      → is_get c ≡ false
      → Written set key c es
      → Free set es
  Written-Free key c es e f (ret, p) =
      subst (Free set) (sym p)
        (calls (record { key = key; names = e; section_is = ap (getlock set key) (sym f) }) idle)

  bare-Free :
      (c : Call) (es : List Event)
      → key_of c ≡ none
      → (ret : Outcome) × (es ≡ called c ret ∷ [])
      → Free set es
  bare-Free c es e (ret, p) = subst (Free set) (sym p) (asks e)

  -- The turns of a read are guarded, for a method that asks for what its request names.
  Follows-Free :
      (method : GetRequest → Call) (req : GetRequest) (keys : List Bytes) (os : List ℕ)
      (qs : List Bool) (es : List Event)
      → ((k : Bytes) (o : ℕ) (q : Bool) (ks : List Bytes)
          → IsGuarded set (getlock set k true) (method (alone req k o q ks)))
      → Follows es (turns set method req keys os qs)
      → Free set es
  Follows-Free method req [] os qs es g ends = idle
  Follows-Free method req (k ∷ keys) [] qs es g skips = touches_lock idle
  Follows-Free method req (k ∷ keys) (o ∷ os) [] es g skips = touches_lock idle
  Follows-Free method req (k ∷ keys) (o ∷ os) (q ∷ qs) es g (passes f) =
      calls (g k o q keys) (Follows-Free method req keys os qs _ g f)
  Follows-Free method req (k ∷ keys) (o ∷ os) (q ∷ qs) es g (stops ret e) =
      calls (g k o q keys) idle

  get-IsGuarded :
      (req : GetRequest) (k : Bytes) (o : ℕ) (q : Bool) (ks : List Bytes)
      → IsGuarded set (getlock set k true) (gets (alone req k o q ks))
  get-IsGuarded req k o q [] = record { key = k; names = refl; section_is = refl }
  get-IsGuarded req k o q (k' ∷ ks) = record { key = k; names = refl; section_is = refl }

  get_e-IsGuarded :
      (req : GetRequest) (k : Bytes) (o : ℕ) (q : Bool) (ks : List Bytes)
      → IsGuarded set (getlock set k true) (get_es (alone req k o q ks))
  get_e-IsGuarded req k o q [] = record { key = k; names = refl; section_is = refl }
  get_e-IsGuarded req k o q (k' ∷ ks) = record { key = k; names = refl; section_is = refl }

  Expected-Free : (c : Call) (es : List Event) → Expected set c es → Free set es
  Expected-Free (sets r) es p = Written-Free r.key (sets r) es refl refl p
  Expected-Free (adds r) es p = Written-Free r.key (adds r) es refl refl p
  Expected-Free (replaces r) es p = Written-Free r.key (replaces r) es refl refl p
  Expected-Free (appends r) es p = Written-Free r.key (appends r) es refl refl p
  Expected-Free (prepends r) es p = Written-Free r.key (prepends r) es refl refl p
  Expected-Free (deletes r) es p = Written-Free r.key (deletes r) es refl refl p
  Expected-Free (touches r) es p = Written-Free r.key (touches r) es refl refl p
  Expected-Free (gats r) es p = Written-Free r.key (gats r) es refl refl p
  Expected-Free (gets r) es p = Follows-Free gets r r.keys r.opaques r.quiet es (get-IsGuarded r) p
  Expected-Free (get_es r) es p =
      Follows-Free get_es r r.keys r.opaques r.quiet es (get_e-IsGuarded r) p
  Expected-Free (noops r) es p = bare-Free (noops r) es refl p
  Expected-Free (quits r) es p = bare-Free (quits r) es refl p
  Expected-Free (versions r) es p = bare-Free (versions r) es refl p
  Expected-Free unknowns es p = bare-Free unknowns es refl p

  pub program-Free :
      {W : Type 0} (wrapped : PanickingOrca W) (c : Call) (w : W)
      → Free set (program set wrapped c w)
  program-Free wrapped c w =
      let (es, p, e, _) = perform-Expected set wrapped c (record { world = w; events = [] }) in
      subst (Free set) (sym (ap (λ x. onto x []) e ∙ onto-onto es [] [] ∙ append-nil es))
        (Expected-Free c es p)
