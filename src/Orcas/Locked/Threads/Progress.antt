-- ===== src/Orcas/Locked/Threads/Progress.antt =====
-- orcas/locked.go: whether the calls that have begun can come to their ends.
use rend.Prelude.{
  ℕ, zero, suc, ◌<◌, ◌≡◌, refl, Bool, true, false, List, [], ◌∷◌, length, none, Option-cases,
  Bool-cases, inl, inr, ◌⊎◌, arith, ◌==◌,
}
use rend.Orcas.Locked.Sets.{LockSet}
use rend.Orcas.Locked.Calls.{Outcome, Call}
use rend.Orcas.Locked.Methods.{Section, Event, locked, unlocked, called}
use rend.Orcas.Locked.Threads.{
  exclusive, take_lock, System, init, taken, given, Step, acquire, release, finish, Reach, start,
  later,
}
use rend.Orcas.Locked.Threads.Totals.{total, total-update, total_one, total_holder}
use rend.Orcas.Locked.Threads.Invariant.{Inv, Step-Inv, Reach-Inv}
use rend.Orcas.Locked.Threads.Holders.{holds}

-- How many steps a connection has left.
abbrev pub work : List Event → ℕ
work es = length es

-- What a connection does next.
Todo-cases :
    (todo : List Event)
    → (todo ≡ [])
      ⊎ (((x : Section) × (es : List Event) × (todo ≡ locked x ∷ es))
          ⊎ (((x : Section) × (es : List Event) × (todo ≡ unlocked x ∷ es))
              ⊎ ((c : Call) × (ret : Outcome) × (es : List Event) × (todo ≡ called c ret ∷ es))))
Todo-cases [] = inl refl
Todo-cases (locked x ∷ es) = inr (inl (x, es, refl))
Todo-cases (unlocked x ∷ es) = inr (inr (inl (x, es, refl)))
Todo-cases (called c ret ∷ es) = inr (inr (inr (c, ret, es, refl)))

module _ (set : LockSet) (n : ℕ) where
  -- A step that leaves less work.
  abbrev Advances : System → Type 1
  Advances s = (t : System) × Step set n s t × (total n work t.todo < total n work s.todo)

  release-Advances :
      (s : System) (i : ℕ) (x : Section) (es : List Event)
      → i < n
      → s.todo i ≡ unlocked x ∷ es
      → Advances s
  release-Advances s i x es h e =
      (given set n s i x es, release i h e, ground (arith, total-update n work s.todo i es))

  finish-Advances :
      (s : System) (i : ℕ) (c : Call) (ret : Outcome) (es : List Event)
      → i < n
      → s.todo i ≡ called c ret ∷ es
      → Advances s
  finish-Advances s i c ret es h e =
      (_, finish i h e, ground (arith, total-update n work s.todo i es))

  -- A connection that holds a lock goes on without another.
  holder-Advances :
      (s : System) (ex : Bool) (b : ℕ) → 0 < total n (holds set.shared ex b) s.todo → Advances s
  holder-Advances s ex b h =
      let (i, lt, some_held) = total_holder n (holds set.shared ex b) s.todo h in
      elim (Todo-cases (s.todo i)) [
        | inl e ↦ absurd (ground arith)
        | inr (inl (x, es, e)) ↦ absurd (ground arith)
        | inr (inr (inl (x, es, e))) ↦ release-Advances s i x es lt e
        | inr (inr (inr (c, ret, es, e))) ↦ finish-Advances s i c ret es lt e
      ]

  -- A lock that cannot be taken is held.
  refused-held :
      (s : System) (x : Section)
      → Inv set n s
      → take_lock (exclusive set.shared x.mode) (s.locks x.place) ≡ none
      → (0 < total n (holds set.shared true x.place) s.todo)
        ⊎ (0 < total n (holds set.shared false x.place) s.todo)
  refused-held s x v e = ground (arith, v.writer_held x.place, v.readers_held x.place)

  waiting-Advances :
      (s : System) (i : ℕ) (x : Section) (es : List Event)
      → Inv set n s
      → i < n
      → s.todo i ≡ locked x ∷ es
      → Advances s
  waiting-Advances s i x es v h e =
      elim (Option-cases (take_lock (exclusive set.shared x.mode) (s.locks x.place))) [
        | inl busy ↦ elim (refused-held s x v busy) [
          | inl p ↦ holder-Advances s true x.place p
          | inr p ↦ holder-Advances s false x.place p
        ]
        | inr (l, free) ↦ (
          taken set n s i x es l,
          acquire i h e free,
          ground (arith, total-update n work s.todo i es),
        )
      ]

  busy-Advances : (s : System) → Inv set n s → 0 < total n work s.todo → Advances s
  busy-Advances s v h =
      let (i, lt, some_work) = total_holder n work s.todo h in
      elim (Todo-cases (s.todo i)) [
        | inl e ↦ absurd (ground arith)
        | inr (inl (x, es, e)) ↦ waiting-Advances s i x es v lt e
        | inr (inr (inl (x, es, e))) ↦ release-Advances s i x es lt e
        | inr (inr (inr (c, ret, es, e))) ↦ finish-Advances s i c ret es lt e
      ]

  idle_of_work : (es : List Event) → work es ≡ 0 → es ≡ []
  idle_of_work [] e = refl
  idle_of_work (x ∷ es) e = absurd (omega arith)

  -- Every connection has come to the end of its call.
  abbrev pub Idle : System → Type 0
  Idle s = (i : ℕ) → i < n → s.todo i ≡ []

  Reach-trans : {s t u : System} → Reach set n s t → Reach set n t u → Reach set n s u
  Reach-trans p start = p
  Reach-trans p (later q st) = later (Reach-trans p q) st

  drain :
      (k : ℕ) (s : System)
      → Inv set n s
      → total n work s.todo < k
      → (t : System) × Reach set n s t × Idle t
  drain zero s v h = absurd (omega arith)
  drain (suc k) s v h = elim (Bool-cases (total n work s.todo == 0)) [
    | inl e ↦
        (s, start, λ i lt. idle_of_work (s.todo i) (ground (arith, total_one n work s.todo i lt)))
    | inr p ↦
        let (t, st, less) = busy-Advances s v (ground arith) in
        let (u, r, idle) = drain k t (Step-Inv set n v st) (omega arith) in
        (u, Reach-trans (later start st) r, idle)
  ]

  -- There is no deadlock: from every state that runs of the methods on `n` connections lead to, steps
  -- lead on to a state in which each of them has come to the end of its call. A wrapped call is one
  -- that comes to an end.
  pub calls_end : {s : System} → Reach set n init s → (t : System) × Reach set n s t × Idle t
  calls_end {s} r = drain (suc (total n work s.todo)) s (Reach-Inv set n r) (omega arith)
