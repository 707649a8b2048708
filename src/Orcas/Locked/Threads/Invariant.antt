-- ===== src/Orcas/Locked/Threads/Invariant.antt =====
-- orcas/locked.go: what the locks say of the connections, and that two are never in calls for one key.
use mathlib.Core.Path.{subst}
use rend.Prelude.{
  ℕ, zero, suc, ◌<◌, ◌≡◌, ◌≢◌, refl, sym, ap, ◌∙◌, Bool, true, false, not, ◌&&◌, List, [], ◌∷◌,
  some, ◌==◌, Bool-cases, inl, inr, arith, Bytes,
}
use rend.Orcas.Locked.Sets.{LockSet}
use rend.Orcas.Locked.Calls.{Outcome, Call, key_of, is_get}
use rend.Orcas.Locked.Methods.{Section, Event, locked, unlocked, called, getlock}
use rend.Orcas.Locked.Threads.{
  Lock, exclusive, take_lock, update, System, init, program, taken, given, Step, begin, acquire,
  release, finish, Reach, start, later,
}
use rend.Orcas.Locked.Threads.Programs.{idle, Prog, program-Free}
use rend.Orcas.Locked.Threads.Holders.{
  bit, holds, Free-holds, Inside-holds, behind_lock, behind_unlock, behind_call, update-Prog,
  key-holds,
}
use rend.Orcas.Locked.Threads.Totals.{total, total-update, total_one, total_two}

module _ (set : LockSet) (n : ℕ) where
  abbrev pub holders : Bool → ℕ → System → ℕ
  holders ex b s = total n (holds set.shared ex b) s.todo

  -- Each lock counts its holders, and has no readers beside a writer; and each connection follows a
  -- run of the code.
  pub record Inv (s : System) : Type 0 where
    pub writer_held : (b : ℕ) → bit (s.locks b).writer ≡ holders true b s
    pub readers_held : (b : ℕ) → (s.locks b).readers ≡ holders false b s
    pub apart : (b : ℕ) → (s.locks b).writer ≡ true → (s.locks b).readers ≡ 0
    pub progs : (i : ℕ) → Prog set (s.todo i)

  -- A step that neither takes nor gives back a lock.
  same-Inv :
      (s : System) (i : ℕ) (es : List Event)
      → i < n
      → ((ex : Bool) (b : ℕ) → holds set.shared ex b es ≡ holds set.shared ex b (s.todo i))
      → Prog set es
      → Inv s
      → Inv (record s { todo = update s.todo i es })
  same-Inv s i es h e p v = record {
    writer_held = λ b.
        omega (
          arith,
          v.writer_held b,
          e true b,
          total-update n (holds set.shared true b) s.todo i es h,
        );
    readers_held = λ b. omega (
      arith,
      v.readers_held b,
      e false b,
      total-update n (holds set.shared false b) s.todo i es h,
    );
    apart = v.apart;
    progs = update-Prog s.todo i es v.progs p;
  }

  acquire-Inv :
      (s : System) (i : ℕ) (x : Section) (es : List Event) (l : Lock)
      → i < n
      → s.todo i ≡ locked x ∷ es
      → take_lock (exclusive set.shared x.mode) (s.locks x.place) ≡ some l
      → Inv s
      → Inv (taken set n s i x es l)
  acquire-Inv s i x es l h e t v =
      let p = behind_lock (subst (Prog set) e (v.progs i)) in
      let old : (ex : Bool) (b : ℕ) → holds set.shared ex b (s.todo i) ≡ 0 =
        λ ex b. ap (holds set.shared ex b) e in
      record {
        writer_held = λ b. ground (
          arith,
          v.writer_held b,
          v.writer_held x.place,
          old true b,
          Inside-holds true b p,
          total-update n (holds set.shared true b) s.todo i es,
        );
        readers_held = λ b. ground (
          arith,
          v.readers_held b,
          v.readers_held x.place,
          old false b,
          Inside-holds false b p,
          total-update n (holds set.shared false b) s.todo i es,
        );
        apart = λ b. ground (arith, v.apart b);
        progs = update-Prog s.todo i es v.progs (inr (x, p));
      }

  given-Inv :
      (s : System) (i : ℕ) (x : Section) (es : List Event)
      → i < n
      → s.todo i ≡ unlocked x ∷ es
      → Inv s
      → Inv (given set n s i x es)
  given-Inv s i x es h e v =
      let p = behind_unlock (subst (Prog set) e (v.progs i)) in
      let old : (ex : Bool) (b : ℕ)
          → holds set.shared ex b (s.todo i) ≡ holds set.shared ex b (unlocked x ∷ es) =
        λ ex b. ap (holds set.shared ex b) e in
      record {
        writer_held = λ b. ground (
          arith,
          v.writer_held b,
          old true b,
          Free-holds true b p,
          total-update n (holds set.shared true b) s.todo i es,
        );
        readers_held = λ b. ground (
          arith,
          v.readers_held b,
          old false b,
          Free-holds false b p,
          total-update n (holds set.shared false b) s.todo i es,
        );
        apart = λ b. ground (arith, v.apart b);
        progs = update-Prog s.todo i es v.progs (inl p);
      }

  total-idle : (ex : Bool) (b m : ℕ) → total m (holds set.shared ex b) (λ i. []) ≡ 0
  total-idle ex b zero = refl
  total-idle ex b (suc m) = omega (arith, total-idle ex b m)

  init-Inv : Inv init
  init-Inv = record {
    writer_held = λ b. omega (arith, total-idle true b n);
    readers_held = λ b. omega (arith, total-idle false b n);
    apart = λ b h. refl;
    progs = λ i. inl idle;
  }

  pub Step-Inv : {s t : System} → Inv s → Step set n s t → Inv t
  Step-Inv {s} v (begin i wrapped c w h e) =
      let p = program-Free set wrapped c w in
      same-Inv s i (program set wrapped c w) h
        (λ ex b. Free-holds ex b p ∙ sym (ap (holds set.shared ex b) e)) (inl p) v
  Step-Inv {s} v (acquire i {x} {es} {l} h e t) = acquire-Inv s i x es l h e t v
  Step-Inv {s} v (release i {x} {es} h e) = given-Inv s i x es h e v
  Step-Inv {s} v (finish i {c} {ret} {es} h e) =
      same-Inv s i es h (λ ex b. sym (ap (holds set.shared ex b) e))
        (behind_call (subst (Prog set) e (v.progs i))) v

  pub Reach-Inv : {s : System} → Reach set n init s → Inv s
  Reach-Inv start = init-Inv
  Reach-Inv (later r st) = Step-Inv (Reach-Inv r) st

  two_inside :
      (s : System) (i j b : ℕ) (x : Bool)
      → Inv s
      → i < n
      → j < n
      → holds set.shared true b (s.todo i) ≡ 1
      → holds set.shared true b (s.todo j) ≡ bit x
      → holds set.shared false b (s.todo j) ≡ bit (not x)
      → i ≢ j
      → ⊥
  two_inside s i j b x v h h' e e' e'' d = ground (
    arith,
    v.writer_held b,
    v.readers_held b,
    v.apart b,
    total_two n (holds set.shared true b) s.todo i j,
    total_one n (holds set.shared true b) s.todo i,
    total_one n (holds set.shared false b) s.todo j,
  )

  -- However the calls of `n` connections interleave: while one is in a call of the wrapped orchestrator
  -- for a key that writes, no other is in a call for that key; and if the set does not let readers
  -- share, the same holds while one is in a Get or GetE for the key.
  pub mutual_exclusion :
      {s : System} (i j : ℕ) (key : Bytes) (c c' : Call) (ret ret' : Outcome) (es es' : List Event)
      → Reach set n init s
      → i < n
      → j < n
      → s.todo i ≡ called c ret ∷ es
      → s.todo j ≡ called c' ret' ∷ es'
      → key_of c ≡ some key
      → key_of c' ≡ some key
      → (is_get c && set.shared) ≡ false
      → i ≡ j
  mutual_exclusion {s} i j key c c' ret ret' es es' reach h h' e e' k k' ex =
      let v = Reach-Inv reach in
      let b = (getlock set key false).place in
      elim (Bool-cases (i == j)) [
        | inl same ↦ ground arith
        | inr other ↦ absurd (
            two_inside s i j b (not (is_get c' && set.shared)) v h h'
              (key-holds true key (v.progs i) e k ∙ ap (λ x. bit (not x)) ex)
              (key-holds true key (v.progs j) e' k') (key-holds false key (v.progs j) e' k')
              (λ q. ground arith))
      ]
