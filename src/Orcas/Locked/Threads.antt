-- ===== src/Orcas/Locked/Threads.antt =====
-- orcas/locked.go: the calls of several connections at once on the locks of one set (sync.Mutex and
-- sync.RWMutex, whose documented behaviour is `take_lock` and `give_lock`). What a connection does
-- next are the events of a run of its method in Methods, over a wrapped orchestrator of any kind: what
-- the wrapped calls come to may depend on the others in any way.
-- `take_lock` lets a reader in while a writer waits, too: Go has no interleaving that is not here.
pub mod Programs
pub mod Totals
pub mod Holders
pub mod Invariant
pub mod Progress
use rend.Prelude.{
  ℕ, ◌+◌, ◌-◌, ◌<◌, ◌≡◌, Bool, true, false, not, ◌&&◌, List, [], ◌∷◌, Option, none, some, ◌==◌,
  if◌then◌else◌,
}
use rend.Orcas.Locked.Sets.{LockSet}
use rend.Orcas.Locked.Calls.{Outcome, PanickingOrca, Call, perform}
use rend.Orcas.Locked.Methods.{
  Mode, read, write, Section, Event, locked, unlocked, called, Traced, locked_orca,
}
use rend.Orcas.Locked.Runs.{onto}

-- One lock: whether a writer holds it, and how many readers do.
pub record Lock : Type 0 where
  pub writer : Bool
  pub readers : ℕ

-- A set whose readers do not share takes the same mutex for both modes.
abbrev pub exclusive : Bool → Mode → Bool
exclusive shared write = true
exclusive shared read = not shared

-- `Lock`, where it does not have to wait, and `Unlock`, for an exclusive and a reader's lock.
abbrev pub take_lock : Bool → Lock → Option Lock
take_lock true l =
    if not l.writer && l.readers == 0 then some (record { writer = true; readers = 0 }) else none
take_lock false l = if l.writer then none else some (record l { readers = l.readers + 1 })

abbrev pub give_lock : Bool → Lock → Lock
give_lock true l = record l { writer = false }
give_lock false l = record l { readers = l.readers - 1 }

abbrev pub update {ℓ} : {A : Type ℓ} → (ℕ → A) → ℕ → A → ℕ → A
update f i a j = if i == j then a else f j

-- The locks by their places, and what each connection has still to do.
pub record System : Type 0 where
  pub locks : ℕ → Lock
  pub todo : ℕ → List Event

abbrev pub init : System
init = record { locks = λ b. record { writer = false; readers = 0 }; todo = λ i. [] }

-- The events of a method's run, in order.
abbrev pub program : {W : Type 0} → LockSet → PanickingOrca W → Call → W → List Event
program set wrapped c w =
    onto (perform (locked_orca set wrapped) c (record { world = w; events = [] })).1.events []

module _ (set : LockSet) (n : ℕ) where
  abbrev pub taken : System → ℕ → Section → List Event → Lock → System
  taken s i x es l = record { locks = update s.locks x.place l; todo = update s.todo i es }

  abbrev pub given : System → ℕ → Section → List Event → System
  given s i x es = record {
    locks = update s.locks x.place (give_lock (exclusive set.shared x.mode) (s.locks x.place));
    todo = update s.todo i es;
  }

  -- A connection begins a call, takes a lock, gives one back, or comes to the end of a wrapped call.
  -- While the wrapped call stands next, the connection is in it.
  pub data Step (s : System) : System → Type 1 where
    begin :
        (i : ℕ) {W : Type 0} (wrapped : PanickingOrca W) (c : Call) (w : W)
        → i < n
        → s.todo i ≡ []
        → Step s (record s { todo = update s.todo i (program set wrapped c w) })
    acquire :
        (i : ℕ) {x : Section} {es : List Event} {l : Lock}
        → i < n
        → s.todo i ≡ locked x ∷ es
        → take_lock (exclusive set.shared x.mode) (s.locks x.place) ≡ some l
        → Step s (taken s i x es l)
    release :
        (i : ℕ) {x : Section} {es : List Event}
        → i < n
        → s.todo i ≡ unlocked x ∷ es
        → Step s (given s i x es)
    finish :
        (i : ℕ) {c : Call} {ret : Outcome} {es : List Event}
        → i < n
        → s.todo i ≡ called c ret ∷ es
        → Step s (record s { todo = update s.todo i es })

  pub data Reach (s : System) : System → Type 1 where
    start : Reach s s
    later : {t u : System} → Reach s t → Step t u → Reach s u
