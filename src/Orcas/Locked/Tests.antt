-- ===== src/Orcas/Locked/Tests.antt =====
-- The theorems on the locking orchestrator at concrete inputs.
use rend.Prelude.{ℕ, ◌^◌, ◌<◌, ◌≡◌, refl, true, false, List, [], ◌∷◌, none, some, arith}
use rend.Server.L1Only.{client}
use rend.Orcas.{World}
use rend.Orcas.Samples.{foo, set_foo, memory, stored, get_both}
use rend.Inmem.Live.{live}
use rend.Orcas.Locked.Sets.{
  LockSet, no_sets, no_sets-IsLockSets, created, get_new_locks, locked_with_existing,
  get_new_locks-created,
}
use rend.Orcas.Locked.Calls.{returned, PanickingOrca, sets, gets, perform}
use rend.Orcas.Locked.Methods.{
  Section, Event, locked, unlocked, called, Traced, getlock, getlock-place, guarded, locked_orca,
  get,
}
use rend.Orcas.Locked.Runs.{onto, Expected, result, perform-Expected}
use rend.Orcas.Locked.Reads.{calm, answers, get-answers}
use rend.Orcas.Locked.Threads.{
  Lock, update, System, init, taken, Step, Reach, start, later, begin, acquire,
}
use rend.Orcas.Locked.Threads.Invariant.{mutual_exclusion}
use rend.Orcas.Locked.Threads.Progress.{Idle, calls_end}

abbrev sixteen : LockSet
sixteen = record { count = 2 ^ 4; shared = true }

get_new_locks-created_example :
    ((get_new_locks true 4 no_sets).0 ≡ created 0)
    × ((get_new_locks true 4 no_sets).1.sets 5 ≡ none)
    × (no_sets.sets 1 ≡ none)
    × (locked_with_existing 1 (get_new_locks true 4 no_sets).1 ≡ some (some sixteen))
get_new_locks-created_example =
    get_new_locks-created true 4 5 no_sets no_sets-IsLockSets (omega arith) (omega arith)
      (omega arith)

getlock-place_example :
    ((getlock sixteen foo true).place ≡ (getlock sixteen foo false).place)
    × ((getlock sixteen foo false).place < 2 ^ 4)
getlock-place_example = getlock-place sixteen foo (omega arith)

abbrev traced : Traced (World memory.State memory.State)
traced = record { world = stored; events = [] }

perform-Expected_example :
    let out = perform (locked_orca sixteen (calm (client 1000 memory))) (gets get_both) traced in
    (es : List Event) × (x : Expected sixteen (gets get_both) es) × (out.1.events ≡ onto es [])
    × (out.0 ≡ result sixteen (gets get_both) es x)
perform-Expected_example =
    perform-Expected sixteen (calm (client 1000 memory)) (gets get_both) traced

get-answers_example :
    let (ret, t') = get sixteen (calm (client 1000 memory)) get_both traced in
    (ret ≡ returned none)
    × (live 1000 t'.world.l1 ≡ live 1000 stored.l1)
    × (t'.world.replies
        ≡ answers
            (live 1000 stored.l1)
            get_both
            get_both.keys
            get_both.opaques
            get_both.quiet
            stored.replies)
get-answers_example = get-answers 1000 memory sixteen get_both traced refl refl

-- Two connections, the first of which is in a Set.
abbrev section : Section
section = getlock sixteen foo false

abbrev todo : List Event
todo = called (sets set_foo) (returned none) ∷ unlocked section ∷ []

abbrev begun : System
begun = record init { todo = update init.todo 0 (locked section ∷ todo) }

abbrev held : Lock
held = record { writer = true; readers = 0 }

abbrev writing : System
writing = taken sixteen 2 begun 0 section todo held

-- A wrapped orchestrator whose calls all return nil.
abbrev nil_orca : PanickingOrca (Unit {0})
nil_orca = record {
  set = λ r w. (returned none, w);
  add = λ r w. (returned none, w);
  replace = λ r w. (returned none, w);
  append = λ r w. (returned none, w);
  prepend = λ r w. (returned none, w);
  delete = λ r w. (returned none, w);
  touch = λ r w. (returned none, w);
  get = λ r w. (returned none, w);
  get_e = λ r w. (returned none, w);
  gat = λ r w. (returned none, w);
  noop = λ r w. (returned none, w);
  quit = λ r w. (returned none, w);
  version = λ r w. (returned none, w);
  unknown = λ w. (returned none, w);
  error = λ r t e w. w;
}

begun-Step : Step sixteen 2 init begun
unfolding locked_orca guarded
begun-Step = begin 0 nil_orca (sets set_foo) tt (omega arith) refl

writing-Reach : Reach sixteen 2 init writing
unfolding getlock
writing-Reach = later (later start begun-Step) (acquire 0 (omega arith) refl refl)

mutual_exclusion_example : ◌≡◌ {A = ℕ} 0 0
mutual_exclusion_example =
    mutual_exclusion sixteen 2 0 0 foo (sets set_foo) (sets set_foo) (returned none) (returned none)
      (unlocked section ∷ []) (unlocked section ∷ []) writing-Reach (omega arith) (omega arith) refl
      refl refl refl refl

calls_end_example : (t : System) × Reach sixteen 2 writing t × Idle sixteen 2 t
calls_end_example = calls_end sixteen 2 writing-Reach
