-- ===== src/Orcas/Locked/Sets.antt =====
-- orcas/locked.go: the lock sets, which are global variables, and the two ways to get at one.
use rend.Prelude.{
  ℕ, ◌+◌, ◌%◌, ◌^◌, ◌<◌, ◌≡◌, ◌≢◌, refl, Bool, Option, none, some, Option-cases, inl, inr, ltb, leb,
  ◌==◌, if◌then◌else◌, arith,
}
use rend.Orcas.Locked.Buckets.{lock_count, lock_count-pow}

-- How many locks a set has, and whether a reader's lock lets other readers in.
pub record LockSet : Type 0 where
  pub count : ℕ
  pub shared : Bool

abbrev pub max_lock_sets : ℕ
max_lock_sets = 1024

-- `curslot`, and the sets that were made.
pub record LockSets : Type 0 where
  pub current : ℕ
  pub sets : ℕ → Option LockSet

abbrev pub no_sets : LockSets
no_sets = record { current = 0; sets = λ slot. none }

-- A slot, the function's own panic, or the panic of an index that is out of range or of
-- a negative length.
pub data Created : Type 0 where
  slot : ℕ → Created
  too_many : Created
  out_of_range : Created
  bad_length : Created

abbrev pub put : (ℕ → Option LockSet) → ℕ → LockSet → ℕ → Option LockSet
put sets n s i = if n == i then some s else sets i

-- `getNewLocks` behind its guard: `make` with its length, and the assignment to the slot.
abbrev pub with_locks : ℕ → Bool → LockSets → Option ℕ → Created × LockSets
with_locks n multiple_readers st none = (bad_length, record st { current = n })
with_locks n multiple_readers st (some count) =
    if leb max_lock_sets n then (out_of_range, record st { current = n }) else (
      slot n,
      record {
        current = n;
        sets = put st.sets n (record { count = count; shared = multiple_readers });
      },
    )

unfoldable pub get_new_locks : Bool → ℕ → LockSets → Created × LockSets
unfolding lock_count
get_new_locks multiple_readers concurrency st =
    let n = (st.current + 1) % 2 ^ 32 in
    if ltb max_lock_sets n
    then (too_many, record st { current = n })
    else with_locks n multiple_readers st (lock_count concurrency)

-- `LockedWithExisting` up to the constructor that it returns: `none` is its panic, and `some none` a
-- slot without locks.
unfoldable pub locked_with_existing : ℕ → LockSets → Option (Option LockSet)
locked_with_existing lockset_id st =
    if ltb st.current lockset_id then none else some (st.sets lockset_id)

-- No set stands in slot 0 or behind the current one.
pub record IsLockSets (st : LockSets) : Type 0 where
  pub first : st.sets 0 ≡ none
  pub later : (i : ℕ) → st.current < i → st.sets i ≡ none

pub no_sets-IsLockSets : IsLockSets no_sets
no_sets-IsLockSets = record { first = refl; later = λ i h. refl }

pub get_new_locks-IsLockSets :
    (multiple_readers : Bool) (concurrency : ℕ) (st : LockSets)
    → IsLockSets st
    → st.current + 1 < 2 ^ 32
    → IsLockSets (get_new_locks multiple_readers concurrency st).1
unfolding get_new_locks
get_new_locks-IsLockSets m c st v small = elim (Option-cases (lock_count c)) [
  | inl e ↦
      rw e (record { first = ground (arith, v.first); later = λ i h. ground (arith, v.later i) })
  | inr (n, e) ↦
      rw e (record { first = ground (arith, v.first); later = λ i h. ground (arith, v.later i) })
]

-- What the call behind `n` calls gives: one of the slots from 1 to 1023, and then the panics.
abbrev pub created : ℕ → Created
created n = if ltb n 1023 then slot (n + 1) else if n == 1023 then out_of_range else too_many

-- While fewer than 2 ^ 32 sets were asked for, the calls of getNewLocks return the slots from 1 to
-- 1023 in order; then one call is an index out of range, and the calls behind it are the panic for too
-- many. No call touches another slot than its own. The slot has no set before, and
-- LockedWithExisting finds there the set of 2 ^ concurrency locks that the call made. The concurrency
-- is below 63; from there on the shift of an int overflows.
pub get_new_locks-created :
    (multiple_readers : Bool) (concurrency i : ℕ) (st : LockSets)
    → IsLockSets st
    → concurrency < 63
    → st.current + 1 < 2 ^ 32
    → st.current + 1 ≢ i
    → let (made, st') = get_new_locks multiple_readers concurrency st in
      let new_set : LockSet = record { count = 2 ^ concurrency; shared = multiple_readers } in
      (made ≡ created st.current)
      × (st'.sets i ≡ st.sets i)
      × (st.sets (st.current + 1) ≡ none)
      × (locked_with_existing (st.current + 1) st'
          ≡ some (if ltb st.current 1023 then some new_set else none))
unfolding get_new_locks locked_with_existing
get_new_locks-created m c i st v low small ne =
    rw (lock_count-pow c low).0 (ground (arith, v.later (st.current + 1)))
