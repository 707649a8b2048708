-- ===== src/Orcas/L1L2Batch/Tests.antt =====
-- The theorems on the batch orchestrator at concrete inputs, over in-memory handlers.
use rend.Prelude.{◌≡◌, refl, [], none}
use rend.Common.{is_key_not_found}
use rend.Orcas.Caches.Agreeing.{AgreeIn}
use rend.Orcas.Inmem.{replace-held, empty-view, empty-AgreeIn}
use rend.Orcas.Writes.{sets}
use rend.Orcas.Samples.{foo, set_foo, silent, memory, cache, fresh, served, get_both}
use rend.Orcas.L1L2Batch.Writes.{set, set_l1}
use rend.Orcas.L1L2Batch.Outcomes.{outcome_of, first, perform, outcome-follow}
use rend.Orcas.L1L2Batch.Reads.{get}
use rend.Orcas.L1L2Batch.Gets.{gathered, get-gathered}
use rend.Orcas.L1L2Batch.Agreement.{start, wrote, got, Run-AgreeIn}
use rend.Orcas.L1L2Batch.Fill.{Run-none}
use rend.Inmem.{empty, read, store}

set_succeeds : (perform memory memory silent (sets set_foo) fresh).0 ≡ none
unfolding set set_l1 rend.Inmem.set rend.Inmem.replace read is_key_not_found
set_succeeds = refl

outcome-follow_example :
    outcome_of memory memory silent (perform memory memory silent (sets set_foo) fresh)
    ≡ first memory memory silent (sets set_foo) fresh (memory.set set_foo empty)
outcome-follow_example = outcome-follow memory memory silent (sets set_foo) fresh

get-gathered_example :
    outcome_of memory memory silent (get memory memory silent get_both served)
    ≡ gathered memory memory silent get_both served
get-gathered_example = get-gathered memory memory silent get_both served

Run-AgreeIn_example :
    AgreeIn cache cache
      (get memory memory silent get_both (perform memory memory silent (sets set_foo) fresh).1).1
Run-AgreeIn_example =
    Run-AgreeIn memory memory cache cache silent (empty-AgreeIn 1000 [] [])
      (got get_both (wrote (sets set_foo) start set_succeeds))

Run-none_example :
    cache.view
      (get memory memory silent get_both (perform memory memory silent (sets set_foo) fresh).1).1.l1
      foo
    ≡ none
Run-none_example =
    Run-none memory memory cache cache silent foo (replace-held 1000) (empty-view 1000 foo)
      (got get_both (wrote (sets set_foo) start set_succeeds))
