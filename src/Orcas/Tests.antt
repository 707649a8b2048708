-- ===== src/Orcas/Tests.antt =====
-- The theorems on the orchestrators at concrete inputs, over in-memory handlers.
use rend.Prelude.{◌+◌, ◌≡◌, refl, true, false, [], ◌∷◌, map, none, bytes_eq}
use rend.Common.{no_mem, SetRequest, GetEResponse, is_key_not_found, is_item_not_stored}
use rend.Protocol.{Reply}
use rend.Orcas.{received, failed, Handler}
use rend.Orcas.Caches.Agreeing.{AgreeIn}
use rend.Orcas.Inmem.{empty-AgreeIn}
use rend.Orcas.Writes.{Write}
use rend.Orcas.L1L2.Writes.{set, set_l1}
use rend.Orcas.L1L2.Agreement.{start, success, refuse, refusal, perform, sets, appends, Run-Agree}
use rend.Orcas.L1L2.Outcomes.{outcome, first, outcome-first}
use rend.Orcas.L1L2.Reads.{
  no_keys, get as two_get, l1_loop, l2_loop, l2_hit, get_end, loop_end, query_l2, get_l2,
}
use rend.Orcas.L1L2.Errors.{Ends, told, get-forgets}
use rend.Orcas.L1L2Batch.Gets.{misses}
use rend.Orcas.L1L2.Served.{Sent, Served, get-Sent}
use rend.Orcas.L1L2.Answered.{arrived, opaque_of, asked, answered, get-answered}
use rend.Orcas.Inmem.Complete.{inmem-AnswersAll}
use rend.Orcas.L1Only.{get, get_e}
use rend.Orcas.L1Only.Batches.{
  outcome as batch_outcome, ended, sent, serves_live, batches-outcome, last_error,
}
use rend.Inmem.{
  empty, read, store, new_exptime, is_expired, get_loop, get_one, get_e_loop, get_e_one,
}
use rend.Inmem.Live.{live}
use rend.Inmem.Answers.{response, responses}
use rend.Orcas.Samples.{
  foo, bar, set_foo, silent, memory, cache, fresh, stored, served, append_bar, get_both,
}

set_succeeds : (set memory memory silent set_foo fresh).0 ≡ none
unfolding set set_l1 rend.Inmem.set
set_succeeds = refl

-- An append to a key that neither level holds is refused by L2.
append_refused : refusal memory memory cache cache silent (appends append_bar) stored.l2 ≡ true
unfolding set set_l1 rend.Inmem.set rend.Inmem.append store read bytes_eq is_key_not_found
    is_item_not_stored
append_refused = refl

Run-Agree_example :
    AgreeIn cache cache (perform memory memory cache cache silent (appends append_bar) stored).1
Run-Agree_example =
    Run-Agree memory memory cache cache silent (empty-AgreeIn 1000 [] [])
      (refuse (appends append_bar) (success (sets set_foo) start set_succeeds) append_refused)

outcome-first_example :
    outcome memory memory silent (Write.appends append_bar) stored
    ≡ first memory memory silent
        (Write.appends append_bar)
        stored
        (memory.append append_bar stored.l2)
outcome-first_example = outcome-first memory memory silent (Write.appends append_bar) stored

batches-outcome_example :
    (batch_outcome (get memory memory silent get_both stored) ≡ (
      let (events, s) = memory.get get_both stored.l1 in
      ended get_both (last_error events none) s (sent Reply.get events stored.replies)))
    × (batch_outcome (get_e memory memory silent get_both stored) ≡ (
        let (events, s) = memory.get_e get_both stored.l1 in
        ended get_both (last_error events none) s (sent Reply.get_e events stored.replies)))
batches-outcome_example = batches-outcome memory memory silent get_both stored

serves_live_example :
    (h : rend.Inmem.Handler) × (batch_outcome (get memory memory silent get_both stored)
      ≡ ended get_both none h (
          sent Reply.get
            (map received (
              responses response
                (live 1000 stored.l1)
                (foo ∷ bar ∷ [])
                (4 ∷ 5 ∷ [])
                (true ∷ false ∷ [])))
            stored.replies))
    × (live 1000 h ≡ live 1000 stored.l1)
serves_live_example = serves_live 1000 memory silent get_both stored refl refl

get-Sent_example :
    Sent
      (Served (cache.view served.l1) (cache.view served.l2))
      []
      (two_get memory memory silent get_both served).1.replies
get-Sent_example = get-Sent memory memory silent cache cache get_both served

all_arrive : arrived opaque_of 4 (memory.get get_both served.l1).0 ≡ asked 4 get_both.opaques
unfolding rend.Inmem.remove set set_l1 rend.Inmem.set rend.Inmem.get get_loop get_one is_expired
    store read bytes_eq new_exptime
all_arrive = refl

two_get_succeeds : (two_get memory memory silent get_both served).0 ≡ none
unfolding rend.Inmem.remove set set_l1 two_get l1_loop get_l2 query_l2 l2_loop l2_hit loop_end
    get_end rend.Inmem.set rend.Inmem.get rend.Inmem.get_e get_loop get_one get_e_loop get_e_one
    is_expired store read bytes_eq new_exptime
two_get_succeeds = refl

get-answered_example :
    answered 4 (two_get memory memory silent get_both served).1.replies ≡ 0 + asked 4 (4 ∷ 5 ∷ [])
get-answered_example =
    get-answered memory memory silent 4 get_both served all_arrive
      (inmem-AnswersAll 1000 memory silent 4) two_get_succeeds

-- L2 reports an error before it answers.
abbrev flaky : Handler
flaky = record memory {
  get_e = λ req s. (failed no_mem ∷ (memory.get_e req s).0, (memory.get_e req s).1);
}

abbrev hit_foo : GetEResponse
hit_foo = record {
  key = foo;
  value = 1 ∷ 2 ∷ [];
  opaque = 4;
  flags = 7;
  exptime = 1060;
  miss = false;
  quiet = true;
}

abbrev miss_bar : GetEResponse
miss_bar = record {
  key = bar;
  value = [];
  opaque = 5;
  flags = 0;
  exptime = 0;
  miss = true;
  quiet = false;
}

all_missed : (misses (memory.get get_both served.l1).0 (no_keys get_both)).keys ≡ foo ∷ bar ∷ []
unfolding rend.Inmem.get rend.Inmem.remove get_loop get_one read bytes_eq
all_missed = refl

fails_and_hits :
    (flaky.get_e (misses (memory.get get_both served.l1).0 (no_keys get_both)) served.l2).0
    ≡ failed no_mem ∷ received hit_foo ∷ received miss_bar ∷ []
unfolding set set_l1 rend.Inmem.set rend.Inmem.remove rend.Inmem.get rend.Inmem.get_e get_loop
    get_one get_e_loop get_e_one is_expired store read bytes_eq new_exptime
fails_and_hits = refl

memory_stores : (q : SetRequest) (s : rend.Inmem.Handler) → (memory.set q s).0 ≡ none
unfolding rend.Inmem.set
memory_stores q s = refl

get-forgets_example :
    Ends memory flaky silent get_both
      (told memory flaky silent (failed no_mem ∷ received hit_foo ∷ received miss_bar ∷ []) [])
      (two_get memory flaky silent get_both served)
unfolding rend.Inmem.get rend.Inmem.remove get_loop get_one read bytes_eq
get-forgets_example =
    get-forgets memory flaky silent get_both served foo (bar ∷ []) (failed no_mem ∷ [])
      (received miss_bar ∷ []) hit_foo all_missed fails_and_hits refl (refl, tt) memory_stores
