-- ===== src/Inmem/Tests.antt =====
-- Runs of the in-memory handler, and its theorems at concrete inputs.
use rend.Prelude.{◌≡◌, refl, true, false, [], ◌∷◌, none, some, Bytes, bytes_eq, if◌then◌else◌}
use rend.Common.{key_exists, SetRequest, GetRequest, TouchRequest, GatRequest}
use rend.Inmem.{Handler, empty, is_expired, read, store, new_exptime, set, add, get_one, get, get_e}
use rend.Inmem.Live.{appends, live, after, effect, target, live-after}
use rend.Inmem.Answers.{response, e_response, responses, Answers, get-Answers}
use rend.Inmem.Refusals.{add_removes}

abbrev foo : Bytes
foo = b'f' ∷ b'o' ∷ b'o' ∷ []

abbrev bar : Bytes
bar = b'b' ∷ b'a' ∷ b'r' ∷ []

abbrev set_foo : SetRequest
set_foo = record {
  key = foo;
  value = 1 ∷ 2 ∷ [];
  flags = 7;
  exptime = 60;
  opaque = 0;
  quiet = false;
}

abbrev table : Handler
table = (set 1000 set_foo empty).1

abbrev touch_foo : TouchRequest
touch_foo = record { key = foo; exptime = 5; opaque = 3; quiet = false }

abbrev gat_foo : GatRequest
gat_foo = record { key = foo; exptime = 5; opaque = 3; quiet = false }

abbrev get_both : GetRequest
get_both = record {
  keys = foo ∷ bar ∷ [];
  opaques = 4 ∷ 5 ∷ [];
  quiet = true ∷ false ∷ [];
  noop_opaque = 0;
  noop_end = false;
}

-- The last second at which the entry is visible, and the next one.
lives : (live 1060 table foo ≡ some (record { exptime = 1060; flags = 7; value = 1 ∷ 2 ∷ [] }))
unfolding live set store new_exptime is_expired bytes_eq
lives = refl

lapses : live 1061 table foo ≡ none
unfolding live set store new_exptime is_expired bytes_eq
lapses = refl

live-after_example : live 1010 (after 1010 (appends set_foo) table) foo ≡ (
    if bytes_eq (target (appends set_foo)) foo
    then effect 1010
        (appends set_foo)
        (read table (target (appends set_foo))).1
        (live 1010 table (target (appends set_foo)))
    else live 1010 table foo)
live-after_example = live-after 1010 (appends set_foo) table foo

get-Answers_example :
    Answers 1010 table
      (responses response (live 1010 table) (foo ∷ bar ∷ []) (4 ∷ 5 ∷ []) (true ∷ false ∷ []))
      (get 1010 get_both table)
    × Answers 1010 table
        (responses e_response (live 1010 table) (foo ∷ bar ∷ []) (4 ∷ 5 ∷ []) (true ∷ false ∷ []))
        (get_e 1010 get_both table)
get-Answers_example = get-Answers 1010 get_both table refl refl

table_holds : (read table foo).1 ≡ true
unfolding read set store bytes_eq
table_holds = refl

add_removes_example :
    ((add 1010 set_foo table).0 ≡ some key_exists)
    × ((get_one 1010 foo 9 false (add 1010 set_foo table).1).0 ≡ response none foo 9 false)
    × ((add 1010 set_foo (add 1010 set_foo table).1).0 ≡ none)
add_removes_example = add_removes 1010 set_foo table 9 false table_holds
