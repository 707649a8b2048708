-- ===== src/Inmem/Answers.antt =====
-- What Get, GetE and Set of handlers/inmem/inmem.go answer, in terms of the visible entries.
use mathlib.Core.Path.{fun_ext}
use rend.Prelude.{
  ℕ, ◌+◌, ◌^◌, ◌<◌, ◌≡◌, refl, ◌∙◌, Bool, true, false, not, ◌||◌, List, [], ◌∷◌, Option, none, some,
  arith, ltb, ◌==◌, if◌then◌else◌, length, Bytes, bytes_eq, bytes_eq_iff,
}
use rend.Common.{SetRequest, GetRequest, GetResponse, GetEResponse}
use rend.Inmem.{
  Entry, Handler, is_expired, read, store, remove, new_entry, set, get_one, get_loop, get,
  get_e_one, get_e_loop, get_e,
}
use rend.Inmem.Live.{live, live-store, live-remove, is_expired-new_exptime}

-- The response to a key whose visible entry is given.
abbrev pub response : Option Entry → Bytes → ℕ → Bool → GetResponse
response none k o q = record { key = k; value = []; opaque = o; flags = 0; miss = true; quiet = q }
response (some e) k o q = record {
  key = k;
  value = e.value;
  opaque = o;
  flags = e.flags;
  miss = false;
  quiet = q;
}

abbrev pub e_response : Option Entry → Bytes → ℕ → Bool → GetEResponse
e_response none k o q = record {
  key = k;
  value = [];
  opaque = o;
  flags = 0;
  exptime = 0;
  miss = true;
  quiet = q;
}
e_response (some e) k o q = record {
  key = k;
  value = e.value;
  opaque = o;
  flags = e.flags;
  exptime = e.exptime;
  miss = false;
  quiet = q;
}

pub get_one-live :
    (now : ℕ) (h : Handler) (k : Bytes) (o : ℕ) (q : Bool)
    → (get_one now k o q h).0 ≡ response (live now h k) k o q
unfolding get_one read live
get_one-live now h k o q = ground arith

-- The test that all methods but Set, Add and Delete begin with.
pub read_missing :
    (now : ℕ) (h : Handler) (k : Bytes)
    → (not (read h k).1 || is_expired now (read h k).0) ≡ true
    → live now h k ≡ none
unfolding read live
read_missing now h k e = ground arith

remove-keeps :
    (now : ℕ) (h : Handler) (k j : Bytes)
    → live now h k ≡ none
    → live now (remove h k) j ≡ live now h j
remove-keeps now h k j e = ground (arith, live-remove now h k j, bytes_eq_iff k j)

get_one-keeps_at :
    (now : ℕ) (h : Handler) (k : Bytes) (o : ℕ) (q : Bool) (j : Bytes)
    → live now (get_one now k o q h).1 j ≡ live now h j
unfolding get_one
get_one-keeps_at now h k o q j = ground (arith, remove-keeps now h k j, read_missing now h k)

pub get_one-keeps :
    (now : ℕ) (h : Handler) (k : Bytes) (o : ℕ) (q : Bool)
    → live now (get_one now k o q h).1 ≡ live now h
get_one-keeps now h k o q = fun_ext (get_one-keeps_at now h k o q)

-- One response for each key of a batch, from one view of the map.
abbrev pub responses {ℓ} :
    {A : Type ℓ}
    → (Option Entry → Bytes → ℕ → Bool → A)
    → (Bytes → Option Entry)
    → List Bytes
    → List ℕ
    → List Bool
    → List A
responses f view [] os qs = []
responses f view (k ∷ ks) [] qs = []
responses f view (k ∷ ks) (o ∷ os) [] = []
responses f view (k ∷ ks) (o ∷ os) (q ∷ qs) = f (view k) k o q ∷ responses f view ks os qs

-- What a batch leaves behind: the answers, and a map in which the same entries are visible.
abbrev pub Answers {ℓ} : {A : Type ℓ} → ℕ → Handler → List A → Option (List A × Handler) → Type ℓ
Answers {A} now h rs result = (h' : Handler) × (result ≡ some (rs, h')) × (live now h' ≡ live now h)

get_loop-Answers :
    (now : ℕ) (keys : List Bytes) (opaques : List ℕ) (quiet : List Bool) (h : Handler)
    → length opaques ≡ length keys
    → length quiet ≡ length keys
    → Answers now h
        (responses response (live now h) keys opaques quiet)
        (get_loop now keys opaques quiet h)
unfolding get_loop
get_loop-Answers now [] opaques quiet h e f = (h, refl, refl)
get_loop-Answers now (k ∷ keys) [] quiet h e f = absurd (omega arith)
get_loop-Answers now (k ∷ keys) (o ∷ os) [] h e f = absurd (omega arith)
get_loop-Answers now (k ∷ keys) (o ∷ os) (q ∷ qs) h e f =
    let (h', done, same) =
      get_loop-Answers now keys os qs (get_one now k o q h).1 (omega arith) (omega arith) in
    (
      h',
      rw (done, get_one-keeps now h k o q, get_one-live now h k o q),
      same ∙ get_one-keeps now h k o q,
    )

pub get_e_one-live :
    (now : ℕ) (h : Handler) (k : Bytes) (o : ℕ) (q : Bool)
    → (get_e_one now k o q h).0 ≡ e_response (live now h k) k o q
unfolding get_e_one read live
get_e_one-live now h k o q = ground arith

get_e_one-keeps_at :
    (now : ℕ) (h : Handler) (k : Bytes) (o : ℕ) (q : Bool) (j : Bytes)
    → live now (get_e_one now k o q h).1 j ≡ live now h j
unfolding get_e_one
get_e_one-keeps_at now h k o q j = ground (arith, remove-keeps now h k j, read_missing now h k)

pub get_e_one-keeps :
    (now : ℕ) (h : Handler) (k : Bytes) (o : ℕ) (q : Bool)
    → live now (get_e_one now k o q h).1 ≡ live now h
get_e_one-keeps now h k o q = fun_ext (get_e_one-keeps_at now h k o q)

get_e_loop-Answers :
    (now : ℕ) (keys : List Bytes) (opaques : List ℕ) (quiet : List Bool) (h : Handler)
    → length opaques ≡ length keys
    → length quiet ≡ length keys
    → Answers now h
        (responses e_response (live now h) keys opaques quiet)
        (get_e_loop now keys opaques quiet h)
unfolding get_e_loop
get_e_loop-Answers now [] opaques quiet h e f = (h, refl, refl)
get_e_loop-Answers now (k ∷ keys) [] quiet h e f = absurd (omega arith)
get_e_loop-Answers now (k ∷ keys) (o ∷ os) [] h e f = absurd (omega arith)
get_e_loop-Answers now (k ∷ keys) (o ∷ os) (q ∷ qs) h e f =
    let (h', done, same) =
      get_e_loop-Answers now keys os qs (get_e_one now k o q h).1 (omega arith) (omega arith) in
    (
      h',
      rw (done, get_e_one-keeps now h k o q, get_e_one-live now h k o q),
      same ∙ get_e_one-keeps now h k o q,
    )

-- A batch with as many opaques and quiet flags as keys does not panic: Get and GetE send one
-- response for each key, in order, all from the entries visible at the start; each response
-- echoes its key, opaque and quiet flag, is a miss exactly if no entry is visible, and otherwise
-- carries the entry's data and flags (GetE its expiry too). Neither changes what is visible.
pub get-Answers :
    (now : ℕ) (cmd : GetRequest) (h : Handler)
    → length cmd.opaques ≡ length cmd.keys
    → length cmd.quiet ≡ length cmd.keys
    → Answers now h (responses response (live now h) cmd.keys cmd.opaques cmd.quiet) (get now cmd h)
      × Answers now h
          (responses e_response (live now h) cmd.keys cmd.opaques cmd.quiet)
          (get_e now cmd h)
unfolding get get_e
get-Answers now cmd h e f = (
  get_loop-Answers now cmd.keys cmd.opaques cmd.quiet h e f,
  get_e_loop-Answers now cmd.keys cmd.opaques cmd.quiet h e f,
)

-- After a Set at the second `now`, a Get of the same key at the second `later` answers with the
-- data and flags that were set while the item lives: for ever if its expiry is 0, and otherwise
-- up to and including `now` plus the expiry. It misses from then on. A Get of another key answers
-- what it would have answered without the Set. Times stay below 2 ^ 32.
pub get_one-set :
    (now later : ℕ) (cmd : SetRequest) (h : Handler) (j : Bytes) (o : ℕ) (q : Bool)
    → now + cmd.exptime < 2 ^ 32
    → later < 2 ^ 32
    → (get_one later j o q (set now cmd h).1).0 ≡ (
        if bytes_eq cmd.key j
        then (if cmd.exptime == 0
            then response (some (new_entry now cmd)) j o q
            else if ltb (now + cmd.exptime) later
            then response none j o q
            else response (some (new_entry now cmd)) j o q)
        else (get_one later j o q h).0)
unfolding set
get_one-set now later cmd h j o q fits fits' = ground (
  arith,
  get_one-live later (store h cmd.key (new_entry now cmd)) j o q,
  get_one-live later h j o q,
  live-store later h cmd.key j (new_entry now cmd),
  is_expired-new_exptime now cmd.exptime later (new_entry now cmd) fits fits' refl,
)
