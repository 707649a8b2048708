-- ===== src/Inmem.antt =====
-- handlers/inmem/inmem.go: the map-backed handler. The Go map is a function from keys to entries
-- that are there or not; the mutex makes each method one step. `now` is the Unix time that the
-- method reads from the clock (every reading of one call gives the same second), before its
-- conversion to uint32. A slice `append` is the concatenation: the map keeps the new header only.
pub mod Live
pub mod Answers
pub mod Refusals
mod Tests
use rend.Prelude.{
  ℕ, ◌+◌, ◌%◌, ◌^◌, Bool, true, false, not, ◌&&◌, ◌||◌, List, [], ◌∷◌, ◌++◌, Option, none, some,
  ltb, ◌==◌, if◌then◌else◌, Bytes, bytes_eq,
}
use rend.Common.{
  Error, key_not_found, key_exists, SetRequest, GetRequest, DeleteRequest, TouchRequest, GatRequest,
  GetResponse, GetEResponse,
}

pub record Entry : Type 0 where
  pub exptime : ℕ
  pub flags : ℕ
  pub value : Bytes

-- What a Go map read gives on a missing key.
abbrev pub zero_entry : Entry
zero_entry = record { exptime = 0; flags = 0; value = [] }

abbrev pub u32 : ℕ → ℕ
u32 n = n % 2 ^ 32

unfoldable pub is_expired : ℕ → Entry → Bool
is_expired now e = not (e.exptime == 0) && ltb e.exptime (u32 now)

-- The handler's state: the map.
pub record Handler : Type 0 where
  pub entries : Bytes → Option Entry

abbrev pub empty : Handler
empty = record { entries = λ k. none }

-- `e, ok := h.data[key]`
unfoldable pub read : Handler → Bytes → Entry × Bool
read h k = elim (h.entries k) [ none ↦ (zero_entry, false) | some e ↦ (e, true) ]

-- `h.data[key] = e`
unfoldable pub store : Handler → Bytes → Entry → Handler
store h k e = record { entries = λ j. if bytes_eq k j then some e else h.entries j }

-- `delete(h.data, key)`
unfoldable pub remove : Handler → Bytes → Handler
remove h k = record { entries = λ j. if bytes_eq k j then none else h.entries j }

-- The expiry of a newly written entry.
unfoldable pub new_exptime : ℕ → ℕ → ℕ
new_exptime now exptime = if ltb 0 exptime then u32 (u32 now + exptime) else 0

-- The struct literal that Set, Add and Replace store.
abbrev pub new_entry : ℕ → SetRequest → Entry
new_entry now cmd = record {
  exptime = new_exptime now cmd.exptime;
  flags = cmd.flags;
  value = cmd.value;
}

unfoldable pub set : ℕ → SetRequest → Handler → Option Error × Handler
set now cmd h = (none, store h cmd.key (new_entry now cmd))

unfoldable pub add : ℕ → SetRequest → Handler → Option Error × Handler
add now cmd h =
    let (e, found) = read h cmd.key in
    if found || is_expired now e
    then (some key_exists, remove h cmd.key)
    else (none, store h cmd.key (new_entry now cmd))

unfoldable pub replace : ℕ → SetRequest → Handler → Option Error × Handler
replace now cmd h =
    let (e, found) = read h cmd.key in
    if not found || is_expired now e
    then (some key_not_found, remove h cmd.key)
    else (none, store h cmd.key (new_entry now cmd))

unfoldable pub append : ℕ → SetRequest → Handler → Option Error × Handler
append now cmd h =
    let (e, found) = read h cmd.key in
    if not found || is_expired now e
    then (some key_not_found, remove h cmd.key)
    else (none, store h cmd.key (record e { value = e.value ++ cmd.value }))

unfoldable pub prepend : ℕ → SetRequest → Handler → Option Error × Handler
prepend now cmd h =
    let (e, found) = read h cmd.key in
    if not found || is_expired now e
    then (some key_not_found, remove h cmd.key)
    else (none, store h cmd.key (record e { value = cmd.value ++ e.value }))

-- One round of the loop in `Get`, for the key `bk` with its opaque and its quiet flag.
unfoldable pub get_one : ℕ → Bytes → ℕ → Bool → Handler → GetResponse × Handler
get_one now bk opaque quiet h =
    let (e, found) = read h bk in
    if not found || is_expired now e
    then (
      record { key = bk; value = []; opaque = opaque; flags = 0; miss = true; quiet = quiet },
      remove h bk,
    )
    else (
      record {
        key = bk;
        value = e.value;
        opaque = opaque;
        flags = e.flags;
        miss = false;
        quiet = quiet;
      },
      h,
    )

-- The loop over the keys. `cmd.Quiet[idx]` and `cmd.Opaques[idx]` panic out of range: `none`.
unfoldable pub get_loop :
    ℕ → List Bytes → List ℕ → List Bool → Handler → Option (List GetResponse × Handler)
get_loop now [] opaques quiet h = some ([], h)
get_loop now (bk ∷ keys) [] quiet h = none
get_loop now (bk ∷ keys) (o ∷ opaques) [] h = none
get_loop now (bk ∷ keys) (o ∷ opaques) (q ∷ quiet) h =
    let (r, h') = get_one now bk o q h in
    elim (get_loop now keys opaques quiet h') [ none ↦ none | some (rs, h'') ↦ some (r ∷ rs, h'') ]

-- The responses in the order in which they are sent. The error channel is closed unused.
unfoldable pub get : ℕ → GetRequest → Handler → Option (List GetResponse × Handler)
get now cmd h = get_loop now cmd.keys cmd.opaques cmd.quiet h

unfoldable pub get_e_one : ℕ → Bytes → ℕ → Bool → Handler → GetEResponse × Handler
get_e_one now bk opaque quiet h =
    let (e, found) = read h bk in
    if not found || is_expired now e
    then (
      record {
        key = bk;
        value = [];
        opaque = opaque;
        flags = 0;
        exptime = 0;
        miss = true;
        quiet = quiet;
      },
      remove h bk,
    )
    else (
      record {
        key = bk;
        value = e.value;
        opaque = opaque;
        flags = e.flags;
        exptime = e.exptime;
        miss = false;
        quiet = quiet;
      },
      h,
    )

unfoldable pub get_e_loop :
    ℕ → List Bytes → List ℕ → List Bool → Handler → Option (List GetEResponse × Handler)
get_e_loop now [] opaques quiet h = some ([], h)
get_e_loop now (bk ∷ keys) [] quiet h = none
get_e_loop now (bk ∷ keys) (o ∷ opaques) [] h = none
get_e_loop now (bk ∷ keys) (o ∷ opaques) (q ∷ quiet) h =
    let (r, h') = get_e_one now bk o q h in
    elim (get_e_loop now keys opaques quiet h') [
      | none ↦ none
      | some (rs, h'') ↦ some (r ∷ rs, h'')
    ]

unfoldable pub get_e : ℕ → GetRequest → Handler → Option (List GetEResponse × Handler)
get_e now cmd h = get_e_loop now cmd.keys cmd.opaques cmd.quiet h

unfoldable pub gat : ℕ → GatRequest → Handler → GetResponse × Handler
gat now cmd h =
    let (e, found) = read h cmd.key in
    if not found || is_expired now e
    then (
      record {
        key = cmd.key;
        value = [];
        opaque = cmd.opaque;
        flags = 0;
        miss = true;
        quiet = false;
      },
      remove h cmd.key,
    )
    else (
      record {
        key = cmd.key;
        value = e.value;
        opaque = cmd.opaque;
        flags = e.flags;
        miss = false;
        quiet = false;
      },
      store h cmd.key (record e { exptime = new_exptime now cmd.exptime }),
    )

unfoldable pub delete : DeleteRequest → Handler → Option Error × Handler
delete cmd h = (none, remove h cmd.key)

unfoldable pub touch : ℕ → TouchRequest → Handler → Option Error × Handler
touch now cmd h =
    let (e, found) = read h cmd.key in
    if not found || is_expired now e
    then (some key_not_found, remove h cmd.key)
    else (none, store h cmd.key (record e { exptime = new_exptime now cmd.exptime }))
