-- ===== src/Inmem/Live.antt =====
-- The handler of handlers/inmem/inmem.go seen from outside: at each second, the entries of the
-- map that have not expired.
use rend.Prelude.{
  ℕ, ◌+◌, ◌^◌, ◌<◌, ◌≡◌, refl, Bool, true, false, ◌++◌, Option, none, some, arith, ltb, ◌==◌,
  if◌then◌else◌, Bytes, bytes_eq,
}
use rend.Common.{SetRequest, DeleteRequest, TouchRequest, GatRequest}
use rend.Inmem.{
  Entry, zero_entry, Handler, is_expired, read, store, remove, new_exptime, new_entry, set, add,
  replace, append, prepend, gat, delete, touch,
}

-- An entry as a client can see it at the second `now`.
abbrev pub visible : ℕ → Entry → Option Entry
visible now e = if is_expired now e then none else some e

unfoldable pub live : ℕ → Handler → Bytes → Option Entry
live now h k = elim (h.entries k) [ none ↦ none | some e ↦ visible now e ]

-- A write with `ttl` above 0 is visible up to and including the second `now + ttl`, and one with
-- `ttl` 0 for ever, where the sum does not wrap.
pub is_expired-new_exptime :
    (now ttl later : ℕ) (e : Entry)
    → now + ttl < 2 ^ 32
    → later < 2 ^ 32
    → e.exptime ≡ new_exptime now ttl
    → is_expired later e ≡ (if ttl == 0 then false else ltb (now + ttl) later)
unfolding is_expired new_exptime
is_expired-new_exptime now ttl later e h k eq = ground arith

pub zero_entry-fresh : (now : ℕ) → is_expired now zero_entry ≡ false
unfolding is_expired
zero_entry-fresh now = ground arith

is_expired-value :
    (now : ℕ) (e : Entry) (v : Bytes) → is_expired now (record e { value = v }) ≡ is_expired now e
unfolding is_expired
is_expired-value now e v = refl

pub live-store :
    (now : ℕ) (h : Handler) (k j : Bytes) (e : Entry)
    → live now (store h k e) j ≡ (if bytes_eq k j then visible now e else live now h j)
unfolding live store
live-store now h k j e = ground arith

pub live-remove :
    (now : ℕ) (h : Handler) (k j : Bytes)
    → live now (remove h k) j ≡ (if bytes_eq k j then none else live now h j)
unfolding live remove
live-remove now h k j = ground arith

-- A method that writes to one key.
pub data Command : Type 0 where
  sets adds replaces appends prepends : SetRequest → Command
  gats : GatRequest → Command
  touches : TouchRequest → Command
  deletes : DeleteRequest → Command

abbrev pub after : ℕ → Command → Handler → Handler
after now (sets r) h = (set now r h).1
after now (adds r) h = (add now r h).1
after now (replaces r) h = (replace now r h).1
after now (appends r) h = (append now r h).1
after now (prepends r) h = (prepend now r h).1
after now (gats r) h = (gat now r h).1
after now (touches r) h = (touch now r h).1
after now (deletes r) h = (delete r h).1

abbrev pub target : Command → Bytes
target (sets r) = r.key
target (adds r) = r.key
target (replaces r) = r.key
target (appends r) = r.key
target (prepends r) = r.key
target (gats r) = r.key
target (touches r) = r.key
target (deletes r) = r.key

-- What each method makes of the visible entry of its key, `h` telling for Add whether the map
-- holds the key at all.
abbrev pub effect : ℕ → Command → Bool → Option Entry → Option Entry
effect now (sets r) held old = visible now (new_entry now r)
effect now (adds r) true old = none
effect now (adds r) false old = visible now (new_entry now r)
effect now (replaces r) held none = none
effect now (replaces r) held (some e) = visible now (new_entry now r)
effect now (appends r) held none = none
effect now (appends r) held (some e) = some (record e { value = e.value ++ r.value })
effect now (prepends r) held none = none
effect now (prepends r) held (some e) = some (record e { value = r.value ++ e.value })
effect now (gats r) held none = none
effect now (gats r) held (some e) = visible now (record e { exptime = new_exptime now r.exptime })
effect now (touches r) held none = none
effect now (touches r) held (some e) =
    visible now (record e { exptime = new_exptime now r.exptime })
effect now (deletes r) held old = none

-- Every method changes what is visible at its own key as `effect` says, and at no other key.
pub live-after :
    (now : ℕ) (c : Command) (h : Handler) (j : Bytes)
    → live now (after now c h) j ≡ (
        if bytes_eq (target c) j
        then effect now c (read h (target c)).1 (live now h (target c))
        else live now h j)
unfolding set add replace append prepend gat touch delete read live
live-after now (sets r) h j = live-store now h r.key j _
live-after now (adds r) h j = ground (
  arith,
  zero_entry-fresh now,
  live-store now h r.key j (new_entry now r),
  live-remove now h r.key j,
)
live-after now (replaces r) h j =
    ground (arith, live-store now h r.key j (new_entry now r), live-remove now h r.key j)
live-after now (appends r) h j =
    let e = (read h r.key).0 in
    ground (
      arith,
      live-store now h r.key j (record e { value = e.value ++ r.value }),
      is_expired-value now e (e.value ++ r.value),
      live-remove now h r.key j,
    )
live-after now (prepends r) h j =
    let e = (read h r.key).0 in
    ground (
      arith,
      live-store now h r.key j (record e { value = r.value ++ e.value }),
      is_expired-value now e (r.value ++ e.value),
      live-remove now h r.key j,
    )
live-after now (gats r) h j =
    let e = (read h r.key).0 in
    ground (
      arith,
      live-store now h r.key j (record e { exptime = new_exptime now r.exptime }),
      live-remove now h r.key j,
    )
live-after now (touches r) h j =
    let e = (read h r.key).0 in
    ground (
      arith,
      live-store now h r.key j (record e { exptime = new_exptime now r.exptime }),
      live-remove now h r.key j,
    )
live-after now (deletes r) h j = live-remove now h r.key j
