-- ===== src/Inmem/Refusals.antt =====
-- When the methods of handlers/inmem/inmem.go refuse, in terms of the visible entries.
use rend.Prelude.{ℕ, ◌≡◌, refl, Bool, true, false, Option, none, some, arith, Bytes, bytes_eq_refl}
use rend.Common.{Error, key_not_found, key_exists, SetRequest, TouchRequest, GatRequest}
use rend.Inmem.{
  Entry, zero_entry, Handler, read, remove, add, replace, append, prepend, gat, touch, get_one,
}
use rend.Inmem.Live.{live, live-remove, zero_entry-fresh}
use rend.Inmem.Answers.{response, get_one-live}

-- The error of a method that can refuse, from whether its key is visible.
abbrev pub unless_visible : Option Entry → Option Error
unless_visible none = some key_not_found
unless_visible (some e) = none

-- Replace, Append, Prepend and Touch succeed exactly if an entry of the key is visible, and answer
-- `key_not_found` otherwise; GAT responds with the visible entry (the one before its touch), or
-- with a miss, and leaves the map that Touch leaves.
pub refusals :
    (now : ℕ) (r : SetRequest) (t : TouchRequest) (g : GatRequest) (h : Handler)
    → g.key ≡ t.key
    → g.exptime ≡ t.exptime
    → ((replace now r h).0 ≡ unless_visible (live now h r.key))
      × ((append now r h).0 ≡ unless_visible (live now h r.key))
      × ((prepend now r h).0 ≡ unless_visible (live now h r.key))
      × ((touch now t h).0 ≡ unless_visible (live now h t.key))
      × ((gat now g h).0 ≡ response (live now h g.key) g.key g.opaque false)
      × ((gat now g h).1 ≡ (touch now t h).1)
unfolding replace append prepend touch gat read live
refusals now r t g h e f =
    (ground arith, ground arith, ground arith, ground arith, ground arith, ground arith)

read-remove : (h : Handler) (k : Bytes) → read (remove h k) k ≡ (zero_entry, false)
unfolding read remove
read-remove h k = ground (arith, bytes_eq_refl k)

get_one-remove :
    (now : ℕ) (h : Handler) (k : Bytes) (o : ℕ) (q : Bool)
    → (get_one now k o q (remove h k)).0 ≡ response none k o q
get_one-remove now h k o q =
    ground (arith, get_one-live now (remove h k) k o q, live-remove now h k k, bytes_eq_refl k)

add_held :
    (now : ℕ) (cmd : SetRequest) (h : Handler)
    → (read h cmd.key).1 ≡ true
    → add now cmd h ≡ (some key_exists, remove h cmd.key)
unfolding add
add_held now cmd h held = rw held

add_fresh :
    (now : ℕ) (cmd : SetRequest) (h : Handler)
    → read h cmd.key ≡ (zero_entry, false)
    → (add now cmd h).0 ≡ none
unfolding add
add_fresh now cmd h e = rw (e, zero_entry-fresh now)

-- Add of a key that the map holds, expired or not, is refused with `key_exists`, and removes the
-- entry that was there: a Get that follows at once misses, and a second Add succeeds.
pub add_removes :
    (now : ℕ) (cmd : SetRequest) (h : Handler) (o : ℕ) (q : Bool)
    → (read h cmd.key).1 ≡ true
    → ((add now cmd h).0 ≡ some key_exists)
      × ((get_one now cmd.key o q (add now cmd h).1).0 ≡ response none cmd.key o q)
      × ((add now cmd (add now cmd h).1).0 ≡ none)
add_removes now cmd h o q held = rw (add_held now cmd h held) (
  refl,
  get_one-remove now h cmd.key o q,
  add_fresh now cmd (remove h cmd.key) (read-remove h cmd.key),
)
