-- ===== src/Orcas/Inmem.antt =====
-- handlers/inmem/inmem.go as the handler of an orchestrator, all of whose calls read the clock at
-- one second, and the laws of a cache. Get and GetE send their responses before they close the
-- two channels. With fewer opaques or quiet flags than keys Go panics, and there are no events here.
pub mod Complete
use mathlib.Core.Path.{subst}
use rend.Prelude.{
  ℕ, ◌≡◌, ◌≢◌, refl, ◌∙◌, inl, inr, Bool, false, List, [], ◌∷◌, map, Option, none, some, arith,
  if◌then◌else◌, Bytes, bytes_eq_iff, All,
}
use rend.Common.{key_exists, SetRequest, GatRequest, GetRequest}
use rend.Orcas.{Event, received, Handler}
use rend.Orcas.Caches.{Item, View, IsCache, OnReceived, Serves, ServesE, ◌⊑◌}
use rend.Orcas.Caches.Agreeing.{AgreeIn}
use rend.Orcas.Metrics.{Metric}
use rend.Protocol.{Reply}
use rend.Inmem.{
  empty, Entry, read, get_one, get_loop, get_e_one, get_e_loop, set, add, replace, append, prepend,
  get, get_e, gat, delete, touch,
}
use rend.Inmem.Live.{
  live, zero_entry-fresh, live-after, sets, adds, replaces, appends, prepends, gats, touches,
  deletes,
}
use rend.Inmem.Answers.{get_one-keeps, get_e_one-keeps}
use rend.Inmem.Refusals.{unless_visible}

-- The events of a batch.
abbrev pub events : {A S : Type 0} → S → Option (List A × S) → List (Event A) × S
events s none = ([], s)
events s (some (rs, s')) = (map received rs, s')

abbrev pub inmem : ℕ → Handler
inmem now = record {
  State = rend.Inmem.Handler;
  set = set now;
  add = add now;
  replace = replace now;
  append = append now;
  prepend = prepend now;
  get = λ r h. events h (get now r h);
  get_e = λ r h. events h (get_e now r h);
  gat = λ r h. (((gat now r h).0, none), (gat now r h).1);
  delete = delete;
  touch = touch now;
}

abbrev pub item : Option Entry → Option Item
item none = none
item (some e) = some (e.value, e.flags)

abbrev pub view : ℕ → rend.Inmem.Handler → View
view now h k = item (live now h k)

-- The responses of a batch, and the map that it leaves, keep what `h` shows.
abbrev Good :
    (now : ℕ)
    → {A : Type 0} → (View → A → Type 0)
    → rend.Inmem.Handler
    → Option (List A × rend.Inmem.Handler)
    → Type 0
Good now P h none = Unit
Good now P h (some (rs, h')) = (live now h' ≡ live now h) × All (P (view now h)) rs

abbrev push :
    {A : Type 0} → A → Option (List A × rend.Inmem.Handler) → Option (List A × rend.Inmem.Handler)
push r none = none
push r (some (rs, h)) = some (r ∷ rs, h)

Good-push :
    (now : ℕ) {A : Type 0} (P : View → A → Type 0) (h h' : rend.Inmem.Handler) (r : A)
    (x : Option (List A × rend.Inmem.Handler))
    → live now h' ≡ live now h
    → P (view now h) r
    → Good now P h' x
    → Good now P h (push r x)
Good-push now P h h' r none e p g = tt
Good-push now P h h' r (some (rs, h'')) e p (f, ps) =
    (f ∙ e, (p, subst (λ v. All (P (λ k. item (v k))) rs) e ps))

get_one-Serves :
    (now : ℕ) (k : Bytes) (o : ℕ) (q : Bool) (h : rend.Inmem.Handler)
    → Serves (view now h) (get_one now k o q h).0
unfolding get_one read live
get_one-Serves now k o q h e = ground arith

get_e_one-Serves :
    (now : ℕ) (k : Bytes) (o : ℕ) (q : Bool) (h : rend.Inmem.Handler)
    → ServesE (view now h) (get_e_one now k o q h).0
unfolding get_e_one read live
get_e_one-Serves now k o q h e = ground arith

get_loop-Good :
    (now : ℕ) (ks : List Bytes) (os : List ℕ) (qs : List Bool) (h : rend.Inmem.Handler)
    → Good now Serves h (get_loop now ks os qs h)
unfolding get_loop
get_loop-Good now [] os qs h = (refl, tt)
get_loop-Good now (k ∷ ks) [] qs h = tt
get_loop-Good now (k ∷ ks) (o ∷ os) [] h = tt
get_loop-Good now (k ∷ ks) (o ∷ os) (q ∷ qs) h =
    Good-push now Serves h (get_one now k o q h).1 _ (get_loop now ks os qs (get_one now k o q h).1)
      (get_one-keeps now h k o q) (get_one-Serves now k o q h)
      (get_loop-Good now ks os qs (get_one now k o q h).1)

get_e_loop-Good :
    (now : ℕ) (ks : List Bytes) (os : List ℕ) (qs : List Bool) (h : rend.Inmem.Handler)
    → Good now ServesE h (get_e_loop now ks os qs h)
unfolding get_e_loop
get_e_loop-Good now [] os qs h = (refl, tt)
get_e_loop-Good now (k ∷ ks) [] qs h = tt
get_e_loop-Good now (k ∷ ks) (o ∷ os) [] h = tt
get_e_loop-Good now (k ∷ ks) (o ∷ os) (q ∷ qs) h =
    Good-push now ServesE h (get_e_one now k o q h).1 _
      (get_e_loop now ks os qs (get_e_one now k o q h).1) (get_e_one-keeps now h k o q)
      (get_e_one-Serves now k o q h) (get_e_loop-Good now ks os qs (get_e_one now k o q h).1)

All-received :
    {A : Type 0} (P : A → Type 0) (rs : List A) → All P rs → All (OnReceived P) (map received rs)
All-received P [] ps = tt
All-received P (r ∷ rs) (p, ps) = (p, All-received P rs ps)

-- What the orchestrator takes from the channels of a good batch.
Good-events :
    (now : ℕ) {A : Type 0} (P : View → A → Type 0) (h : rend.Inmem.Handler)
    (x : Option (List A × rend.Inmem.Handler))
    → Good now P h x
    → (view now (events h x).1 ⊑ view now h) × All (OnReceived (P (view now h))) (events h x).0
Good-events now P h none g = (λ j. inr refl, tt)
Good-events now P h (some (rs, h')) (e, ps) =
    (λ j. inr (rw e refl), All-received (P (view now h)) rs ps)

get-events :
    (now : ℕ) (r : GetRequest) (s : rend.Inmem.Handler)
    → (view now ((inmem now).get r s).1 ⊑ view now s)
      × All (OnReceived (Serves (view now s))) ((inmem now).get r s).0
unfolding get
get-events now r s = Good-events now Serves s _ (get_loop-Good now r.keys r.opaques r.quiet s)

get_e-events :
    (now : ℕ) (r : GetRequest) (s : rend.Inmem.Handler)
    → (view now ((inmem now).get_e r s).1 ⊑ view now s)
      × All (OnReceived (ServesE (view now s))) ((inmem now).get_e r s).0
unfolding get_e
get_e-events now r s = Good-events now ServesE s _ (get_e_loop-Good now r.keys r.opaques r.quiet s)

add-answer :
    (now : ℕ) (r : SetRequest) (s : rend.Inmem.Handler)
    → (add now r s).0 ≡ (if (read s r.key).1 then some key_exists else none)
unfolding add read
add-answer now r s = ground (arith, zero_entry-fresh now)

replace-answer :
    (now : ℕ) (r : SetRequest) (s : rend.Inmem.Handler)
    → (replace now r s).0 ≡ unless_visible (live now s r.key)
unfolding replace read live
replace-answer now r s = ground arith

append-answer :
    (now : ℕ) (r : SetRequest) (s : rend.Inmem.Handler)
    → (append now r s).0 ≡ unless_visible (live now s r.key)
unfolding append read live
append-answer now r s = ground arith

prepend-answer :
    (now : ℕ) (r : SetRequest) (s : rend.Inmem.Handler)
    → (prepend now r s).0 ≡ unless_visible (live now s r.key)
unfolding prepend read live
prepend-answer now r s = ground arith

gat-serves :
    (now : ℕ) (r : GatRequest) (s : rend.Inmem.Handler)
    → (gat now r s).0.miss ≡ false
    → view now s r.key ≡ some ((gat now r s).0.value, (gat now r s).0.flags)
unfolding gat read live
gat-serves now r s e = ground arith

-- At every second, the in-memory handler keeps the laws that the orchestrators rely on, with the
-- data and flags of the entries that have not expired as what it holds.
pub inmem-IsCache : (now : ℕ) → IsCache (inmem now)
inmem-IsCache now = record {
  view = view now;
  set_ok = λ r s ok j. ground (arith, live-after now (sets r) s j);
  add_ok = λ r s ok j. ground (arith, live-after now (adds r) s j, bytes_eq_iff r.key j);
  add_exists = λ r s e j.
      ground (arith, add-answer now r s, live-after now (adds r) s j, bytes_eq_iff r.key j);
  replace_ok = λ r s ok j. ground (arith, live-after now (replaces r) s j, bytes_eq_iff r.key j);
  replace_miss = λ r s e j.
      ground (arith, replace-answer now r s, live-after now (replaces r) s j, bytes_eq_iff r.key j);
  append_ok = λ r s ok j. ground (arith, live-after now (appends r) s j, bytes_eq_iff r.key j);
  append_miss = λ r s e j.
      ground (arith, append-answer now r s, live-after now (appends r) s j, bytes_eq_iff r.key j);
  prepend_ok = λ r s ok j. ground (arith, live-after now (prepends r) s j, bytes_eq_iff r.key j);
  prepend_miss = λ r s e j.
      ground (arith, prepend-answer now r s, live-after now (prepends r) s j, bytes_eq_iff r.key j);
  delete_ok = λ r s ok j. ground (arith, live-after now (deletes r) s j);
  delete_miss = λ r s e j. ground (arith, live-after now (deletes r) s j);
  touch_ok = λ r s ok j. ground (arith, live-after now (touches r) s j, bytes_eq_iff r.key j);
  touch_miss = λ r s e j. ground (arith, live-after now (touches r) s j, bytes_eq_iff r.key j);
  get_keeps = λ r s. (get-events now r s).0;
  get_serves = λ r s. (get-events now r s).1;
  get_e_keeps = λ r s. (get_e-events now r s).0;
  get_e_serves = λ r s. (get_e-events now r s).1;
  gat_keeps = λ r s ok j. ground (arith, live-after now (gats r) s j, bytes_eq_iff r.key j);
  gat_serves = λ r s ok hit. gat-serves now r s hit;
}

-- A Replace that succeeds finds an item.
pub replace-held :
    (now : ℕ) (r : SetRequest) (s : rend.Inmem.Handler)
    → ((inmem now).replace r s).0 ≡ none
    → (inmem-IsCache now).view s r.key ≢ none
unfolding inmem-IsCache
replace-held now r s ok e = ground (arith, replace-answer now r s)

-- The empty map holds nothing.
pub empty-view : (now : ℕ) (k : Bytes) → (inmem-IsCache now).view empty k ≡ none
unfolding inmem-IsCache live
empty-view now k = refl

-- Two empty maps agree.
pub empty-AgreeIn :
    (now : ℕ) (replies : List Reply) (counts : List (Metric × ℕ))
    → AgreeIn
        (inmem-IsCache now)
        (inmem-IsCache now)
        (record { l1 = empty; l2 = empty; replies = replies; counts = counts })
unfolding inmem-IsCache live
empty-AgreeIn now replies counts j = inl refl
