-- ===== src/Server/L1Only.antt =====
-- server/default.go with the orchestrator of orcas/l1only.go, up to the in-memory handler: what a
-- client's commands come to.
use rend.Prelude.{
  ℕ, suc, ◌+◌, ◌^◌, ◌<◌, ◌≡◌, refl, ap, ◌∙◌, false, [], ◌∷◌, ◌++◌, length, Option, none, some,
  arith, Bytes, bytes_eq_refl,
}
use rend.Common.{Error, Request, RequestType, SetRequest, GetRequest, set_request, get_request}
use rend.Protocol.{Reply}
use rend.Binprot.Commands.{write_set_cmd, write_get_cmd}
use rend.Binprot.Parser.{Parsed, parsed, parse}
use rend.Binprot.Parser.RoundTrip.{Fits, parse-data_cmds}
use rend.Binprot.Parser.Keys.{parse-key_cmds}
use rend.Server.{Orca, again, loop, round, conclude, perform}
use rend.Orcas.{Handler, Responder, World}
use rend.Orcas.Inmem.{inmem}
use rend.Orcas.Writes.{Write}
use rend.Orcas.L1Only.Batches.{outcome, serves_live}
use rend.Orcas.L1Only.Outcomes.{outcome-expected}
use rend.Inmem.{Entry, store, new_entry, is_expired}
use rend.Inmem.Live.{live, live-store, is_expired-new_exptime}
use rend.Inmem.Answers.{response}

-- The methods of orcas/l1only.go.
abbrev pub l1_only : (l1 l2 : Handler) → Responder → Orca (World l1.State l2.State)
l1_only l1 l2 res = record {
  set = rend.Orcas.L1Only.set l1 l2 res;
  add = rend.Orcas.L1Only.add l1 l2 res;
  replace = rend.Orcas.L1Only.replace l1 l2 res;
  append = rend.Orcas.L1Only.append l1 l2 res;
  prepend = rend.Orcas.L1Only.prepend l1 l2 res;
  delete = rend.Orcas.L1Only.delete l1 l2 res;
  touch = rend.Orcas.L1Only.touch l1 l2 res;
  get = rend.Orcas.L1Only.get l1 l2 res;
  get_e = rend.Orcas.L1Only.get_e l1 l2 res;
  gat = rend.Orcas.L1Only.gat l1 l2 res;
  noop = rend.Orcas.L1Only.noop l1 l2 res;
  quit = rend.Orcas.L1Only.quit l1 l2 res;
  version = rend.Orcas.L1Only.version l1 l2 res;
  unknown = rend.Orcas.L1Only.unknown l1 l2 res;
  error = λ r t e w. (rend.Orcas.L1Only.error l1 l2 res r t e w).1;
}

module _ {W : Type 0} (orca : Orca W) where
  conclude-again :
      (r : Request) (t : RequestType) (out : Option Error × W)
      → out.0 ≡ none
      → conclude orca r t out ≡ (again, out.1)
  unfolding conclude
  conclude-again r t (none, w) e = refl
  conclude-again r t (some x, w) e = absurd (ground arith)

  -- A round that goes on leads to the loop on what is left of the stream.
  loop-again :
      (n : ℕ) (s s' : Bytes) (p : Parsed) (w w' : W)
      → parse s ≡ (p, s')
      → round orca p w ≡ (again, w')
      → loop orca (suc n) s w ≡ loop orca n s' w'
  unfolding loop
  loop-again n s s' p w w' e f = rw (e, f) refl

  loop-set :
      (n : ℕ) (s s' : Bytes) (r : SetRequest) (w : W)
      → parse s ≡ (parsed (set_request r) RequestType.set, s')
      → (orca.set r w).0 ≡ none
      → loop orca (suc n) s w ≡ loop orca n s' (orca.set r w).1
  unfolding round perform
  loop-set n s s' r w e ok = loop-again n s s' _ w _ e (conclude-again _ _ _ ok)

  loop-get :
      (n : ℕ) (s s' : Bytes) (r : GetRequest) (w : W)
      → parse s ≡ (parsed (get_request r) RequestType.get, s')
      → (orca.get r w).0 ≡ none
      → loop orca (suc n) s w ≡ loop orca n s' (orca.get r w).1
  unfolding round perform
  loop-get n s s' r w e ok = loop-again n s s' _ w _ e (conclude-again _ _ _ ok)

-- A responder whose writes succeed.
abbrev pub works : Responder
works replies r = none

-- The connection of a client, from the second on at which it is served.
abbrev pub client : ℕ → (l2 : Handler) → Orca (World rend.Inmem.Handler l2.State)
client now l2 = l1_only (inmem now) l2 works

new_entry-live :
    (now : ℕ) (r : SetRequest) (h : rend.Inmem.Handler)
    → now + r.exptime < 2 ^ 32
    → live now (store h r.key (new_entry now r)) r.key ≡ some (new_entry now r)
new_entry-live now r h fits = ground (
  arith,
  live-store now h r.key r.key (new_entry now r),
  bytes_eq_refl r.key,
  is_expired-new_exptime now r.exptime now (new_entry now r) fits (omega arith) refl,
)

-- The state after a Set: the map, and the replies.
set-served :
    (now : ℕ) (l2 : Handler) (r : SetRequest) (w : World rend.Inmem.Handler l2.State)
    → outcome ((client now l2).set r w)
      ≡ (none, store w.l1 r.key (new_entry now r), Reply.set r.opaque r.quiet ∷ w.replies)
unfolding rend.Inmem.set
set-served now l2 r w = outcome-expected (inmem now) l2 works (Write.sets r) w

-- The request that the parser makes of a get command.
abbrev pub get_one_key : Bytes → ℕ → GetRequest
get_one_key key o = record {
  keys = key ∷ [];
  opaques = o ∷ [];
  quiet = false ∷ [];
  noop_opaque = 0;
  noop_end = false;
}

-- A Get of one key whose visible entry is known.
get-served :
    (now : ℕ) (l2 : Handler) (key : Bytes) (o : ℕ) (e : Entry)
    (w : World rend.Inmem.Handler l2.State)
    → live now w.l1 key ≡ some e
    → (((client now l2).get (get_one_key key o) w).0 ≡ none)
      × (((client now l2).get (get_one_key key o) w).1.replies
          ≡ Reply.get_end 0 false ∷ Reply.get (response (some e) key o false) ∷ w.replies)
get-served now l2 key o e w held =
    let (h, done, same) = serves_live now l2 works (get_one_key key o) w refl refl in
    (ap (λ x. x.0) done, ap (λ x. x.2) done ∙ rw held refl)

abbrev pub set_of : Bytes → Bytes → ℕ → ℕ → ℕ → SetRequest
set_of key value flags exptime opaque = record {
  key = key;
  value = value;
  flags = flags;
  exptime = exptime;
  opaque = opaque;
  quiet = false;
}

-- A client that sends a set command with its data and a get command for the same key, at one second
-- and with numbers that fit their fields: within two rounds the loop has sent the success reply to
-- the set and then, with the opaque of the get, the data and the flags that were set, and goes on
-- with what follows on the stream. The orchestrator is L1Only over the in-memory handler, and the
-- writes to the client succeed.
pub loop-set_get :
    (now : ℕ) (l2 : Handler) (key value rest : Bytes) (flags exptime o o' n : ℕ)
    (w : World rend.Inmem.Handler l2.State)
    → Fits key value flags exptime o
    → o' < 2 ^ 32
    → now + exptime < 2 ^ 32
    → (v : World rend.Inmem.Handler l2.State) × (loop
          (client now l2)
          (suc (suc n))
          (write_set_cmd key flags exptime (length value) o
            ++ (value ++ (write_get_cmd key o' ++ rest)))
          w
        ≡ loop (client now l2) n rest v)
      × (v.replies
          ≡ Reply.get_end 0 false
            ∷ Reply.get (record {
              key = key;
              value = value;
              opaque = o';
              flags = flags;
              miss = false;
              quiet = false;
            })
            ∷ Reply.set o false
            ∷ w.replies)
loop-set_get now l2 key value rest flags exptime o o' n w fits fits' alive =
    let r : SetRequest = set_of key value flags exptime o in
    let stored : (outcome ((client now l2).set r w)
        ≡ (none, store w.l1 key (new_entry now r), Reply.set o false ∷ w.replies)) =
      set-served now l2 r w in
    let (ok, answers) =
      get-served now l2 key o' (new_entry now r) ((client now l2).set r w).1
        (ap (λ x. live now x.1 key) stored ∙ new_entry-live now r w.l1 alive) in
    (
      ((client now l2).get (get_one_key key o') ((client now l2).set r w).1).1,
      loop-set (client now l2) (suc n) _ _ r w (parse-data_cmds key value _ flags exptime o fits).0
            (ap (λ x. x.0) stored)
          ∙ loop-get (client now l2) n _ _ (get_one_key key o') _
              (parse-key_cmds key rest o' fits.key_fits fits').0 ok,
      answers
          ∙ ap
              (λ x.
                Reply.get_end 0 false
                ∷ Reply.get (response (some (new_entry now r)) key o' false)
                ∷ x.2)
              stored,
    )
