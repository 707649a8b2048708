-- ===== src/Std.antt =====
-- handlers/memcached/std: the handler that passes each request on to memcached (handler.go), and the
-- reading of its responses (localComm.go). The counters of bytes are left out.
pub mod Writes
pub mod Reads
mod Tests
use rend.Prelude.{
  ℕ, ◌%◌, ◌^◌, Bool, true, false, List, [], ◌∷◌, Option, none, some, length, if◌then◌else◌, Bytes,
}
use rend.Common.{
  Error, is_key_not_found, SetRequest, GetRequest, DeleteRequest, TouchRequest, GatRequest,
  GetResponse, GetEResponse,
}
use rend.Binprot.Wire.{Result, ok, err, stuck, read_full}
use rend.Binprot.Parser.{sub32}
use rend.Binprot.Commands.{
  write_set_cmd, write_add_cmd, write_replace_cmd, write_append_cmd, write_prepend_cmd,
  write_get_cmd, write_get_e_cmd, write_gat_cmd, write_delete_cmd, write_touch_cmd,
}
use rend.Binprot.Headers.{ResponseHeader, read_response_header}
use rend.Binprot.Status.{decode_error}
use rend.Orcas.{Event, received, failed, Handler}
use rend.Conn.{
  Conn, Peer, C, ◌>>=◌, ◌>>◌, return, error_of, write, flush, reading, discard, discard_error,
  expect_success, read_number,
}

-- `uint32(len(data))`
abbrev pub data_size : Bytes → ℕ
data_size value = length value % 2 ^ 32

-- Data, flags and expiration time.
pub record Local : Type 0 where
  pub value : Bytes
  pub flags : ℕ
  pub exptime : ℕ

abbrev pub hit : Bytes → ℕ → Bool → Local → GetResponse
hit key o q l = record {
  key = key;
  value = l.value;
  opaque = o;
  flags = l.flags;
  miss = false;
  quiet = q;
}

abbrev pub miss : Bytes → ℕ → Bool → GetResponse
miss key o q = record { key = key; value = []; opaque = o; flags = 0; miss = true; quiet = q }

abbrev pub hit_e : Bytes → ℕ → Bool → Local → GetEResponse
hit_e key o q l = record {
  key = key;
  value = l.value;
  opaque = o;
  flags = l.flags;
  exptime = l.exptime;
  miss = false;
  quiet = q;
}

abbrev pub miss_e : Bytes → ℕ → Bool → GetEResponse
miss_e key o q = record {
  key = key;
  value = [];
  opaque = o;
  flags = 0;
  exptime = 0;
  miss = true;
  quiet = q;
}

-- The empty response beside an error.
abbrev pub no_response : GetResponse
no_response = record { key = []; value = []; opaque = 0; flags = 0; miss = false; quiet = false }

module _ {S : Type 0} (peer : Peer S) where
  unfoldable pub handle_set_common : Bytes → C S (Unit {0})
  unfolding expect_success
  handle_set_common value = do write value; flush peer; expect_success; return tt

  unfoldable pub set : SetRequest → C S (Unit {0})
  unfolding handle_set_common
  set cmd = do
    write (write_set_cmd cmd.key cmd.flags cmd.exptime (data_size cmd.value) 0)
    handle_set_common cmd.value

  unfoldable pub add : SetRequest → C S (Unit {0})
  unfolding handle_set_common
  add cmd = do
    write (write_add_cmd cmd.key cmd.flags cmd.exptime (data_size cmd.value) 0)
    handle_set_common cmd.value

  unfoldable pub replace : SetRequest → C S (Unit {0})
  unfolding handle_set_common
  replace cmd = do
    write (write_replace_cmd cmd.key cmd.flags cmd.exptime (data_size cmd.value) 0)
    handle_set_common cmd.value

  unfoldable pub append : SetRequest → C S (Unit {0})
  unfolding handle_set_common
  append cmd = do
    write (write_append_cmd cmd.key cmd.flags cmd.exptime (data_size cmd.value) 0)
    handle_set_common cmd.value

  unfoldable pub prepend : SetRequest → C S (Unit {0})
  unfolding handle_set_common
  prepend cmd = do
    write (write_prepend_cmd cmd.key cmd.flags cmd.exptime (data_size cmd.value) 0)
    handle_set_common cmd.value

  -- `simpleCmdLocal`, which discards the body of a success too.
  unfoldable pub simple_cmd_local : C S (Unit {0})
  unfolding expect_success
  simple_cmd_local = do flush peer; h ← expect_success; discard h.total_body_length

  unfoldable pub delete : DeleteRequest → C S (Unit {0})
  unfolding simple_cmd_local
  delete cmd = do write (write_delete_cmd cmd.key 0); simple_cmd_local

  unfoldable pub touch : TouchRequest → C S (Unit {0})
  unfolding simple_cmd_local
  touch cmd = do write (write_touch_cmd cmd.key cmd.exptime 0); simple_cmd_local

  -- `getLocal`
  unfoldable pub get_local : Bool → C S Local
  unfolding expect_success
  get_local read_exp = do
    flush peer
    h ← expect_success
    server_flags ← read_number
    server_exp ← (if read_exp then read_number else return 0)
    buf ← reading (read_full (sub32 (sub32 h.total_body_length h.key_length) h.extra_length))
    return (record { value = buf; flags = server_flags; exptime = server_exp })

  -- What one key of a batch sends on the channels; an error ends the batch.
  abbrev pub key_events :
      {A : Type 0}
      → (Local → A)
      → A
      → Result Local × Conn S
      → (Conn S → List (Event A) × Conn S)
      → List (Event A) × Conn S
  key_events on_hit on_miss (ok l, c) rest = (received (on_hit l) ∷ (rest c).0, (rest c).1)
  key_events on_hit on_miss (err e, c) rest =
      if is_key_not_found e then (received on_miss ∷ (rest c).0, (rest c).1) else (failed e ∷ [], c)
  key_events on_hit on_miss (stuck, c) rest = ([], c)

  -- `realHandleGet`. With fewer opaques or quiet flags than keys Go panics.
  unfoldable pub real_handle_get :
      List Bytes → List ℕ → List Bool → Conn S → List (Event GetResponse) × Conn S
  unfolding get_local
  real_handle_get (k ∷ keys) (o ∷ opaques) (q ∷ quiets) c =
      key_events (hit k o q) (miss k o q) ((do write (write_get_cmd k 0); get_local false) c)
        (real_handle_get keys opaques quiets)
  real_handle_get _ _ _ c = ([], c)

  -- `realHandleGetE`
  unfoldable pub real_handle_get_e :
      List Bytes → List ℕ → List Bool → Conn S → List (Event GetEResponse) × Conn S
  unfolding get_local
  real_handle_get_e (k ∷ keys) (o ∷ opaques) (q ∷ quiets) c =
      key_events (hit_e k o q) (miss_e k o q) ((do write (write_get_e_cmd k 0); get_local true) c)
        (real_handle_get_e keys opaques quiets)
  real_handle_get_e _ _ _ c = ([], c)

  abbrev gat_response : GatRequest → Result Local → GetResponse × Option Error
  gat_response cmd (ok l) = (hit cmd.key cmd.opaque false l, none)
  gat_response cmd (err e) =
      if is_key_not_found e then (miss cmd.key cmd.opaque false, none) else (no_response, some e)
  gat_response cmd stuck = (no_response, none)

  unfoldable pub gat : GatRequest → Conn S → (GetResponse × Option Error) × Conn S
  unfolding get_local
  gat cmd c =
      let (r, c') = (do write (write_gat_cmd cmd.key cmd.exptime 0); get_local false) c in
      (gat_response cmd r, c')

  -- The handler of an orchestrator.
  abbrev pub handler : Handler
  handler = record {
    State = Conn S;
    set = λ r c. (error_of (set r c).0, (set r c).1);
    add = λ r c. (error_of (add r c).0, (add r c).1);
    replace = λ r c. (error_of (replace r c).0, (replace r c).1);
    append = λ r c. (error_of (append r c).0, (append r c).1);
    prepend = λ r c. (error_of (prepend r c).0, (prepend r c).1);
    get = λ r c. real_handle_get r.keys r.opaques r.quiet c;
    get_e = λ r c. real_handle_get_e r.keys r.opaques r.quiet c;
    gat = gat;
    delete = λ r c. (error_of (delete r c).0, (delete r c).1);
    touch = λ r c. (error_of (touch r c).0, (touch r c).1);
  }
