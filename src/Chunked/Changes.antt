-- ===== src/Chunked/Changes.antt =====
-- handlers/memcached/chunked/handler.go: Append and Prepend, which read the item and store it again,
-- Delete and Touch, and the handler as an orchestrator calls it.
use rend.Prelude.{ℕ, zero, suc, ◌||◌, Bool, true, false, [], ◌++◌, none, some, if◌then◌else◌, Bytes}
use rend.Common.{key_not_found, is_key_not_found, SetRequest, DeleteRequest, TouchRequest}
use rend.Binprot.Wire.{Result, ok, err}
use rend.Binprot.Commands.{write_set_cmd, write_get_q_cmd, write_delete_cmd, write_touch_cmd}
use rend.Binprot.Headers.{read_response_header}
use rend.Binprot.Status.{decode_error}
use rend.Orcas.{Handler}
use rend.Conn.{
  Conn, Peer, C, ◌>>=◌, ◌>>◌, return, fail, error_of, write, flush, reading, discard,
  expect_success,
}
use rend.Chunked.Metadata.{Metadata, metadata_size, write_metadata}
use rend.Chunked.Keys.{meta_key}
use rend.Chunked.Sets.{exptime, plain, handle_set_common, set, add, replace}
use rend.Chunked.Gets.{batch, get_metadata, get_chunks, real_handle_get, gat}

-- The item with more data behind or in front of it.
abbrev pub restored : SetRequest → Metadata → Bytes → SetRequest
restored cmd md value = record cmd { value = value; flags = md.orig_flags; exptime = md.exptime }

abbrev pub says_not_found : {A : Type 0} → Result A → Bool
says_not_found (err e) = is_key_not_found e
says_not_found _ = false

module _ {S : Type 0} where
  -- `simpleCmdLocal` without a flush.
  unfoldable pub simple_answer : C S (Unit {0})
  simple_answer = do
    h ← reading read_response_header
    discard h.total_body_length
    elim (decode_error h) [ some e ↦ fail e | none ↦ return tt ]

  -- The answers to a batch of commands: whether one of them says that the key is not there; any other
  -- error is dropped.
  unfoldable pub settle : ℕ → Bool → C S Bool
  unfolding simple_answer
  settle zero miss c = (ok miss, c)
  settle (suc n) miss c = let (r, c') = simple_answer c in settle n (miss || says_not_found r) c'

module _ {S : Type 0} (peer : Peer S) (sizes : ℕ → ℕ) where
  -- `handleAppendPrependCommon`, with the way to join the item's data and the request's.
  unfoldable pub handle_append_prepend_common :
      ℕ → Bytes → (Bytes → Bytes → Bytes) → SetRequest → C S (Unit {0})
  unfolding get_metadata get_chunks handle_set_common
  handle_append_prepend_common now token join cmd = do
    md ← get_metadata peer cmd.key
    value ← get_chunks peer (λ k. write_get_q_cmd k 0) cmd.key md
    elim value [
      | none ↦ fail key_not_found
      | some old ↦
          handle_set_common peer sizes now token plain (restored cmd md (join old cmd.value))
    ]

  unfoldable pub append : ℕ → Bytes → SetRequest → C S (Unit {0})
  unfolding handle_append_prepend_common
  append now token cmd = handle_append_prepend_common now token (λ old v. old ++ v) cmd

  unfoldable pub prepend : ℕ → Bytes → SetRequest → C S (Unit {0})
  unfolding handle_append_prepend_common
  prepend now token cmd = handle_append_prepend_common now token (λ old v. v ++ old) cmd

  unfoldable pub delete : DeleteRequest → C S (Unit {0})
  unfolding get_metadata simple_answer settle
  delete cmd = do
    md ← get_metadata peer cmd.key
    write (write_delete_cmd (meta_key cmd.key) 0)
    flush peer
    simple_answer
    write (batch (λ k. write_delete_cmd k 0) cmd.key 0 md.num_chunks)
    flush peer
    miss ← settle md.num_chunks false
    if miss then fail key_not_found else return tt

  unfoldable pub touch : ℕ → TouchRequest → C S (Unit {0})
  unfolding get_metadata settle exptime expect_success
  touch now cmd = do
    md ← get_metadata peer cmd.key
    write (batch (λ k. write_touch_cmd k cmd.exptime 0) cmd.key 0 md.num_chunks)
    flush peer
    miss ← settle md.num_chunks false
    elim miss [
      | true ↦ fail key_not_found
      | false ↦ do
        write (write_set_cmd (meta_key cmd.key) md.orig_flags cmd.exptime metadata_size 0)
        write (write_metadata (record md { exptime = (exptime now cmd.exptime).0 }))
        flush peer
        expect_success
        return tt
    ]

  -- The handler at one second, with the token that the next set takes. GetE panics in Go, and sends
  -- nothing here.
  abbrev pub handler : ℕ → Bytes → Handler
  handler now token = record {
    State = Conn S;
    set = λ r c. (error_of (set peer sizes now token r c).0, (set peer sizes now token r c).1);
    add = λ r c. (error_of (add peer sizes now token r c).0, (add peer sizes now token r c).1);
    replace = λ r c.
        (error_of (replace peer sizes now token r c).0, (replace peer sizes now token r c).1);
    append = λ r c. (error_of (append now token r c).0, (append now token r c).1);
    prepend = λ r c. (error_of (prepend now token r c).0, (prepend now token r c).1);
    get = λ r c. real_handle_get peer r.keys r.opaques r.quiet c;
    get_e = λ r c. ([], c);
    gat = gat peer;
    delete = λ r c. (error_of (delete r c).0, (delete r c).1);
    touch = λ r c. (error_of (touch now r c).0, (touch now r c).1);
  }
