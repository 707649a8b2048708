-- ===== src/Chunked/Gets/Served.antt =====
-- handlers/memcached/chunked/handler.go: what Get sends for an item whose metadata and chunks memcached
-- answers.
use rend.Prelude.{
  ℕ, ◌+◌, ◌-◌, ◌*◌, ◌≤◌, ◌<◌, ◌≡◌, refl, ap, ◌∙◌, Bool, true, false, List, [], ◌∷◌, ◌++◌, length,
  take, if◌then◌else◌, none, some, Bytes, arith,
}
use rend.Binprot.Wire.{ok}
use rend.Binprot.Headers.{ResponseHeader, IsResponseHeader, write_response_header}
use rend.Binprot.Status.{decode_error}
use rend.Binprot.Commands.{write_get_cmd, write_get_q_cmd, write_noop_cmd}
use rend.Orcas.{received}
use rend.Conn.{Peer, clean, ◌>>=◌, ◌>>◌, return, expect_success}
use rend.Conn.Answers.{answered, bind-ok, flush-then, expect_success-ok}
use rend.Chunked.Metadata.{Metadata, IsMetadata, write_metadata, read-write_metadata}
use rend.Chunked.Keys.{meta_key}
use rend.Chunked.Limited.{zeros}
use rend.Chunked.Gets.{
  skip, metadata_read, get_metadata_common, get_metadata, get_chunks, batch, miss_response,
  hit_response, respond_chunks, get_key, key_event, real_handle_get,
}
use rend.Chunked.Gets.Filled.{filled, reached, filled_all}
use rend.Chunked.Gets.Answers.{Batch, IsBatch, answers, skip-append}
use rend.Chunked.Gets.Items.{some_other, get_chunks-answers}

-- The answer to the get of an item's metadata.
pub record IsMetaAnswer (md : Metadata) (h : ResponseHeader) (extras : Bytes) : Type 0 where
  pub metadata_ok : IsMetadata md
  pub header_ok : IsResponseHeader h
  pub found_ok : decode_error h ≡ none
  pub extras_ok : length extras ≡ 4

abbrev pub meta_answer : Metadata → ResponseHeader → Bytes → Bytes
meta_answer md h extras = write_response_header h ++ (extras ++ (write_metadata md ++ []))

-- The quiet gets for all chunks of an item, and the no-op behind them.
abbrev pub chunk_gets : Bytes → Metadata → Bytes
chunk_gets key md = batch (λ k. write_get_q_cmd k 0) key 0 md.num_chunks ++ write_noop_cmd 0

module _ {S : Type 0} (peer : Peer S) where
  get_metadata-answer :
      (key : Bytes) (md : Metadata) (h : ResponseHeader) (extras : Bytes) (s s' : S)
      → IsMetaAnswer md h extras
      → peer (write_get_cmd (meta_key key) 0) s ≡ (meta_answer md h extras, s')
      → get_metadata peer key (clean s) ≡ (ok md, clean s')
  unfolding get_metadata get_metadata_common
  get_metadata-answer key md h extras s s' v e =
      let stored = write_metadata md ++ [] in
      flush-then peer (do expect_success; skip 4; metadata_read) (write_get_cmd (meta_key key) 0)
        (meta_answer md h extras) s s' e
      ∙ bind-ok expect_success (λ _. skip 4 >> metadata_read)
          (answered (meta_answer md h extras) s') (answered (extras ++ stored) s') h
          (expect_success-ok h (extras ++ stored) s' v.header_ok v.found_ok)
      ∙ bind-ok (skip 4) (λ _. metadata_read) (answered (extras ++ stored) s') (answered stored s')
          tt (skip-append 4 extras stored s' v.extras_ok)
      ∙ ap (λ r. (ok r.0, answered r.1 s'))
          (read-write_metadata md [] [] v.metadata_ok (omega arith)).0

respond-if :
    (key : Bytes) (o : ℕ) (q : Bool) (md : Metadata) (other : Bool) (kept value : Bytes)
    → kept ≡ value
    → respond_chunks key o q md (if other then none else some kept) ≡ (
        if other
        then miss_response key o q md.orig_flags
        else hit_response key o q md.orig_flags value)
respond-if key o q md true kept value e = refl
respond-if key o q md false kept value e = ap (hit_response key o q md.orig_flags) e

filled-part :
    (size m : ℕ) (value : Bytes)
    → size * m ≤ length value
    → filled (reached size m value) value ≡ filled (size * m) value
filled-part size m value h =
    let e : reached size m value ≡ size * m = ground arith in ap (λ k. filled k value) e

-- A Get's first key, on a connection whose other side answers the get of the metadata in the state `s`.
module _ {S : Type 0} (peer : Peer S) (key : Bytes) (o : ℕ) (q : Bool) (md : Metadata)
    (h : ResponseHeader) (extras : Bytes) (b : Batch) (s s' s'' : S) where
  -- The first `m` chunks are answered.
  get_key-answers :
      (m : ℕ)
      → IsMetaAnswer md h extras
      → IsBatch md b
      → md.chunk_size * m < length b.value + md.chunk_size
      → peer (write_get_cmd (meta_key key) 0) s ≡ (meta_answer md h extras, s')
      → peer (chunk_gets key md) s' ≡ (answers md b 0 m, s'')
      → let kept = filled (reached md.chunk_size m b.value) b.value in
        let value = if some_other md b 0 m then none else some kept in
        get_key peer key o q (clean s) ≡ (ok (respond_chunks key o q md value), clean s'')
  unfolding get_key
  get_key-answers m v w f e e' =
      let get = get_chunks peer (λ k. write_get_q_cmd k 0) key in
      bind-ok (get_metadata peer key)
        (λ md. get md >>= λ value. return (respond_chunks key o q md value)) (clean s) (clean s') md
        (get_metadata-answer peer key md h extras s s' v e)
      ∙ bind-ok (get md) (λ value. return (respond_chunks key o q md value)) (clean s') (clean s'')
          _ (get_chunks-answers peer (λ k. write_get_q_cmd k 0) key md b m s' s'' w f e')

  -- A Get sends the item under its first key, and goes on with the others on a connection that has
  -- nothing under way: the data that its chunks hold, put together, where memcached answers the
  -- metadata and each of the chunks and all the chunks have the metadata's token, and a miss where one
  -- has another. The chunks are as many as the data needs.
  pub get-item :
      (keys : List Bytes) (os : List ℕ) (qs : List Bool)
      → IsMetaAnswer md h extras
      → IsBatch md b
      → length b.value ≤ md.chunk_size * md.num_chunks
      → md.chunk_size * md.num_chunks < length b.value + md.chunk_size
      → peer (write_get_cmd (meta_key key) 0) s ≡ (meta_answer md h extras, s')
      → peer (chunk_gets key md) s' ≡ (answers md b 0 md.num_chunks, s'')
      → let rest = real_handle_get peer keys os qs (clean s'') in
        let answer =
          if some_other md b 0 md.num_chunks
          then miss_response key o q md.orig_flags
          else hit_response key o q md.orig_flags b.value in
        real_handle_get peer (key ∷ keys) (o ∷ os) (q ∷ qs) (clean s)
        ≡ (received answer ∷ rest.0, rest.1)
  unfolding real_handle_get
  get-item keys os qs v w all f e e' =
      let rest = real_handle_get peer keys os qs in
      ap (λ r. key_event (miss_response key o q 0) r rest)
        (get_key-answers md.num_chunks v w f e e')
      ∙ ap (λ x. (received x ∷ (rest (clean s'')).0, (rest (clean s'')).1))
          (respond-if key o q md (some_other md b 0 md.num_chunks) _ b.value
            (filled_all md.chunk_size md.num_chunks b.value all))

  -- Where memcached answers only the first `m` chunks of an item, with the metadata's token, and they
  -- do not hold all of its data (a quiet get that misses is not answered), the Get sends a hit all the
  -- same, with zeros for the rest of the data: it does not count the answers.
  pub get-cut_item :
      (m : ℕ) (keys : List Bytes) (os : List ℕ) (qs : List Bool)
      → IsMetaAnswer md h extras
      → IsBatch md b
      → md.chunk_size * m < length b.value
      → some_other md b 0 m ≡ false
      → peer (write_get_cmd (meta_key key) 0) s ≡ (meta_answer md h extras, s')
      → peer (chunk_gets key md) s' ≡ (answers md b 0 m, s'')
      → let rest = real_handle_get peer keys os qs (clean s'') in
        let k = md.chunk_size * m in
        let cut = take k b.value ++ zeros (length b.value - k) in
        real_handle_get peer (key ∷ keys) (o ∷ os) (q ∷ qs) (clean s)
        ≡ (received (hit_response key o q md.orig_flags cut) ∷ rest.0, rest.1)
  unfolding real_handle_get
  get-cut_item m keys os qs v w f same e e' =
      let rest = real_handle_get peer keys os qs in
      ap (λ r. key_event (miss_response key o q 0) r rest)
        (get_key-answers m v w (omega arith) e e')
      ∙ ap (λ x. (received x ∷ (rest (clean s'')).0, (rest (clean s'')).1))
          (ap
              (λ x.
                respond_chunks key o q md
                  (if x then none else some (filled (reached md.chunk_size m b.value) b.value)))
              same
            ∙ ap (hit_response key o q md.orig_flags)
                (filled-part md.chunk_size m b.value (omega arith)))
