-- ===== src/Chunked/Gets.antt =====
-- handlers/memcached/chunked: the reading of an item, its metadata first and then all its chunks as one
-- batch of quiet gets, or gets-and-touches, that a no-op ends (localComm.go, and Get and GAT of
-- handler.go). The loop over the answers of a batch runs on fuel.
pub mod Loop
pub mod Filled
pub mod Answers
pub mod Items
pub mod Served
use rend.Prelude.{
  ℕ, zero, suc, ◌+◌, ◌-◌, Bool, true, false, not, ◌||◌, List, [], ◌∷◌, ◌++◌, Option, none, some,
  length, take, drop, replicate, ltb, ◌==◌, if◌then◌else◌, Bytes, bytes_eq,
}
use rend.Common.{Error, eof, is_key_not_found, GetRequest, GatRequest, GetResponse}
use rend.Binprot.Opcode
use rend.Binprot.Wire.{Result, ok, err, stuck, read_full}
use rend.Binprot.Commands.{
  write_get_cmd, write_get_q_cmd, write_gat_cmd, write_gat_q_cmd, write_noop_cmd,
}
use rend.Binprot.Headers.{ResponseHeader, read_response_header}
use rend.Binprot.Status.{decode_error}
use rend.Orcas.{Event, received, failed}
use rend.Conn.{
  Conn, Peer, C, ◌>>=◌, ◌>>◌, return, fail, write, flush, reading, discard, discard_error,
  expect_success,
}
use rend.Chunked.Metadata.{Metadata, token_size, empty_meta, read_metadata}
use rend.Chunked.Slices.{chunk_slice_indices}
use rend.Chunked.Keys.{meta_key, chunk_key}

-- The item's buffers as the chunks come in: the token of the last chunk, and the data.
pub record Buffers : Type 0 where
  pub token : Bytes
  pub value : Bytes

-- A write into a slice of the buffer.
abbrev pub splice : Bytes → ℕ → Bytes → Bytes
splice buf start bs = take start buf ++ (bs ++ drop (start + length bs) buf)

-- What `getLocalIntoBuf` finds.
pub data Found : Type 0 where
  noop_found chunk_found : Found

-- The commands for the chunks `i`, `i + 1`, ... of a key, `n` of them.
abbrev pub batch : (Bytes → Bytes) → Bytes → ℕ → ℕ → Bytes
batch cmd key i zero = []
batch cmd key i (suc n) = cmd (chunk_key key i) ++ batch cmd key (i + 1) n

-- The loop's state: the buffers, the number of the next chunk, whether a chunk was missing or had
-- another token, and the last error.
pub record Gathered : Type 0 where
  pub bufs : Buffers
  pub next : ℕ
  pub miss : Bool
  pub last_err : Option Error

abbrev pub other_token : Metadata → Buffers → Bool
other_token md bufs = not (bytes_eq md.token bufs.token)

-- The state behind an answer that is no no-op and no miss.
abbrev pub gathered_chunk : Metadata → Gathered → Buffers → Option Error → Gathered
gathered_chunk md g bufs e = record {
  bufs = bufs;
  next = g.next + 1;
  miss = g.miss || other_token md bufs;
  last_err = e;
}

abbrev pub gathering : Metadata → Gathered
gathering md = record {
  bufs = record { token = replicate token_size 0; value = replicate md.length 0 };
  next = 0;
  miss = false;
  last_err = none;
}

abbrev pub miss_response : Bytes → ℕ → Bool → ℕ → GetResponse
miss_response key o q flags = record {
  key = key;
  value = [];
  opaque = o;
  flags = flags;
  miss = true;
  quiet = q;
}

abbrev pub hit_response : Bytes → ℕ → Bool → ℕ → Bytes → GetResponse
hit_response key o q flags value = record {
  key = key;
  value = value;
  opaque = o;
  flags = flags;
  miss = false;
  quiet = q;
}

abbrev pub no_response : GetResponse
no_response = record { key = []; value = []; opaque = 0; flags = 0; miss = false; quiet = false }

-- What one key of a batch sends.
abbrev pub respond_chunks : Bytes → ℕ → Bool → Metadata → Option Bytes → GetResponse
respond_chunks key o q md none = miss_response key o q md.orig_flags
respond_chunks key o q md (some value) = hit_response key o q md.orig_flags value

module _ {S : Type 0} where
  -- bufio's Discard where its error is dropped.
  abbrev pub skip : ℕ → C S (Unit {0})
  skip n c = (ok tt, record c { unread = drop n c.unread })

  -- `readMetadata`, whose error is nil always.
  abbrev pub metadata_read : C S Metadata
  metadata_read c =
      (ok (read_metadata c.unread).0, record c { unread = (read_metadata c.unread).1 })

  -- The data of a chunk, `n` bytes of them, and the padding behind them.
  abbrev pub read_part : Metadata → Bytes → Bytes → ℕ → ℕ → C S (Found × Buffers)
  read_part md token value start n = do
    part ← reading (read_full n)
    if ltb (length part) md.chunk_size then discard (md.chunk_size - length part) else return tt
    return (chunk_found, record { token = token; value = splice value start part })

  -- The end of a chunk's answer. `dataBuf[start:end]` panics where the start is beyond the data, in an
  -- answer that was not asked for; a panic is `stuck` here, with nothing
  -- more read.
  unfoldable pub read_value : Metadata → Bytes → Bytes → ℕ → C S (Found × Buffers)
  read_value md token value i =
      let (start, end) = chunk_slice_indices md.chunk_size i md.length in
      if ltb end start then (λ c. (stuck, c)) else read_part md token value start (end - start)

  -- An answer behind its header: whether that is a no-op's, and the error in it.
  abbrev pub answer_read :
      Metadata → Buffers → ℕ → ResponseHeader → Bool → Option Error → C S (Found × Buffers)
  answer_read md bufs i h true e = return (noop_found, bufs)
  answer_read md bufs i h false (some e) = do discard_error h e; return (chunk_found, bufs)
  answer_read md bufs i h false none = do
    skip 4
    token ← reading (read_full token_size)
    read_value md token bufs.value i

  -- One answer of a batch, read into the buffers as far as it goes: what was found, and the buffers.
  unfoldable pub get_local_into_buf : Metadata → Buffers → ℕ → C S (Found × Buffers)
  unfolding read_value discard_error
  get_local_into_buf md bufs i = do
    h ← reading read_response_header
    answer_read md bufs i h (h.opcode == Opcode.noop) (decode_error h)

  -- The step that the loop takes behind an answer.
  abbrev pub after_answer :
      Metadata
      → Gathered
      → Result (Found × Buffers) × Conn S
      → (Gathered → C S Gathered)
      → Result Gathered × Conn S
  after_answer md g (ok (noop_found, bufs), c) on = (ok g, c)
  after_answer md g (ok (chunk_found, bufs), c) on = on (gathered_chunk md g bufs g.last_err) c
  after_answer md g (err e, c) on =
      if is_key_not_found e
      then on (record g { miss = true }) c
      else on (gathered_chunk md g g.bufs (some e)) c
  after_answer md g (stuck, c) on = (stuck, c)

  -- The loop over the answers, up to the no-op.
  unfoldable pub gather : ℕ → Metadata → Gathered → C S Gathered
  unfolding get_local_into_buf
  gather zero md g c = (stuck, c)
  gather (suc fuel) md g c =
      after_answer md g (get_local_into_buf md g.bufs g.next c) (gather fuel md)

  -- The loop with a round for each byte that has come in, and one more.
  abbrev pub gather_all : Metadata → C S Gathered
  gather_all md c = gather (length c.unread + 1) md (gathering md) c

  -- The responses on the channels; only a miss of the metadata is a miss here, and an error ends it.
  abbrev pub key_event :
      GetResponse
      → Result GetResponse × Conn S
      → (Conn S → List (Event GetResponse) × Conn S)
      → List (Event GetResponse) × Conn S
  key_event missed (ok r, c) rest = (received r ∷ (rest c).0, (rest c).1)
  key_event missed (err e, c) rest =
      if is_key_not_found e then (received missed ∷ (rest c).0, (rest c).1) else (failed e ∷ [], c)
  key_event missed (stuck, c) rest = ([], c)

module _ {S : Type 0} (peer : Peer S) where
  unfoldable pub get_metadata_common : C S Metadata
  unfolding expect_success
  get_metadata_common = do flush peer; expect_success; skip 4; metadata_read

  unfoldable pub get_metadata : Bytes → C S Metadata
  unfolding get_metadata_common
  get_metadata key = do write (write_get_cmd (meta_key key) 0); get_metadata_common

  unfoldable pub get_and_touch_metadata : Bytes → ℕ → C S Metadata
  unfolding get_metadata_common
  get_and_touch_metadata key exptime = do
    write (write_gat_cmd (meta_key key) exptime 0)
    get_metadata_common

  -- An item by its metadata, its chunks asked for by a command: the data, or none for a miss.
  unfoldable pub get_chunks : (Bytes → Bytes) → Bytes → Metadata → C S (Option Bytes)
  unfolding gather
  get_chunks cmd key md = do
    write (batch cmd key 0 md.num_chunks)
    write (write_noop_cmd 0)
    flush peer
    g ← gather_all md
    elim g.last_err [ some e ↦ fail e | none ↦ return (if g.miss then none else some g.bufs.value) ]

  unfoldable pub get_key : Bytes → ℕ → Bool → C S GetResponse
  unfolding get_metadata get_chunks
  get_key key o q = do
    md ← get_metadata key
    value ← get_chunks (λ k. write_get_q_cmd k 0) key md
    return (respond_chunks key o q md value)

  -- `realHandleGet`. With fewer opaques or quiet flags than keys Go panics.
  unfoldable pub real_handle_get :
      List Bytes → List ℕ → List Bool → Conn S → List (Event GetResponse) × Conn S
  unfolding get_key
  real_handle_get (key ∷ keys) (o ∷ opaques) (q ∷ quiets) c =
      key_event (miss_response key o q 0) (get_key key o q c) (real_handle_get keys opaques quiets)
  real_handle_get _ _ _ c = ([], c)

  abbrev gat_result : GatRequest → Result GetResponse → GetResponse × Option Error
  gat_result cmd (ok r) = (r, none)
  gat_result cmd (err e) =
      if is_key_not_found e
      then (miss_response cmd.key cmd.opaque false 0, none)
      else (no_response, some e)
  gat_result cmd stuck = (no_response, none)

  unfoldable pub gat : GatRequest → Conn S → (GetResponse × Option Error) × Conn S
  unfolding get_and_touch_metadata get_chunks
  gat cmd c =
      let (r, c') =
        (do
          md ← get_and_touch_metadata cmd.key cmd.exptime
          value ← get_chunks (λ k. write_gat_q_cmd k cmd.exptime 0) cmd.key md
          return (respond_chunks cmd.key cmd.opaque false md value))
          c in
      (gat_result cmd r, c')
