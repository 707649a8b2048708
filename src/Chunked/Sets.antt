-- ===== src/Chunked/Sets.antt =====
-- handlers/memcached/chunked/handler.go: Set, Add and Replace, which store an item's metadata and then
-- its chunks, each with the item's token in front. The clock and the token are arguments, and so are
-- the sizes of the buffers that io.Copy reads into. What the server has answered is in the reader's
-- buffer when `reset` drops it.
pub mod Counts
pub mod Commands
pub mod Reader
pub mod Sent
use rend.Prelude.{
  ℕ, zero, suc, ◌+◌, ◌-◌, ◌*◌, ◌%◌, ◌^◌, Bool, true, false, List, [], ◌∷◌, Option, none, some,
  length, ltb, ◌==◌, if◌then◌else◌, Bytes,
}
use rend.Common.{Error, SetRequest}
use rend.Binprot.Wire.{Result, ok, err, stuck}
use rend.Binprot.Parser.{sub32}
use rend.Binprot.Commands.{write_set_cmd, write_add_cmd, write_replace_cmd}
use rend.Binprot.Headers.{ResponseHeader, read_response_header}
use rend.Binprot.Status.{decode_error}
use rend.Conn.{
  Conn, Peer, C, ◌>>=◌, ◌>>◌, return, fail, write, flush, reading, discard, expect_success,
}
use rend.Chunked.Metadata.{Metadata, metadata_size, token_size, write_metadata}
use rend.Chunked.Keys.{meta_key, chunk_key}
use rend.Chunked.Limited.{Limited, ceil_div, new_limited, next_chunk, more, copy}

abbrev pub chunk_max_size : ℕ
chunk_max_size = 1184

abbrev pub chunk_overhead : ℕ
chunk_overhead = 71

-- The bytes of data in a chunk, and with the token.
unfoldable pub chunk_size : ℕ → ℕ × ℕ
chunk_size keylen =
    let full = (chunk_max_size + 2 ^ 32 - chunk_overhead - keylen) % 2 ^ 32 in
    (sub32 full token_size, full)

abbrev pub real_time_max_delta : ℕ
real_time_max_delta = 60 * 60 * 24 * 30

-- The second at which an item expires, and whether that has passed.
unfoldable pub exptime : ℕ → ℕ → ℕ × Bool
exptime now ttl =
    if ttl == 0
    then (0, false)
    else if ltb real_time_max_delta ttl
    then (ttl, ltb ttl (now % 2 ^ 32))
    else ((now + ttl) % 2 ^ 32, false)

-- The request types that `handleSetCommon` is called with.
pub data SetKind : Type 0 where
  plain adding replacing : SetKind

abbrev pub meta_cmd : SetKind → Bytes → ℕ → ℕ → ℕ → ℕ → Bytes
meta_cmd plain = write_set_cmd
meta_cmd adding = write_add_cmd
meta_cmd replacing = write_replace_cmd

unfoldable pub new_metadata : ℕ → Bytes → SetRequest → Metadata
unfolding chunk_size exptime
new_metadata now token cmd =
    let data_size = (chunk_size (length cmd.key)).0 in
    record {
      length = length cmd.value % 2 ^ 32;
      orig_flags = cmd.flags;
      num_chunks = ceil_div (length cmd.value) data_size % 2 ^ 32;
      chunk_size = data_size;
      instime = now % 2 ^ 32;
      exptime = (exptime now cmd.exptime).0;
      token = token;
    }

abbrev pub error_in : Result ResponseHeader → Option Error
error_in (ok h) = decode_error h
error_in _ = none

module _ {S : Type 0} where
  unfoldable pub reset : C S (Unit {0})
  reset c = (ok tt, record c { unsent = []; unread = [] })

  -- The answer to a chunk: the reader and the writer are reset before the body of an error is discarded.
  abbrev pub after_chunk : Result ResponseHeader → Option Error → C S (Unit {0})
  after_chunk (ok h) none = return tt
  after_chunk (ok h) (some e) = do reset; discard h.total_body_length; fail e
  after_chunk (err e) d = do reset; fail e
  after_chunk stuck d = λ c. (stuck, c)

  unfoldable pub expect_chunk_stored : C S (Unit {0})
  unfolding reset
  expect_chunk_stored c =
      let (r, c') = reading read_response_header c in after_chunk r (error_in r) c'

  abbrev pub with_copy :
      Option (Bytes × Limited) → (Bytes → Limited → C S (Unit {0})) → C S (Unit {0})
  with_copy none f c = (stuck, c)
  with_copy (some (value, rest)) f c = f value rest c

module _ {S : Type 0} (peer : Peer S) (sizes : ℕ → ℕ) where
  -- One chunk, whose data has been copied.
  unfoldable pub set_chunk : SetRequest → Bytes → ℕ → Bytes → C S (Unit {0})
  unfolding expect_chunk_stored chunk_size
  set_chunk cmd token i value = do
    write (
        write_set_cmd (chunk_key cmd.key i) cmd.flags cmd.exptime (chunk_size (length cmd.key)).1 0)
    write token
    write value
    flush peer
    expect_chunk_stored

  -- The loop over the chunks.
  unfoldable pub set_chunks : ℕ → SetRequest → Bytes → ℕ → Limited → C S (Unit {0})
  unfolding set_chunk next_chunk more
  set_chunks zero cmd token i reader = if more reader then (λ c. (stuck, c)) else return tt
  set_chunks (suc n) cmd token i reader =
      if more reader
      then with_copy (copy (reader.chunk_rem + 1) sizes reader) (λ value rest. do
        set_chunk cmd token i value
        set_chunks n cmd token (i + 1) (next_chunk rest))
      else return tt

  unfoldable pub handle_set_common : ℕ → Bytes → SetKind → SetRequest → C S (Unit {0})
  unfolding set_chunks chunk_size exptime new_metadata new_limited expect_success
  handle_set_common now token kind cmd = if (exptime now cmd.exptime).1 then return tt else do
    let md = new_metadata now token cmd
    let reader = new_limited cmd.value md.chunk_size (length cmd.value)
    write (meta_cmd kind (meta_key cmd.key) cmd.flags cmd.exptime metadata_size 0)
    write (write_metadata md)
    flush peer
    expect_success
    set_chunks reader.num_chunks cmd token 0 reader

  unfoldable pub set : ℕ → Bytes → SetRequest → C S (Unit {0})
  unfolding handle_set_common
  set now token cmd = handle_set_common now token plain cmd

  unfoldable pub add : ℕ → Bytes → SetRequest → C S (Unit {0})
  unfolding handle_set_common
  add now token cmd = handle_set_common now token adding cmd

  unfoldable pub replace : ℕ → Bytes → SetRequest → C S (Unit {0})
  unfolding handle_set_common
  replace now token cmd = handle_set_common now token replacing cmd
