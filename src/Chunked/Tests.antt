-- ===== src/Chunked/Tests.antt =====
-- The theorems on chunks at concrete inputs.
use rend.Prelude.{
  ℕ, ◌+◌, ◌*◌, ◌≡◌, ◌≢◌, ◌↔◌, ◌≤◌, ◌<◌, refl, List, [], ◌∷◌, ◌++◌, Bool, true, false, arith, Bytes,
  bytes_eq,
}
use rend.Common.{SetRequest}
use rend.Binprot.Opcode
use rend.Binprot.Wire.{ok, stuck, put_uint16, put_uint32}
use rend.Binprot.Headers.{ResponseHeader, IsResponseHeader, write_response_header}
use rend.Binprot.Status.{decode_error}
use rend.Binprot.Respond.{success_header}
use rend.Orcas.{received}
use rend.Conn.{Peer, clean}
use rend.Conn.Answers.{answered}
use rend.Chunked.Metadata.{
  Metadata, IsMetadata, empty_meta, read_metadata, write_metadata, read-write_metadata,
}
use rend.Chunked.Keys.{meta_key, chunk_key, stored_keys}
use rend.Chunked.Sets.{chunk_size, exptime, adding, new_metadata}
use rend.Chunked.Sets.Counts.{new_metadata-IsMetadata}
use rend.Chunked.Sets.Commands.{store, told, set_cmds}
use rend.Chunked.Sets.Sent.{store-told}
use rend.Chunked.Gets.{hit_response, gather, gathering, real_handle_get}
use rend.Chunked.Gets.Loop.{gather-rounds}
use rend.Chunked.Gets.Answers.{Batch, IsBatch, answers}
use rend.Chunked.Gets.Items.{some_other}
use rend.Chunked.Gets.Served.{IsMetaAnswer, meta_answer, get-item, get-cut_item}

abbrev md : Metadata
md = record {
  length = 3;
  orig_flags = 7;
  num_chunks = 2;
  chunk_size = 2;
  instime = 1000;
  exptime = 1060;
  token = 1 ∷ 2 ∷ 3 ∷ 4 ∷ 5 ∷ 6 ∷ 7 ∷ 8 ∷ 9 ∷ 10 ∷ 11 ∷ 12 ∷ 13 ∷ 14 ∷ 15 ∷ 16 ∷ [];
}

md-IsMetadata : IsMetadata md
md-IsMetadata = record {
  length_fits = omega arith;
  flags_fit = omega arith;
  chunks_fit = omega arith;
  size_fits = omega arith;
  instime_fits = omega arith;
  exptime_fits = omega arith;
  token_fits = refl;
}

read-write_metadata_example :
    (read_metadata (write_metadata md ++ (9 ∷ [])) ≡ (md, 9 ∷ []))
    × (read_metadata (1 ∷ 2 ∷ []) ≡ (empty_meta, []))
read-write_metadata_example =
    read-write_metadata md (9 ∷ []) (1 ∷ 2 ∷ []) md-IsMetadata (omega arith)

abbrev three : Bytes
three = 5 ∷ 6 ∷ 7 ∷ []

abbrev foo : Bytes
foo = b'f' ∷ b'o' ∷ b'o' ∷ []

-- Keys that one item's chunk and another's metadata could share, if the dashes were not told apart.
stored_keys_example :
    ((chunk_key foo 10 ≡ chunk_key (chunk_key foo 1) 0)
      ↔ ((foo ≡ chunk_key foo 1) × ◌≡◌ {A = ℕ} 10 0))
    × ((meta_key foo ≡ meta_key (chunk_key foo 1)) ↔ (foo ≡ chunk_key foo 1))
    × (meta_key foo ≢ chunk_key (chunk_key foo 1) 0)
stored_keys_example = stored_keys foo (chunk_key foo 1) 10 0

abbrev found_header : ResponseHeader
found_header = success_header Opcode.get 0 4 22 0

abbrev noop_header : ResponseHeader
noop_header = success_header Opcode.noop 0 0 0 0

abbrev flags : Bytes
flags = 0 ∷ 0 ∷ 0 ∷ 0 ∷ []

abbrev chunks : Batch
chunks = record {
  value = three;
  headers = λ i. found_header;
  extras = λ i. flags;
  tokens = λ i. md.token;
  noop = noop_header;
}

found_header-IsResponseHeader : IsResponseHeader found_header
found_header-IsResponseHeader = omega arith

chunks-IsBatch : IsBatch md chunks
unfolding decode_error
chunks-IsBatch = record {
  value_ok = refl;
  headers_ok = λ i. found_header-IsResponseHeader;
  chunks_ok = λ i. refl;
  found_ok = λ i. refl;
  extras_ok = λ i. refl;
  tokens_ok = λ i. refl;
  noop_header = omega arith;
  noop_ok = refl;
}

md-IsMetaAnswer : IsMetaAnswer md found_header flags
unfolding decode_error
md-IsMetaAnswer = record {
  metadata_ok = md-IsMetadata;
  header_ok = found_header-IsResponseHeader;
  found_ok = refl;
  extras_ok = refl;
}

-- A memcached that answers the metadata first, and then so many of the chunks.
abbrev holds : ℕ → Peer Bool
holds m bs false = (meta_answer md found_header flags, true)
holds m bs true = (answers md chunks 0 m, true)

get-item_example :
    real_handle_get (holds 2) (foo ∷ []) (5 ∷ []) (true ∷ []) (clean false)
    ≡ (received (hit_response foo 5 true 7 three) ∷ [], clean true)
unfolding real_handle_get some_other bytes_eq
get-item_example =
    get-item (holds 2) foo 5 true md found_header flags chunks false true true [] [] []
      md-IsMetaAnswer chunks-IsBatch (omega arith) (omega arith) refl refl

get-cut_item_example :
    real_handle_get (holds 1) (foo ∷ []) (5 ∷ []) (true ∷ []) (clean false)
    ≡ (received (hit_response foo 5 true 7 (5 ∷ 6 ∷ 0 ∷ [])) ∷ [], clean true)
unfolding real_handle_get some_other bytes_eq
get-cut_item_example =
    get-cut_item (holds 1) foo 5 true md found_header flags chunks false true true 1 [] [] []
      md-IsMetaAnswer chunks-IsBatch (omega arith) refl refl refl

gather-rounds_example :
    (gather 80 md (gathering md) (answered (answers md chunks 0 1) tt)
      ≡ gather 71 md (gathering md) (answered (answers md chunks 0 1) tt))
    × ((gather 1000 md (gathering md) (answered (1 ∷ 2 ∷ []) tt)).0 ≡ stuck)
unfolding answers write_response_header put_uint16 put_uint32
gather-rounds_example =
    gather-rounds 71 9 1000 md (gathering md) (answered (answers md chunks 0 1) tt)
      (answered (1 ∷ 2 ∷ []) tt) (omega arith) (omega arith)

abbrev set_three : SetRequest
set_three = record { key = foo; value = three; flags = 7; exptime = 60; opaque = 0; quiet = false }

new_metadata-IsMetadata_example :
    let new = new_metadata 1000 md.token set_three in
    IsMetadata new
    × (new.length ≡ 3)
    × (3 ≤ new.chunk_size * new.num_chunks)
    × (new.chunk_size * new.num_chunks < 3 + new.chunk_size)
unfolding chunk_size
new_metadata-IsMetadata_example =
    new_metadata-IsMetadata 1000 md.token set_three (omega arith) (omega arith) (omega arith)
      (omega arith) refl

-- A memcached that keeps what it is sent.
abbrev keeps : Peer (List Bytes)
keeps bs s = (write_response_header found_header ++ [], s ++ (bs ∷ []))

store-told_example :
    store keeps (λ j. 1) 1000 md.token adding set_three (clean [])
    ≡ (ok tt, clean (told keeps (set_cmds 1000 md.token adding set_three) []))
unfolding exptime chunk_size decode_error
store-told_example =
    store-told keeps (λ j. 1) found_header (λ j. omega arith) (λ bs s. refl)
      found_header-IsResponseHeader refl 1000 md.token adding set_three [] (omega arith)
      (omega arith)
