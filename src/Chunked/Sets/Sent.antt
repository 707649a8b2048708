-- ===== src/Chunked/Sets/Sent.antt =====
-- handlers/memcached/chunked/handler.go: what Set, Add and Replace send to a memcached that takes
-- all of it.
use rend.Prelude.{
  ℕ, zero, suc, ◌+◌, ◌*◌, ◌^◌, ◌<◌, ◌≡◌, refl, sym, ap, ◌∙◌, Bool, [], ◌++◌, length, length-drop,
  drop, if◌then◌else◌, Bool-cases, inl, inr, none, Bytes, arith,
}
use rend.Common.{SetRequest}
use rend.Binprot.Wire.{ok, stuck}
use rend.Binprot.Headers.{ResponseHeader, IsResponseHeader, write_response_header}
use rend.Binprot.Status.{decode_error}
use rend.Conn.{Peer, C, clean, ◌>>◌, return, write, flush, expect_success}
use rend.Conn.Answers.{answered, bind-ok, flush-then, expect_success-ok, reading_header}
use rend.Chunked.Metadata.{metadata_size, write_metadata}
use rend.Chunked.Keys.{meta_key}
use rend.Chunked.Limited.{
  Limited, ceil_div, new_limited, next_chunk, more, copy, padded, chunk_read,
}
use rend.Chunked.Limited.Copies.{copy-padded}
use rend.Chunked.Sets.Counts.{num_chunks-fit}
use rend.Chunked.Sets.{
  chunk_size, exptime, SetKind, meta_cmd, new_metadata, after_chunk, error_in, expect_chunk_stored,
  set_chunk, with_copy, set_chunks, handle_set_common, set, add, replace, plain, adding, replacing,
}
use rend.Chunked.Sets.Commands.{store, chunk_cmd, chunk_cmds, set_cmds, told}
use rend.Chunked.Sets.Reader.{handed_out, handed_out-eq, ltb-true, ltb-false, next_handed_out}

-- A memcached that answers each command with a success.
module _ {S : Type 0} (peer : Peer S) (sizes : ℕ → ℕ) (h : ResponseHeader)
    (p : (j : ℕ) → 0 < sizes j)
    (a : (bs : Bytes) (s : S) → (peer bs s).0 ≡ write_response_header h ++ [])
    (v : IsResponseHeader h) (d : decode_error h ≡ none) where
  chunk_stored :
      (s : S) → expect_chunk_stored (answered (write_response_header h ++ []) s) ≡ (ok tt, clean s)
  unfolding expect_chunk_stored
  chunk_stored s =
      ap (λ r. after_chunk r.0 (error_in r.0) r.1) (reading_header h [] s v)
      ∙ ap (λ e. after_chunk (ok h) e (answered [] s)) d

  set_chunk-stored :
      (cmd : SetRequest) (token : Bytes) (i : ℕ) (s : S)
      → let value =
          padded
            (chunk_size (length cmd.key)).0
            (drop ((chunk_size (length cmd.key)).0 * i) cmd.value) in
        set_chunk peer sizes cmd token i value (clean s)
        ≡ (ok tt, clean (peer (chunk_cmd cmd token i) s).1)
  unfolding set_chunk
  set_chunk-stored cmd token i s =
      let bs = chunk_cmd cmd token i in
      flush-then peer expect_chunk_stored bs (write_response_header h ++ []) s (peer bs s).1
        (λ j. (a bs s j, (peer bs s).1))
      ∙ chunk_stored (peer bs s).1

  set_chunks-stored :
      (n k i : ℕ) (cmd : SetRequest) (token : Bytes) (s : S)
      → i + k ≡ n
      → set_chunks peer sizes k cmd token i
          (handed_out (chunk_size (length cmd.key)).0 n cmd.value i)
          (clean s)
        ≡ (ok tt, clean (told peer (chunk_cmds cmd token i k) s))
  unfolding set_chunks more told chunk_cmds
  set_chunks-stored n zero i cmd token s e =
      ap (λ b. (if b then (λ c. (stuck, c)) else return tt) (clean s)) (ltb-false i n (omega arith))
  set_chunks-stored n (suc k) i cmd token s e =
      let size = (chunk_size (length cmd.key)).0 in
      let c = handed_out size n cmd.value i in
      let value = padded size (drop (size * i) cmd.value) in
      let s1 = (peer (chunk_cmd cmd token i) s).1 in
      let go : Bytes → Limited → C S (Unit {0}) = λ value rest.
        set_chunk peer sizes cmd token i value
        >> set_chunks peer sizes k cmd token (i + 1) (next_chunk rest) in
      ap (λ b. (if b then with_copy (copy (size + 1) sizes c) go else return tt) (clean s))
        (ltb-true i n (omega arith))
      ∙ ap (λ r. with_copy r go (clean s))
          (copy-padded (size + 1) sizes c p (omega arith) (length-drop (size * i) cmd.value)
            (omega arith))
      ∙ bind-ok (set_chunk peer sizes cmd token i value)
          (λ _. set_chunks peer sizes k cmd token (i + 1) (next_chunk (chunk_read c))) (clean s)
          (clean s1) tt (set_chunk-stored cmd token i s)
      ∙ ap (λ r. set_chunks peer sizes k cmd token (i + 1) r (clean s1))
          (next_handed_out size n cmd.value i (omega arith))
      ∙ set_chunks-stored n k (i + 1) cmd token s1 (omega arith)

  -- The reader at its start.
  reader_start :
      (size : ℕ) (value : Bytes)
      → new_limited value size (length value)
        ≡ handed_out size (ceil_div (length value) size) value 0
  unfolding new_limited
  reader_start size value =
      let e : 0 ≡ size * 0 = omega arith in
      handed_out-eq size (ceil_div (length value) size) 0 (ap (λ k. drop k value) e) (omega arith)
        refl

  -- `handle_set_common` of an item that has not expired.
  abbrev live : ℕ → Bytes → SetKind → SetRequest → C S (Unit {0})
  live now token kind cmd = do
    let md = new_metadata now token cmd
    let reader = new_limited cmd.value md.chunk_size (length cmd.value)
    write (meta_cmd kind (meta_key cmd.key) cmd.flags cmd.exptime metadata_size 0)
    write (write_metadata md)
    flush peer
    expect_success
    set_chunks peer sizes reader.num_chunks cmd token 0 reader

  live-told :
      (now : ℕ) (token : Bytes) (kind : SetKind) (cmd : SetRequest) (s : S)
      → 0 < (chunk_size (length cmd.key)).0
      → length cmd.value < 2 ^ 32
      → live now token kind cmd (clean s)
        ≡ (ok tt, clean (told peer (set_cmds now token kind cmd) s))
  unfolding told new_metadata
  live-told now token kind cmd s big small =
      let size = (chunk_size (length cmd.key)).0 in
      let n = ceil_div (length cmd.value) size in
      let md = new_metadata now token cmd in
      let bs =
        meta_cmd kind (meta_key cmd.key) cmd.flags cmd.exptime metadata_size 0
        ++ write_metadata md in
      let s1 = (peer bs s).1 in
      let answer = write_response_header h ++ [] in
      let store : Limited → C S (Unit {0}) =
        λ r. set_chunks peer sizes r.num_chunks cmd token 0 r in
      let reader = new_limited cmd.value size (length cmd.value) in
      flush-then peer (expect_success >> store reader) bs answer s s1 (λ j. (a bs s j, s1))
      ∙ bind-ok expect_success (λ _. store reader) (answered answer s1) (clean s1) h
          (expect_success-ok h [] s1 v d)
      ∙ ap (λ r. store r (clean s1)) (reader_start size cmd.value)
      ∙ set_chunks-stored n n 0 cmd token s1 (omega arith)
      ∙ ap (λ k. (ok tt, clean (told peer (chunk_cmds cmd token 0 k) s1)))
          (sym (num_chunks-fit (length cmd.value) size big small))

  common-told :
      (now : ℕ) (token : Bytes) (kind : SetKind) (cmd : SetRequest) (s : S)
      → 0 < (chunk_size (length cmd.key)).0
      → length cmd.value < 2 ^ 32
      → let told_all = told peer (set_cmds now token kind cmd) s in
        handle_set_common peer sizes now token kind cmd (clean s)
        ≡ (ok tt, clean (if (exptime now cmd.exptime).1 then s else told_all))
  unfolding handle_set_common
  common-told now token kind cmd s big small =
      let expired = (exptime now cmd.exptime).1 in
      let told_all = told peer (set_cmds now token kind cmd) s in
      let run : Bool → C S (Unit {0}) = λ b. if b then return tt else live now token kind cmd in
      elim (Bool-cases expired) [
        | inl e ↦
            ap (λ b. run b (clean s)) e
            ∙ ap (λ b. (ok tt, clean (if b then s else told_all))) (sym e)
        | inr e ↦
            ap (λ b. run b (clean s)) e
            ∙ live-told now token kind cmd s big small
            ∙ ap (λ b. (ok tt, clean (if b then s else told_all))) (sym e)
      ]

  pub store-told :
      (now : ℕ) (token : Bytes) (kind : SetKind) (cmd : SetRequest) (s : S)
      → 0 < (chunk_size (length cmd.key)).0
      → length cmd.value < 2 ^ 32
      → let told_all = told peer (set_cmds now token kind cmd) s in
        store peer sizes now token kind cmd (clean s)
        ≡ (ok tt, clean (if (exptime now cmd.exptime).1 then s else told_all))
  unfolding set add replace
  store-told now token plain cmd s big small = common-told now token plain cmd s big small
  store-told now token adding cmd s big small = common-told now token adding cmd s big small
  store-told now token replacing cmd s big small = common-told now token replacing cmd s big small
