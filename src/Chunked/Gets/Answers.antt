-- ===== src/Chunked/Gets/Answers.antt =====
-- handlers/memcached/chunked/localComm.go and handler.go: what the loop over a batch makes of the
-- answers of memcached.
use mathlib.Core.List.{append_assoc}
use rend.Prelude.{
  ℕ, zero, suc, ◌+◌, ◌-◌, ◌*◌, ◌≤◌, ◌≡◌, refl, sym, ap, ◌∙◌, true, false, Bool-cases, inl, inr, [],
  ◌++◌, length, length-take, length-drop, length-append, length-replicate, take, drop,
  take-append-drop, drop-append_length, ltb, ◌==◌, if◌then◌else◌, none, Bytes, arith,
}
use rend.Binprot.Opcode
use rend.Binprot.Wire.{ok, stuck, read_full, read_full-append}
use rend.Binprot.Headers.{
  ResponseHeader, IsResponseHeader, write_response_header, read_response_header,
}
use rend.Binprot.Status.{decode_error}
use rend.Conn.{◌>>=◌, ◌>>◌, return, reading, discard}
use rend.Conn.Answers.{answered, reading_header, discard-append, bind-ok}
use rend.Chunked.Metadata.{Metadata, token_size}
use rend.Chunked.Slices.{chunk_slice_indices}
use rend.Chunked.Limited.{padded, zeros}
use rend.Chunked.Limited.Copies.{empty_of_length}
use rend.Chunked.Gets.{
  Buffers, Found, noop_found, chunk_found, skip, read_part, read_value, splice, answer_read,
  get_local_into_buf,
}
use rend.Chunked.Gets.Filled.{length-take_le}

-- The answers to a batch: the data of the item, and by the number of the chunk the header, the flags
-- and the token in front of it; and the header of the answer to the no-op.
pub record Batch : Type 0 where
  pub value : Bytes
  pub headers : ℕ → ResponseHeader
  pub extras : ℕ → Bytes
  pub tokens : ℕ → Bytes
  pub noop : ResponseHeader

-- Answers as memcached makes them.
pub record IsBatch (md : Metadata) (b : Batch) : Type 0 where
  pub value_ok : md.length ≡ length b.value
  pub headers_ok : (i : ℕ) → IsResponseHeader (b.headers i)
  pub chunks_ok : (i : ℕ) → ((b.headers i).opcode == Opcode.noop) ≡ false
  pub found_ok : (i : ℕ) → decode_error (b.headers i) ≡ none
  pub extras_ok : (i : ℕ) → length (b.extras i) ≡ 4
  pub tokens_ok : (i : ℕ) → length (b.tokens i) ≡ token_size
  pub noop_header : IsResponseHeader b.noop
  pub noop_ok : (b.noop.opcode == Opcode.noop) ≡ true

abbrev pub chunk_data : ℕ → ℕ → Bytes → Bytes
chunk_data size i value = padded size (drop (size * i) value)

abbrev pub chunk_answer : Metadata → Batch → ℕ → Bytes → Bytes
chunk_answer md b i rest =
    write_response_header (b.headers i)
    ++ (b.extras i ++ (b.tokens i ++ (chunk_data md.chunk_size i b.value ++ rest)))

-- The answers for `m` chunks from the chunk `i` on, and for the no-op behind them.
unfoldable pub answers : Metadata → Batch → ℕ → ℕ → Bytes
answers md b i zero = write_response_header b.noop ++ []
answers md b i (suc m) = chunk_answer md b i (answers md b (i + 1) m)

length-padded : (size : ℕ) (xs : Bytes) → length (padded size xs) ≡ size
length-padded size xs = ground (
  arith,
  length-append (take size xs) (zeros (size - length xs)),
  length-take size xs,
  length-replicate {A = ℕ} (size - length xs) 0,
)

module _ {S : Type 0} where
  pub skip-append :
      (n : ℕ) (xs rest : Bytes) (s : S)
      → length xs ≡ n
      → skip n (answered (xs ++ rest) s) ≡ (ok tt, answered rest s)
  skip-append n xs rest s e = rw (← e) (rw (drop-append_length xs rest) refl)

  reading-append :
      (n : ℕ) (xs rest : Bytes) (s : S)
      → length xs ≡ n
      → reading (read_full n) (answered (xs ++ rest) s) ≡ (ok xs, answered rest s)
  reading-append n xs rest s e = ap (λ r. (r.0, answered r.1 s)) (read_full-append xs rest n e)

  -- The part of a chunk that is read, and the rest of it that is discarded.
  padding-discarded :
      (size n : ℕ) (part behind rest : Bytes) (s : S)
      → length part ≡ n
      → n + length behind ≡ size
      → (if ltb (length part) size then discard (size - length part) else return tt)
          (answered (behind ++ rest) s)
        ≡ (ok tt, answered rest s)
  padding-discarded size n part behind rest s e f = elim (Bool-cases (ltb (length part) size)) [
    | inl h ↦ rw h (discard-append (size - length part) behind rest s (omega arith))
    | inr h ↦
        rw h (ap (λ xs. (ok tt, answered (xs ++ rest) s)) (empty_of_length behind (ground arith)))
  ]

  value_read :
      (md : Metadata) (token value chunk rest : Bytes) (i : ℕ) (s : S)
      → length chunk ≡ md.chunk_size
      → let (start, end) = chunk_slice_indices md.chunk_size i md.length in
        (start ≤ end) × (end - start ≤ md.chunk_size)
        → read_value md token value i (answered (chunk ++ rest) s) ≡ (
          ok (
            chunk_found,
            record { token = token; value = splice value start (take (end - start) chunk) },
          ),
          answered rest s,
        )
  unfolding read_value
  value_read md token value chunk rest i s e (fits, h) =
      let (start, end) = chunk_slice_indices md.chunk_size i md.length in
      let n = end - start in
      let part = take n chunk in
      let behind = drop n chunk in
      let found : Found × Buffers =
        (chunk_found, record { token = token; value = splice value start part }) in
      let l : length part ≡ n = length-take_le n chunk (omega arith) in
      let split : chunk ++ rest ≡ part ++ (behind ++ rest) =
        ap (λ xs. xs ++ rest) (sym (take-append-drop n chunk)) ∙ append_assoc part behind rest in
      let b : ltb end start ≡ false = ground arith in
      ap (λ xs. read_value md token value i (answered xs s)) split
      ∙ ap
          (λ b.
            (if b then (λ c. (stuck, c)) else read_part md token value start n)
              (answered (part ++ (behind ++ rest)) s))
          b
      ∙ bind-ok (reading (read_full n))
          (λ part.
            (if ltb (length part) md.chunk_size
              then discard (md.chunk_size - length part)
              else return tt)
            >> return (chunk_found, record { token = token; value = splice value start part }))
          (answered (part ++ (behind ++ rest)) s) (answered (behind ++ rest) s) part
          (reading-append n part (behind ++ rest) s l)
      ∙ bind-ok
          (if ltb (length part) md.chunk_size
            then discard (md.chunk_size - length part)
            else return tt)
          (λ _. return found) (answered (behind ++ rest) s) (answered rest s) tt
          (padding-discarded md.chunk_size n part behind rest s l
            (omega (arith, length-drop n chunk)))

  pub answer-chunk :
      (md : Metadata) (b : Batch) (bufs : Buffers) (i : ℕ) (rest : Bytes) (s : S)
      → IsBatch md b
      → let (start, end) = chunk_slice_indices md.chunk_size i md.length in
        (start ≤ end) × (end - start ≤ md.chunk_size)
        → get_local_into_buf md bufs i (answered (chunk_answer md b i rest) s) ≡ (
          ok (
            chunk_found,
            record {
              token = b.tokens i;
              value =
                  splice bufs.value start (take (end - start) (chunk_data md.chunk_size i b.value));
            },
          ),
          answered rest s,
        )
  unfolding get_local_into_buf
  answer-chunk md b bufs i rest s v h =
      let chunk = chunk_data md.chunk_size i b.value in
      let r0 = b.tokens i ++ (chunk ++ rest) in
      let r1 = b.extras i ++ r0 in
      bind-ok (reading read_response_header)
        (λ h. answer_read md bufs i h (h.opcode == Opcode.noop) (decode_error h))
        (answered (chunk_answer md b i rest) s) (answered r1 s) (b.headers i)
        (reading_header (b.headers i) r1 s (v.headers_ok i))
      ∙ ap (λ x. answer_read md bufs i (b.headers i) x (decode_error (b.headers i)) (answered r1 s))
          (v.chunks_ok i)
      ∙ ap (λ x. answer_read md bufs i (b.headers i) false x (answered r1 s)) (v.found_ok i)
      ∙ bind-ok (skip 4)
          (λ _. reading (read_full token_size) >>= λ token. read_value md token bufs.value i)
          (answered r1 s) (answered r0 s) tt (skip-append 4 (b.extras i) r0 s (v.extras_ok i))
      ∙ bind-ok (reading (read_full token_size)) (λ token. read_value md token bufs.value i)
          (answered r0 s) (answered (chunk ++ rest) s) (b.tokens i)
          (reading-append token_size (b.tokens i) (chunk ++ rest) s (v.tokens_ok i))
      ∙ value_read md (b.tokens i) bufs.value chunk rest i s
          (length-padded md.chunk_size (drop (md.chunk_size * i) b.value)) h

  pub answer-noop :
      (md : Metadata) (b : Batch) (bufs : Buffers) (i : ℕ) (s : S)
      → IsBatch md b
      → get_local_into_buf md bufs i (answered (write_response_header b.noop ++ []) s)
        ≡ (ok (noop_found, bufs), answered [] s)
  unfolding get_local_into_buf
  answer-noop md b bufs i s v =
      bind-ok (reading read_response_header)
        (λ h. answer_read md bufs i h (h.opcode == Opcode.noop) (decode_error h))
        (answered (write_response_header b.noop ++ []) s) (answered [] s) b.noop
        (reading_header b.noop [] s v.noop_header)
      ∙ ap (λ x. answer_read md bufs i b.noop x (decode_error b.noop) (answered [] s)) v.noop_ok
