-- ===== src/Chunked/Gets/Loop.antt =====
-- handlers/memcached/chunked/handler.go: the loop over the answers to a batch of chunks, in Get, GAT,
-- Append and Prepend: how long it runs.
use rend.Prelude.{
  ℕ, zero, suc, ◌+◌, ◌-◌, ◌≤◌, ◌<◌, ◌≡◌, refl, sym, ap, ◌∙◌, Bool, true, false, [], length, drop,
  take, length-drop, ltb, ◌==◌, if◌then◌else◌, Option, none, some, Bool-cases, inl, inr, Bytes,
  arith,
}
use rend.Common.{Error, eof, unexpected_eof, is_key_not_found}
use rend.Binprot.Opcode
use rend.Binprot.Wire.{Result, ok, err, stuck, read_full, read_full_long}
use rend.Binprot.Headers.{ResponseHeader, response_of_buf, read_response_header}
use rend.Binprot.Status.{decode_error}
use rend.Conn.{Conn, C, ◌>>=◌, and_then, return, fail, reading, discard, discard_error}
use rend.Conn.Answers.{bind-err}
use rend.Chunked.Metadata.{Metadata, token_size}
use rend.Chunked.Slices.{chunk_slice_indices}
use rend.Chunked.Gets.{
  Buffers, Found, noop_found, chunk_found, Gathered, skip, read_part, read_value, answer_read,
  get_local_into_buf, after_answer, gather, gathered_chunk,
}

-- The error of a read of a header of which the stream has only these bytes.
abbrev cut_short : Bytes → Error
cut_short s = if length s == 0 then eof else unexpected_eof

missing-other : (s : Bytes) → is_key_not_found (cut_short s) ≡ false
unfolding is_key_not_found
missing-other s = ground arith

header_missing : (s : Bytes) → length s < 24 → read_response_header s ≡ (err (cut_short s), [])
unfolding read_response_header read_full
header_missing s h = ground arith

response_of_buf-keeps : (buf s : Bytes) → (response_of_buf buf s).1 ≡ s
unfolding response_of_buf
response_of_buf-keeps buf s = ground arith

header_taken : (s : Bytes) → 24 ≤ length s → length (read_response_header s).1 + 24 ≤ length s
unfolding read_response_header
header_taken s h =
    rw (read_full_long 24 s h)
      (omega (arith, ap length (response_of_buf-keeps (take 24 s) (drop 24 s)), length-drop 24 s))

module _ {S : Type 0} where
  -- No more is left unread behind a step than before it.
  abbrev Shrinks : {A : Type 0} → C S A → Type 0
  Shrinks m = (c : Conn S) → length (m c).1.unread ≤ length c.unread

  and_then-Shrinks :
      {A B : Type 0} (r : Result A) (c : Conn S) (f : A → C S B)
      → ((a : A) → Shrinks (f a))
      → length (and_then r c f).1.unread ≤ length c.unread
  and_then-Shrinks (ok a) c f h = h a c
  and_then-Shrinks (err e) c f h = omega arith
  and_then-Shrinks stuck c f h = omega arith

  bind-Shrinks :
      {A B : Type 0} (m : C S A) (f : A → C S B)
      → Shrinks m
      → ((a : A) → Shrinks (f a))
      → Shrinks (m >>= f)
  bind-Shrinks m f h h' c = omega (arith, h c, and_then-Shrinks (m c).0 (m c).1 f h')

  if-Shrinks :
      {A : Type 0} (b : Bool) (m k : C S A) → Shrinks m → Shrinks k → Shrinks (if b then m else k)
  if-Shrinks true m k p q = p
  if-Shrinks false m k p q = q

  discard-Shrinks : (n : ℕ) → Shrinks (discard n)
  discard-Shrinks n c = ground (arith, length-drop n c.unread)

  discard_error-Shrinks : (h : ResponseHeader) (e : Error) → Shrinks (discard_error h e)
  unfolding discard_error
  discard_error-Shrinks h e =
      bind-Shrinks (discard h.total_body_length) (λ _. fail e) (discard-Shrinks h.total_body_length)
        (λ _ c. omega arith)

  skip-Shrinks : (n : ℕ) → Shrinks (skip n)
  skip-Shrinks n c = omega (arith, length-drop n c.unread)

  read_full-Shrinks : (n : ℕ) → Shrinks (reading (read_full n))
  unfolding read_full
  read_full-Shrinks n c = ground (arith, length-drop n c.unread)

  abbrev padding : Metadata → Bytes → C S (Unit {0})
  padding md part =
      if ltb (length part) md.chunk_size then discard (md.chunk_size - length part) else return tt

  padding-Shrinks : (md : Metadata) (part : Bytes) → Shrinks (padding md part)
  padding-Shrinks md part c = ground (arith, length-drop (md.chunk_size - length part) c.unread)

  read_part-Shrinks :
      (md : Metadata) (token value : Bytes) (start n : ℕ)
      → Shrinks (read_part md token value start n)
  read_part-Shrinks md token value start n =
      bind-Shrinks (reading (read_full n)) _ (read_full-Shrinks n)
        (λ part. bind-Shrinks (padding md part) _ (padding-Shrinks md part) (λ _ c. omega arith))

  read_value-Shrinks :
      (md : Metadata) (token value : Bytes) (i : ℕ) → Shrinks (read_value md token value i)
  unfolding read_value
  read_value-Shrinks md token value i =
      let (start, end) = chunk_slice_indices md.chunk_size i md.length in
      if-Shrinks (ltb end start) (λ c. (stuck, c)) _ (λ c. omega arith)
        (read_part-Shrinks md token value start (end - start))

  answer_read-Shrinks :
      (md : Metadata) (bufs : Buffers) (i : ℕ) (h : ResponseHeader) (b : Bool) (e : Option Error)
      → Shrinks (answer_read md bufs i h b e)
  answer_read-Shrinks md bufs i h true e = λ c. omega arith
  answer_read-Shrinks md bufs i h false (some e) =
      bind-Shrinks (discard_error h e) _ (discard_error-Shrinks h e) (λ _ c. omega arith)
  answer_read-Shrinks md bufs i h false none =
      bind-Shrinks {B = Found × Buffers} (skip 4)
        (λ _. reading (read_full token_size) >>= λ token. read_value md token bufs.value i)
        (skip-Shrinks 4)
        (λ _.
          bind-Shrinks (reading (read_full token_size)) (λ token. read_value md token bufs.value i)
            (read_full-Shrinks token_size) (λ token. read_value-Shrinks md token bufs.value i))

  answer_missing :
      (md : Metadata) (bufs : Buffers) (i : ℕ) (c : Conn S)
      → length c.unread < 24
      → get_local_into_buf md bufs i c ≡ (err (cut_short c.unread), record c { unread = [] })
  unfolding get_local_into_buf
  answer_missing md bufs i c h =
      bind-err (reading read_response_header)
        (λ h. answer_read md bufs i h (h.opcode == Opcode.noop) (decode_error h)) c _ _
        (λ j.
          ((header_missing c.unread h j).0, record c { unread = (header_missing c.unread h j).1 }))

  answer_taken :
      (md : Metadata) (bufs : Buffers) (i : ℕ) (c : Conn S)
      → 24 ≤ length c.unread
      → length (get_local_into_buf md bufs i c).1.unread + 24 ≤ length c.unread
  unfolding get_local_into_buf
  answer_taken md bufs i c h = omega (
    arith,
    header_taken c.unread h,
    and_then-Shrinks (reading read_response_header c).0 (reading read_response_header c).1
        (λ h. answer_read md bufs i h (h.opcode == Opcode.noop) (decode_error h))
        (λ h. answer_read-Shrinks md bufs i h (h.opcode == Opcode.noop) (decode_error h)),
  )

  -- A stream without a whole header on it keeps the loop going.
  gather-cut :
      (fuel : ℕ) (md : Metadata) (g : Gathered) (c : Conn S)
      → length c.unread < 24
      → gather (suc fuel) md g c ≡ (stuck, record c { unread = [] })
  unfolding gather
  gather-cut zero md g c h =
      ap (λ r. after_answer md g r (gather zero md)) (answer_missing md g.bufs g.next c h)
      ∙ rw (missing-other c.unread) refl
  gather-cut (suc fuel) md g c h =
      ap (λ r. after_answer md g r (gather (suc fuel) md)) (answer_missing md g.bufs g.next c h)
      ∙ rw (missing-other c.unread) (
          gather-cut fuel md (gathered_chunk md g g.bufs (some (cut_short c.unread)))
            (record c { unread = [] }) (omega arith))

  after_answer-agree :
      (md : Metadata) (g : Gathered) (r : Result (Found × Buffers)) (c : Conn S)
      (f f' : Gathered → C S Gathered)
      → ((g : Gathered) → f g c ≡ f' g c)
      → after_answer md g (r, c) f ≡ after_answer md g (r, c) f'
  after_answer-agree md g (ok (noop_found, bufs)) c f f' h = refl
  after_answer-agree md g (ok (chunk_found, bufs)) c f f' h =
      h (gathered_chunk md g bufs g.last_err)
  after_answer-agree md g (err e) c f f' h = elim (Bool-cases (is_key_not_found e)) [
    | inl p ↦ rw p (h (record g { miss = true }))
    | inr p ↦ rw p (h (gathered_chunk md g g.bufs (some e)))
  ]
  after_answer-agree md g stuck c f f' h = refl

  -- A round for each byte, and one more, is enough.
  gather-enough :
      (fuel fuel' : ℕ) (md : Metadata) (g : Gathered) (c : Conn S)
      → length c.unread < fuel
      → length c.unread < fuel'
      → gather fuel md g c ≡ gather fuel' md g c
  unfolding gather
  gather-enough zero fuel' md g c h h' = absurd (omega arith)
  gather-enough fuel zero md g c h h' = absurd (omega arith)
  gather-enough (suc fuel) (suc fuel') md g c h h' = elim (Bool-cases (ltb (length c.unread) 24)) [
    | inl short ↦
        gather-cut fuel md g c (ground arith) ∙ sym (gather-cut fuel' md g c (ground arith))
    | inr long ↦
        let got = get_local_into_buf md g.bufs g.next c in
        let taken : length got.1.unread + 24 ≤ length c.unread =
          answer_taken md g.bufs g.next c (ground arith) in
        after_answer-agree md g got.0 got.1 (gather fuel md) (gather fuel' md)
          (λ g. gather-enough fuel fuel' md g got.1 (omega arith) (omega arith))
  ]

  gather-stuck :
      (n : ℕ) (md : Metadata) (g : Gathered) (c : Conn S)
      → length c.unread < 24
      → (gather n md g c).0 ≡ stuck
  unfolding gather
  gather-stuck zero md g c h = refl
  gather-stuck (suc n) md g c h = ap (λ r. r.0) (gather-cut n md g c h)

  -- The loop over the answers to a batch of chunks ends, or panics at an answer that was not asked for,
  -- within a round for each byte that has come in and one more, or it never ends: more rounds give the
  -- same, and the same connection. On a stream that has
  -- not a whole header left, a connection that broke before the answer to the no-op, it never ends.
  pub gather-rounds :
      (fuel more n : ℕ) (md : Metadata) (g : Gathered) (c broken : Conn S)
      → length c.unread < fuel
      → length broken.unread < 24
      → (gather (fuel + more) md g c ≡ gather fuel md g c) × ((gather n md g broken).0 ≡ stuck)
  gather-rounds fuel more n md g c broken h h' =
      (gather-enough (fuel + more) fuel md g c (omega arith) h, gather-stuck n md g broken h')
