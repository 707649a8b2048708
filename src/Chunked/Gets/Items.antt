-- ===== src/Chunked/Gets/Items.antt =====
-- handlers/memcached/chunked/handler.go: the loop over the answers to a batch of chunks, and with it the
-- reading of an item.
use rend.Prelude.{
  ℕ, zero, suc, ◌+◌, ◌-◌, ◌*◌, ◌≤◌, ◌<◌, ◌≡◌, refl, ap, ◌∙◌, Bool, true, false, not, ◌||◌, [], ◌++◌,
  length, length-append, take, replicate, if◌then◌else◌, Option, none, some, Bytes, bytes_eq, arith,
}
use rend.Binprot.Wire.{ok}
use rend.Binprot.Headers.{write_response_header, length-write_response_header}
use rend.Binprot.Commands.{write_noop_cmd}
use rend.Conn.{Peer, C, clean, fail, ◌>>=◌, return}
use rend.Conn.Answers.{answered, bind-ok, flush-then}
use rend.Chunked.Metadata.{Metadata, token_size}
use rend.Chunked.Slices.{chunk_slice_indices}
use rend.Chunked.Gets.{
  Buffers, Gathered, splice, after_answer, gather, gathered_chunk, gathering, gather_all,
  get_chunks, batch,
}
use rend.Chunked.Gets.Filled.{filled, reached, splice-chunk, filled_none}
use rend.Chunked.Gets.Answers.{Batch, IsBatch, chunk_data, answers, answer-chunk, answer-noop}

-- Whether one of `m` chunks from the chunk `i` on has another token than the metadata.
unfoldable pub some_other : Metadata → Batch → ℕ → ℕ → Bool
some_other md b i zero = false
some_other md b i (suc m) = not (bytes_eq md.token (b.tokens i)) || some_other md b (i + 1) m

pub last_token : Batch → ℕ → ℕ → Bytes → Bytes
last_token b i zero token = token
last_token b i (suc m) token = last_token b (i + 1) m (b.tokens i)

-- The loop's state with the chunks before the chunk `i` read.
abbrev pub read_to : Metadata → Batch → ℕ → Bytes → Bool → Gathered
read_to md b i token miss = record {
  bufs = record { token = token; value = filled (reached md.chunk_size i b.value) b.value };
  next = i;
  miss = miss;
  last_err = none;
}

read_to-eq :
    (md : Metadata) (b : Batch) {i i' : ℕ} (token : Bytes) {miss miss' : Bool}
    → i ≡ i'
    → miss ≡ miss'
    → read_to md b i token miss ≡ read_to md b i' token miss'
read_to-eq md b token e f = λ j. read_to md b (e j) token (f j)

or_assoc : (x y z : Bool) → ((x || y) || z) ≡ (x || (y || z))
or_assoc true y z = refl
or_assoc false y z = refl

or_false : (x : Bool) → x ≡ (x || false)
or_false true = refl
or_false false = refl

start_within : (size i m total : ℕ) → size * (i + suc m) < total + size → size * i ≤ total
start_within size i m total h =
    let e : size * (i + suc m) ≡ size * i + size * m + size = omega arith in omega arith

-- The buffer with a chunk's answer read into it, by the length that the metadata has.
abbrev spliced : ℕ → ℕ → Bytes → ℕ → Bytes
spliced size i value total =
    let (start, end) = chunk_slice_indices size i total in
    splice (filled (reached size i value) value) start
      (take (end - start) (chunk_data size i value))

gathered_next :
    (md : Metadata) (b : Batch) (i : ℕ) (token : Bytes) (miss : Bool)
    → IsBatch md b
    → md.chunk_size * i ≤ length b.value
    → let bufs : Buffers = record {
      token = b.tokens i;
      value = spliced md.chunk_size i b.value md.length;
    } in
      gathered_chunk md (read_to md b i token miss) bufs none
      ≡ read_to md b (i + 1) (b.tokens i) (miss || not (bytes_eq md.token (b.tokens i)))
unfolding chunk_slice_indices
gathered_next md b i token miss v h =
    ap
      (λ value.
        gathered_chunk md (read_to md b i token miss) (record { token = b.tokens i; value = value })
          none)
      (ap (spliced md.chunk_size i b.value) v.value_ok ∙ splice-chunk md.chunk_size i b.value h)

slice_fits :
    (size i total : ℕ)
    → size * i ≤ total
    → let (start, end) = chunk_slice_indices size i total in (start ≤ end) × (end - start ≤ size)
unfolding chunk_slice_indices
slice_fits size i total h = (ground arith, ground arith)

module _ {S : Type 0} where
  pub gather-answers :
      (fuel m i : ℕ) (md : Metadata) (b : Batch) (token : Bytes) (miss : Bool) (s : S)
      → IsBatch md b
      → md.chunk_size * (i + m) < length b.value + md.chunk_size
      → m < fuel
      → gather fuel md (read_to md b i token miss) (answered (answers md b i m) s) ≡ (
        ok (read_to md b (i + m) (last_token b i m token) (miss || some_other md b i m)),
        answered [] s,
      )
  unfolding gather answers some_other last_token
  gather-answers zero m i md b token miss s v h f = absurd (omega arith)
  gather-answers (suc fuel) zero i md b token miss s v h f =
      ap (λ r. after_answer md (read_to md b i token miss) r (gather fuel md))
        (answer-noop md b (read_to md b i token miss).bufs i s v)
      ∙ ap (λ g. (ok g, answered [] s)) (read_to-eq md b token (omega arith) (or_false miss))
  gather-answers (suc fuel) (suc m) i md b token miss s v h f =
      let rest = answers md b (i + 1) m in
      let other = not (bytes_eq md.token (b.tokens i)) in
      let e : md.chunk_size * (i + 1 + m) ≡ md.chunk_size * (i + suc m) = omega arith in
      ap (λ r. after_answer md (read_to md b i token miss) r (gather fuel md))
        (answer-chunk md b (read_to md b i token miss).bufs i rest s v (
          slice_fits md.chunk_size i md.length
            (omega (arith, v.value_ok, start_within md.chunk_size i m (length b.value) h))))
      ∙ ap (λ g. gather fuel md g (answered rest s))
          (gathered_next md b i token miss v (start_within md.chunk_size i m (length b.value) h))
      ∙ gather-answers fuel m (i + 1) md b (b.tokens i) (miss || other) s v (omega arith)
          (omega arith)
      ∙ ap (λ g. (ok g, answered [] s))
          (read_to-eq md b (last_token b (i + 1) m (b.tokens i)) (omega arith)
            (or_assoc miss other (some_other md b (i + 1) m)))

rounds_enough : (md : Metadata) (b : Batch) (i m : ℕ) → m ≤ length (answers md b i m)
unfolding answers
rounds_enough md b i zero = omega arith
rounds_enough md b i (suc m) =
    let rest = answers md b (i + 1) m in
    let r0 = chunk_data md.chunk_size i b.value ++ rest in
    let r1 = b.tokens i ++ r0 in
    let r2 = b.extras i ++ r1 in
    omega (
      arith,
      rounds_enough md b (i + 1) m,
      length-append (write_response_header (b.headers i)) r2,
      length-write_response_header (b.headers i),
      length-append (b.extras i) r1,
      length-append (b.tokens i) r0,
      length-append (chunk_data md.chunk_size i b.value) rest,
    )

gathering-eq :
    (md : Metadata) (b : Batch)
    → IsBatch md b
    → gathering md ≡ read_to md b 0 (replicate token_size 0) false
gathering-eq md b v =
    ap
      (λ value. record {
        bufs = record { token = replicate token_size 0; value = value };
        next = 0;
        miss = false;
        last_err = none;
      })
      (filled_none md.chunk_size md.length b.value v.value_ok)

start_at : (size m total : ℕ) → size * m < total → size * (0 + m) < total
start_at size m total h = let e : size * (0 + m) ≡ size * m = omega arith in omega arith

module _ {S : Type 0} (peer : Peer S) where
  -- What `get_chunks` makes of the loop's state.
  abbrev chunks_value : Gathered → C S (Option Bytes)
  chunks_value g = elim g.last_err [
    | some e ↦ fail e
    | none ↦ return (if g.miss then none else some g.bufs.value)
  ]

  -- A batch of which the first `m` chunks are answered.
  pub get_chunks-answers :
      (cmd : Bytes → Bytes) (key : Bytes) (md : Metadata) (b : Batch) (m : ℕ) (s s' : S)
      → IsBatch md b
      → md.chunk_size * m < length b.value + md.chunk_size
      → peer (batch cmd key 0 md.num_chunks ++ write_noop_cmd 0) s ≡ (answers md b 0 m, s')
      → get_chunks peer cmd key md (clean s) ≡ (
        ok (
            if some_other md b 0 m
            then none
            else some (filled (reached md.chunk_size m b.value) b.value)),
        clean s',
      )
  unfolding get_chunks
  get_chunks-answers cmd key md b m s s' v h e =
      let all = answers md b 0 m in
      let fuel = length all + 1 in
      let chosen : ℕ → Option Bytes = λ j.
        if some_other md b 0 m
        then none
        else some (filled (reached md.chunk_size j b.value) b.value) in
      flush-then peer (gather_all md >>= chunks_value)
        (batch cmd key 0 md.num_chunks ++ write_noop_cmd 0) all s s' e
      ∙ bind-ok (gather_all md) chunks_value (answered all s') (clean s') _ (
          ap (λ g. gather fuel md g (answered all s')) (gathering-eq md b v)
          ∙ gather-answers fuel m 0 md b (replicate token_size 0) false s' v
              (start_at md.chunk_size m _ h) (omega (arith, rounds_enough md b 0 m)))
      ∙ ap (λ j. (ok (chosen j), clean s')) (omega arith)
