-- ===== src/Chunked/Sets/Reader.antt =====
-- handlers/memcached/chunked/handler.go and chunkedLimitedReader.go: the reader between the chunks of a
-- set.
use rend.Prelude.{
  ℕ, ◌+◌, ◌-◌, ◌*◌, ◌≤◌, ◌<◌, ◌≡◌, refl, ap, ◌∙◌, true, false, [], length, drop, ltb, if◌then◌else◌,
  Bytes, arith,
}
use rend.Chunked.Slices.{drop-drop}
use rend.Chunked.Limited.{Limited, next_chunk, chunk_read}

-- The reader with `i` chunks handed out.
abbrev pub handed_out : ℕ → ℕ → Bytes → ℕ → Limited
handed_out size n value i = record {
  unread = drop (size * i) value;
  remaining = length value - size * i;
  chunk_size = size;
  chunk_rem = size;
  num_chunks = n;
  done_chunks = i;
}

pub handed_out-eq :
    (size n i : ℕ) {u u' : Bytes} {r r' d d' : ℕ}
    → u ≡ u'
    → r ≡ r'
    → d ≡ d'
    → record (handed_out size n [] i) { unread = u; remaining = r; done_chunks = d }
      ≡ record (handed_out size n [] i) { unread = u'; remaining = r'; done_chunks = d' }
handed_out-eq size n i p q e =
    λ j. record (handed_out size n [] i) { unread = p j; remaining = q j; done_chunks = e j }

pub ltb-true : (i n : ℕ) → i < n → ltb i n ≡ true
ltb-true i n h = ground arith

pub ltb-false : (i n : ℕ) → n ≤ i → ltb i n ≡ false
ltb-false i n h = ground arith

pub next_handed_out :
    (size n : ℕ) (value : Bytes) (i : ℕ)
    → i < n
    → next_chunk (chunk_read (handed_out size n value i)) ≡ handed_out size n value (i + 1)
unfolding next_chunk
next_handed_out size n value i h =
    let e : size * i + size ≡ size * (i + 1) = omega arith in
    let r : length value - size * i - size ≡ length value - size * (i + 1) = omega arith in
    ap
      (λ b.
        if b
        then record (chunk_read (handed_out size n value i)) {
          done_chunks = i + 1;
          chunk_rem = size;
        }
        else chunk_read (handed_out size n value i))
      (ltb-true i n h)
    ∙ handed_out-eq size n i (drop-drop size (size * i) value ∙ ap (λ k. drop k value) e) r refl
