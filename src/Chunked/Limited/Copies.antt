-- ===== src/Chunked/Limited/Copies.antt =====
-- handlers/memcached/chunked/chunkedLimitedReader.go: what a copy of one chunk reads.
use mathlib.Core.List.{append_assoc}
use rend.Prelude.{
  ℕ, zero, suc, ◌+◌, ◌-◌, ◌≤◌, ◌<◌, ◌≡◌, refl, sym, ap, ◌∙◌, [], ◌∷◌, ◌++◌, length, take, drop,
  length-drop, length-take, ◌==◌, Bool-cases, inl, inr, Option, some, Bytes, arith,
}
use rend.Chunked.Slices.{drop-drop}
use rend.Chunked.Limited.{
  Limited, bytes, ended, read_outside, read, least, in_front, copy_on, copy, zeros, padded,
  chunk_read,
}

take_nil : (n : ℕ) → take {A = ℕ} n [] ≡ []
take_nil zero = refl
take_nil (suc n) = refl

pub take-split : (n m k : ℕ) (xs : Bytes) → n + m ≡ k → take n xs ++ take m (drop n xs) ≡ take k xs
take-split zero m k xs e = ap (λ j. take j xs) (omega arith)
take-split (suc n) m zero xs e = absurd (omega arith)
take-split (suc n) m (suc k) [] e = take_nil m
take-split (suc n) m (suc k) (x ∷ xs) e = ap (◌∷◌ x) (take-split n m k xs (omega arith))

zeros-append : (m n k : ℕ) → m + n ≡ k → zeros m ++ zeros n ≡ zeros k
zeros-append zero n k e = ap zeros (omega arith)
zeros-append (suc m) n zero e = absurd (omega arith)
zeros-append (suc m) n (suc k) e = ap (◌∷◌ 0) (zeros-append m n k (omega arith))

-- A piece in front of the rest of a padded string: of the data, or of the zeros.
padded-data :
    (n m k : ℕ) (xs : Bytes)
    → n + m ≡ k
    → n ≤ length xs
    → take n xs ++ padded m (drop n xs) ≡ padded k xs
padded-data n m k xs e h =
    sym (append_assoc (take n xs) (take m (drop n xs)) (zeros (m - length (drop n xs))))
    ∙ ap (λ ys. ys ++ zeros (m - length (drop n xs))) (take-split n m k xs e)
    ∙ ap (λ j. take k xs ++ zeros j) (omega (arith, length-drop n xs))

padded-zeros : (n m k : ℕ) → n + m ≡ k → zeros n ++ padded m [] ≡ padded k []
padded-zeros n m k e =
    ap (λ ys. zeros n ++ (ys ++ zeros (m - 0))) (take_nil m)
    ∙ zeros-append n (m - 0) (k - 0) (omega arith)
    ∙ ap (λ ys. ys ++ zeros (k - 0)) (sym (take_nil k))

-- The reader with `n` bytes less in its chunk, zeros or data.
abbrev less_zeros : ℕ → Limited → Limited
less_zeros n c = record c { chunk_rem = c.chunk_rem - n }

abbrev less_data : ℕ → Limited → Limited
less_data n c = record c {
  unread = drop n c.unread;
  remaining = c.remaining - n;
  chunk_rem = c.chunk_rem - n;
}

read_end :
    (p : ℕ) (c : Limited) → c.done_chunks < c.num_chunks → c.chunk_rem ≡ 0 → read p c ≡ (ended, c)
unfolding read
read_end p c d e = ground arith

read-zeros :
    (p : ℕ) (c : Limited)
    → c.done_chunks < c.num_chunks
    → 0 < c.chunk_rem
    → c.remaining ≡ 0
    → let n = least p c.chunk_rem in read p c ≡ (bytes (zeros n), less_zeros n c)
unfolding read
read-zeros p c d h e = ground arith

read_data :
    (p : ℕ) (c : Limited)
    → 0 < p
    → c.done_chunks < c.num_chunks
    → 0 < c.chunk_rem
    → 0 < c.remaining
    → length c.unread ≡ c.remaining
    → let n = least p (least c.remaining c.chunk_rem) in
      read p c ≡ (bytes (take n c.unread), less_data n c)
unfolding read read_outside
read_data p c hp d h h' e =
    let n = least p (least c.remaining c.chunk_rem) in ground (arith, length-take n c.unread)

-- A copy's result by its parts: the bytes, and what is left unread and remaining.
abbrev copied : Limited → Bytes → Bytes → ℕ → Option (Bytes × Limited)
copied c bs unread remaining =
    some (bs, record c { unread = unread; remaining = remaining; chunk_rem = 0 })

copied-eq :
    (c : Limited) {bs bs' u u' : Bytes} {r r' : ℕ}
    → bs ≡ bs'
    → u ≡ u'
    → r ≡ r'
    → copied c bs u r ≡ copied c bs' u' r'
copied-eq c p q e = λ i. copied c (p i) (q i) (e i)

-- The data read from the start of the copy on, and all of it.
copied_end :
    (c : Limited)
    → c.chunk_rem ≡ 0
    → ◌≡◌ {A = Option (Bytes × Limited)}
        (some ([], c))
        (some (padded c.chunk_rem c.unread, chunk_read c))
copied_end c e =
    let no_zeros : 0 ≡ 0 - length c.unread = omega arith in
    ◌∙◌ {A = Option (Bytes × Limited)} (λ i. some ([], record c { chunk_rem = e i }))
      (copied-eq c (ap zeros no_zeros ∙ sym (ap (λ k. padded k c.unread) e))
        (sym (ap (λ k. drop k c.unread) e)) (omega arith))

drop_nil : (n : ℕ) → drop {A = ℕ} n [] ≡ []
drop_nil zero = refl
drop_nil (suc n) = refl

copied_zeros :
    (n : ℕ) (c : Limited)
    → n ≤ c.chunk_rem
    → c.unread ≡ []
    → c.remaining ≡ 0
    → in_front (zeros n) (some (padded (c.chunk_rem - n) c.unread, chunk_read (less_zeros n c)))
      ≡ some (padded c.chunk_rem c.unread, chunk_read c)
copied_zeros n c h e f =
    copied-eq c
      (ap (λ u. zeros n ++ padded (c.chunk_rem - n) u) e
        ∙ padded-zeros n (c.chunk_rem - n) c.chunk_rem (omega arith)
        ∙ ap (padded c.chunk_rem) (sym e))
      (ap (drop (c.chunk_rem - n)) e
        ∙ drop_nil (c.chunk_rem - n)
        ∙ sym (drop_nil c.chunk_rem)
        ∙ ap (drop c.chunk_rem) (sym e))
      (omega arith)

copied_data :
    (n : ℕ) (c : Limited)
    → n ≤ c.chunk_rem
    → n ≤ length c.unread
    → in_front
        (take n c.unread)
        (some (padded (c.chunk_rem - n) (drop n c.unread), chunk_read (less_data n c)))
      ≡ some (padded c.chunk_rem c.unread, chunk_read c)
copied_data n c h h' =
    copied-eq c (padded-data n (c.chunk_rem - n) c.chunk_rem c.unread (omega arith) h')
      (drop-drop (c.chunk_rem - n) n c.unread ∙ ap (λ k. drop k c.unread) (omega arith))
      (omega arith)

pub empty_of_length : (xs : Bytes) → length xs ≡ 0 → xs ≡ []
empty_of_length [] e = refl
empty_of_length (x ∷ xs) e = absurd (omega arith)

-- A copy within a chunk, whatever buffers it reads into, takes the rest of the chunk: the data that
-- is left, as far as the chunk goes, and zeros behind it. Fuel for one more read than the chunk has
-- bytes is enough.
pub copy-padded :
    (fuel : ℕ) (sizes : ℕ → ℕ) (c : Limited)
    → ((i : ℕ) → 0 < sizes i)
    → c.done_chunks < c.num_chunks
    → length c.unread ≡ c.remaining
    → c.chunk_rem < fuel
    → copy fuel sizes c ≡ some (padded c.chunk_rem c.unread, chunk_read c)
unfolding copy
copy-padded zero sizes c pos d e h = absurd (omega arith)
copy-padded (suc fuel) sizes c pos d e h = elim (Bool-cases (c.chunk_rem == 0)) [
  | inl done ↦
      ap (λ r. copy_on r (copy fuel sizes)) (read_end (sizes fuel) c d (ground arith))
      ∙ copied_end c (ground arith)
  | inr busy ↦ elim (Bool-cases (c.remaining == 0)) [
    | inl none_left ↦
        let n = least (sizes fuel) c.chunk_rem in
        ap (λ r. copy_on r (copy fuel sizes))
          (read-zeros (sizes fuel) c d (ground arith) (ground arith))
        ∙ ap (in_front (zeros n))
            (copy-padded fuel sizes (less_zeros n c) pos d e (ground (arith, pos fuel)))
        ∙ copied_zeros n c (ground arith) (empty_of_length c.unread (ground arith)) (ground arith)
    | inr left ↦
        let n = least (sizes fuel) (least c.remaining c.chunk_rem) in
        ap (λ r. copy_on r (copy fuel sizes))
          (read_data (sizes fuel) c (pos fuel) d (ground arith) (ground arith) e)
        ∙ ap (in_front (take n c.unread)) (
            copy-padded fuel sizes (less_data n c) pos d (ground (arith, length-drop n c.unread))
              (ground (arith, pos fuel)))
        ∙ copied_data n c (ground arith) (ground arith)
  ]
]
