-- ===== src/Conn/Answers.antt =====
-- handlers/memcached: the answers of a server, as a handler reads them.
use rend.Prelude.{
  ℕ, ◌≡◌, refl, ap, ◌∙◌, [], ◌++◌, Option, none, some, length, length-append, drop-append_length,
  Bytes, arith,
}
use rend.Common.{Error}
use rend.Binprot.Wire.{ok, err}
use rend.Binprot.Headers.{
  ResponseHeader, IsResponseHeader, write_response_header, read_response_header,
  read-write_response_header,
}
use rend.Binprot.Status.{decode_error}
use rend.Conn.{
  Conn, Peer, C, flush, ◌>>=◌, ◌>>◌, return, fail, and_then, reading, discard, discard_error,
  expect_success,
}

-- A header with its body.
pub record IsFrame (h : ResponseHeader) (body : Bytes) : Type 0 where
  pub header_ok : IsResponseHeader h
  pub body_ok : length body ≡ h.total_body_length

-- A header and its body in front of what follows.
abbrev pub framed : ResponseHeader → Bytes → Bytes → Bytes
framed h body rest = write_response_header h ++ (body ++ rest)

module _ {S : Type 0} where
  -- A connection with nothing unsent.
  abbrev pub answered : Bytes → S → Conn S
  answered bs s = record { unsent = []; unread = bs; peer = s }

  pub reading_header :
      (h : ResponseHeader) (rest : Bytes) (s : S)
      → IsResponseHeader h
      → reading read_response_header (answered (write_response_header h ++ rest) s)
        ≡ (ok h, answered rest s)
  reading_header h rest s v = rw (read-write_response_header h rest v) refl

  pub discard-append :
      (n : ℕ) (body rest : Bytes) (s : S)
      → length body ≡ n
      → discard n (answered (body ++ rest) s) ≡ (ok tt, answered rest s)
  discard-append n body rest s e =
      rw (← e) (rw (drop-append_length body rest) (ground (arith, length-append body rest)))

  -- A chain goes on behind a step that succeeds, and ends with one that fails.
  pub bind-ok :
      {A B : Type 0} (m : C S A) (f : A → C S B) (c c' : Conn S) (a : A)
      → m c ≡ (ok a, c')
      → (m >>= f) c ≡ f a c'
  bind-ok m f c c' a e = ap (λ r. and_then r.0 r.1 f) e

  pub bind-err :
      {A B : Type 0} (m : C S A) (f : A → C S B) (c c' : Conn S) (e : Error)
      → m c ≡ (err e, c')
      → (m >>= f) c ≡ (err e, c')
  bind-err m f c c' e p = ap (λ r. and_then r.0 r.1 f) p

  -- What `expect_success` makes of the header that it has read, and of the error in it.
  abbrev judge : ResponseHeader → Option Error → C S ResponseHeader
  judge h (some e) = do discard_error h e; return h
  judge h none = return h

  judge-error :
      (h : ResponseHeader) (c c' : Conn S) (e : Error)
      → discard h.total_body_length c ≡ (ok tt, c')
      → judge h (some e) c ≡ (err e, c')
  unfolding discard_error
  judge-error h c c' e p =
      bind-err (discard_error h e) (λ _. return h) c c' e
        (bind-ok (discard h.total_body_length) (λ _. fail e) c c' tt p)

  pub expect_success-ok :
      (h : ResponseHeader) (rest : Bytes) (s : S)
      → IsResponseHeader h
      → decode_error h ≡ none
      → expect_success (answered (write_response_header h ++ rest) s) ≡ (ok h, answered rest s)
  unfolding expect_success
  expect_success-ok h rest s v e =
      bind-ok (reading read_response_header) (λ h. judge h (decode_error h)) _ _ h
        (reading_header h rest s v)
      ∙ ap (λ d. judge h d (answered rest s)) e

  pub expect_success-error :
      (h : ResponseHeader) (body rest : Bytes) (s : S) (e : Error)
      → IsFrame h body
      → decode_error h ≡ some e
      → expect_success (answered (framed h body rest) s) ≡ (err e, answered rest s)
  unfolding expect_success
  expect_success-error h body rest s e v d =
      bind-ok (reading read_response_header) (λ h. judge h (decode_error h)) _ _ h
        (reading_header h (body ++ rest) s v.header_ok)
      ∙ ap (λ x. judge h x (answered (body ++ rest) s)) d
      ∙ judge-error h _ _ e (discard-append h.total_body_length body rest s v.body_ok)

  -- A connection with bytes to send.
  abbrev pub sending : Bytes → S → Conn S
  sending bs s = record { unsent = bs; unread = []; peer = s }

  pub flush-answered :
      (peer : Peer S) (bs answer : Bytes) (s s' : S)
      → peer bs s ≡ (answer, s')
      → flush peer (sending bs s) ≡ (ok tt, answered answer s')
  flush-answered peer bs answer s s' e = ap (λ r. (ok tt, answered r.0 r.1)) e

  pub flush-then :
      {A : Type 0} (peer : Peer S) (k : C S A) (bs answer : Bytes) (s s' : S)
      → peer bs s ≡ (answer, s')
      → (flush peer >> k) (sending bs s) ≡ k (answered answer s')
  flush-then peer k bs answer s s' e =
      bind-ok (flush peer) (λ _. k) (sending bs s) (answered answer s') tt
        (flush-answered peer bs answer s s' e)
