-- ===== src/Conn.antt =====
-- handlers/memcached: a handler's buffered connection to memcached, and the two ways of reading a
-- response header that its packages share (std/handler.go, chunked/handler.go). The other side is a
-- parameter, a function from the bytes that a flush sends to the bytes that it answers. A write to
-- the buffer does not fail, and the answer's end is the end of the stream.
pub mod Answers
use rend.Prelude.{
  ℕ, ◌≡◌, List, [], ◌++◌, Option, none, some, length, leb, drop, if◌then◌else◌, Bytes,
}
use rend.Common.{Error, eof}
use rend.Binprot.Wire.{Result, ok, err, stuck, Reader, read_uint32}
use rend.Binprot.Headers.{ResponseHeader, read_response_header}
use rend.Binprot.Status.{decode_error}

-- bufio.ReadWriter over the socket, with the state of the other side.
pub record Conn (S : Type 0) : Type 0 where
  pub unsent : Bytes
  pub unread : Bytes
  pub peer : S

abbrev pub Peer : Type 0 → Type 0
Peer S = Bytes → S → Bytes × S

abbrev pub C : Type 0 → Type 0 → Type 0
C S A = Conn S → Result A × Conn S

-- A connection with nothing under way.
abbrev pub clean : {S : Type 0} → S → Conn S
clean s = record { unsent = []; unread = []; peer = s }

abbrev pub error_of : {A : Type 0} → Result A → Option Error
error_of (ok a) = none
error_of (err e) = some e
error_of stuck = none

abbrev pub number_or_zero : Result ℕ → ℕ
number_or_zero (ok v) = v
number_or_zero _ = 0

module _ {S : Type 0} where
  abbrev pub and_then : {A B : Type 0} → Result A → Conn S → (A → C S B) → Result B × Conn S
  and_then (ok a) c f = f a c
  and_then (err e) c f = (err e, c)
  and_then stuck c f = (stuck, c)

  infixl 5 ◌>>=◌ ◌>>◌
  abbrev pub ◌>>=◌ : {A B : Type 0} → C S A → (A → C S B) → C S B
  ◌>>=◌ m f c = and_then (m c).0 (m c).1 f

  abbrev pub ◌>>◌ : {A B : Type 0} → C S A → C S B → C S B
  ◌>>◌ m k c = and_then (m c).0 (m c).1 (λ _. k)

  abbrev pub return : {A : Type 0} → A → C S A
  return a c = (ok a, c)

  abbrev pub fail : {A : Type 0} → Error → C S A
  fail e c = (err e, c)

  abbrev pub write : Bytes → C S (Unit {0})
  write bs c = (ok tt, record c { unsent = c.unsent ++ bs })

  abbrev pub flush : Peer S → C S (Unit {0})
  flush peer c =
      let (answer, s) = peer c.unsent c.peer in
      (ok tt, record { unsent = []; unread = c.unread ++ answer; peer = s })

  abbrev pub reading : {A : Type 0} → Reader A → C S A
  reading r c = ((r c.unread).0, record c { unread = (r c.unread).1 })

  -- bufio's `Discard`.
  abbrev pub discard : ℕ → C S (Unit {0})
  discard n c =
      if leb n (length c.unread)
      then (ok tt, record c { unread = drop n c.unread })
      else (err eof, record c { unread = [] })

  -- The error of a response, its body discarded; a failed read of the header has none to discard.
  unfoldable pub discard_error : ResponseHeader → Error → C S (Unit {0})
  discard_error h e = do discard h.total_body_length; fail e

  -- `readResponseHeader`, and what its callers do with an error.
  unfoldable pub expect_success : C S ResponseHeader
  unfolding discard_error
  expect_success = do
    h ← reading read_response_header
    elim (decode_error h) [ some e ↦ do discard_error h e; return h | none ↦ return h ]

  -- `binary.Read` of four bytes, whose error is dropped.
  abbrev pub read_number : C S ℕ
  read_number c =
      (ok (number_or_zero (read_uint32 c.unread).0), record c { unread = (read_uint32 c.unread).1 })
