-- ===== src/Binprot/Parser/Readers.antt =====
-- protocol/binprot: whether the readers of requests return, and what they leave on the stream.
use rend.Prelude.{
  ℕ, zero, suc, ◌+◌, ◌<◌, ◌≤◌, ◌≡◌, ◌≢◌, refl, ◌⊎◌, inl, inr, Bool, List, [], ◌==◌, leb,
  if◌then◌else◌, length, length-drop, take, drop, Bytes, arith, Bool-cases,
}
use rend.Common.{Error, Request}
use rend.Binprot.Opcode
use rend.Binprot.Wire.{
  Result, ok, err, stuck, Reader, ◌>>=◌, and_then, return, read_full, read_string, read_uint32,
}
use rend.Binprot.Headers.{RequestHeader, read_request_header, request_of_buf_cases}
use rend.Binprot.Parser.{
  set_req, append_prepend_request, batch_loop, batch_end, read_batch_get, read_batch_get_e,
  single_get, delete_req, touch_req, gat_req,
}

-- A result, and no more left on the stream than there was.
abbrev pub Within : {A : Type 0} → ℕ → Result A × Bytes → Type 0
Within n (r, s) = (r ≢ stuck) × (length s ≤ n)

-- A reader that always returns, and puts nothing back.
abbrev pub IsTotal : {A : Type 0} → Reader A → Type 0
IsTotal m = (s : Bytes) → Within (length s) (m s)

and_then-Within :
    {A B : Type 0} (r : Result A) (s : Bytes) (f : A → Reader B) (n : ℕ)
    → Within n (r, s)
    → ((a : A) → IsTotal (f a))
    → Within n (and_then r s f)
and_then-Within (ok a) s f n h t = let (p, q) = t a s in (p, omega (arith, h.1))
and_then-Within (err e) s f n h t = (λ p. cc, h.1)
and_then-Within stuck s f n h t = absurd (h.0 refl)

>>=-IsTotal :
    {A B : Type 0} (m : Reader A) (f : A → Reader B)
    → IsTotal m
    → ((a : A) → IsTotal (f a))
    → IsTotal (m >>= f)
>>=-IsTotal m f h t s = and_then-Within (m s).0 (m s).1 f (length s) (h s) t

return-IsTotal : {A : Type 0} (a : A) → IsTotal (return a)
return-IsTotal a s = (λ p. cc, omega arith)

-- The errors of a stream that ends, and of a header that is none.
abbrev pub IsStreamError : Error → Type 0
IsStreamError e = (e ≡ Error.eof) ⊎ (e ≡ Error.unexpected_eof) ⊎ (e ≡ Error.bad_magic)

-- A read either takes its bytes or fails.
read_full_cases :
    (n : ℕ) (s : Bytes)
    → ((read_full n s ≡ (ok (take n s), drop n s)) × (n ≤ length s))
      ⊎ ((e : Error) × IsStreamError e × (read_full n s ≡ (err e, [])))
unfolding read_full
read_full_cases n s = elim (Bool-cases (leb n (length s))) [
  | inl h ↦ inl (rw h, ground arith)
  | inr h ↦
      inr (
        if length s == 0 then Error.eof else Error.unexpected_eof,
        ground arith,
        rw h (ground arith),
      )
]

read_full-IsTotal : (n : ℕ) → IsTotal (read_full n)
read_full-IsTotal n s = elim (read_full_cases n s) [
  | inl (p, le) ↦ rw p (λ q. cc, omega (arith, length-drop n s))
  | inr (e, io, p) ↦ rw p (λ q. cc, omega arith)
]

read_string-IsTotal : (n : ℕ) → IsTotal (read_string n)
unfolding read_string
read_string-IsTotal n = read_full-IsTotal n

read_uint32-IsTotal : IsTotal read_uint32
unfolding read_uint32
read_uint32-IsTotal = >>=-IsTotal (read_full 4) _ (read_full-IsTotal 4) (λ b. return-IsTotal _)

pub read_request_header_cases :
    (s : Bytes)
    → ((h : RequestHeader) × (s' : Bytes) × (read_request_header s ≡ (ok h, s'))
        × (length s' < length s))
      ⊎ ((e : Error) × (s' : Bytes) × IsStreamError e
          × (read_request_header s ≡ (err e, s'))
          × (length s' ≤ length s))
unfolding read_request_header
read_request_header_cases s = elim (read_full_cases 24 s) [
  | inr (e, io, p) ↦ inr (e, [], io, rw p refl, omega arith)
  | inl (p, le) ↦ elim (request_of_buf_cases (take 24 s) (drop 24 s)) [
    | inr q ↦
        inr (Error.bad_magic, drop 24 s, inr (inr refl), rw p q, omega (arith, length-drop 24 s))
    | inl (h, q) ↦ inl (h, drop 24 s, rw p q, omega (arith, length-drop 24 s))
  ]
]

Within-le : {A : Type 0} {m n : ℕ} (out : Result A × Bytes) → Within m out → m ≤ n → Within n out
Within-le out (p, q) le = (p, omega arith)

batch_end-IsTotal :
    (single : ℕ) (h : RequestHeader) (ks : List Bytes) (os : List ℕ) (qs : List Bool)
    → IsTotal (batch_end single h ks os qs)
unfolding batch_end
batch_end-IsTotal single h ks os qs s = elim (Bool-cases (h.opcode == single)) [
  | inl last ↦
      rw last
        (>>=-IsTotal (read_string h.key_length) _ (read_string-IsTotal _) (λ k. return-IsTotal _) s)
  | inr other ↦ rw other (elim (Bool-cases (h.opcode == Opcode.noop)) [
    | inl noop ↦ rw noop (λ q. cc, omega arith)
    | inr neither ↦ rw neither (λ q. cc, omega arith)
  ])
]

batch_loop-Within :
    (fuel multi single : ℕ) (h : RequestHeader) (ks : List Bytes) (os : List ℕ) (qs : List Bool)
    (s : Bytes)
    → length s < fuel
    → Within (length s) (batch_loop fuel multi single h ks os qs s)
unfolding batch_loop read_string
batch_loop-Within zero multi single h ks os qs s lt = absurd (omega arith)
batch_loop-Within (suc fuel) multi single h ks os qs s lt = elim (Bool-cases (h.opcode == multi)) [
  | inr other ↦ rw other (batch_end-IsTotal single h ks os qs s)
  | inl more ↦ rw more (elim (read_full_cases h.key_length s) [
    | inr (e, io, p) ↦ rw p (λ q. cc, omega arith)
    | inl (p, le) ↦ rw p (elim (read_request_header_cases (drop h.key_length s)) [
      | inr (e, s', io, p', le') ↦ rw p' (λ q. cc, omega (arith, length-drop h.key_length s))
      | inl (h', s', p', shorter) ↦ rw p' (
          Within-le _
            (batch_loop-Within fuel multi single h' _ _ _ s'
              (omega (arith, length-drop h.key_length s)))
            (omega (arith, length-drop h.key_length s)))
    ])
  ])
]

pub read_batch_get-IsTotal : (h : RequestHeader) → IsTotal (read_batch_get h)
unfolding read_batch_get
read_batch_get-IsTotal h s = batch_loop-Within (length s + 1) _ _ h _ _ _ s (omega arith)

pub read_batch_get_e-IsTotal : (h : RequestHeader) → IsTotal (read_batch_get_e h)
unfolding read_batch_get_e
read_batch_get_e-IsTotal h s = batch_loop-Within (length s + 1) _ _ h _ _ _ s (omega arith)

pub set_req-IsTotal : (h : RequestHeader) (quiet : Bool) → IsTotal (set_req h quiet)
unfolding set_req
set_req-IsTotal h quiet = >>=-IsTotal read_uint32 _ read_uint32-IsTotal λ f.
    >>=-IsTotal read_uint32 _ read_uint32-IsTotal λ e.
      >>=-IsTotal (read_string h.key_length) _ (read_string-IsTotal _)
        λ k. >>=-IsTotal (read_full _) _ (read_full-IsTotal _) λ v. return-IsTotal _

pub append_prepend_request-IsTotal :
    (h : RequestHeader) (quiet : Bool) → IsTotal (append_prepend_request h quiet)
unfolding append_prepend_request
append_prepend_request-IsTotal h quiet =
    >>=-IsTotal (read_string h.key_length) _ (read_string-IsTotal _)
      λ k. >>=-IsTotal (read_full _) _ (read_full-IsTotal _) λ v. return-IsTotal _

key_reader-IsTotal : (n : ℕ) (f : Bytes → Request) → IsTotal (do k ← read_string n; return (f k))
key_reader-IsTotal n f = >>=-IsTotal (read_string n) _ (read_string-IsTotal n) λ k. return-IsTotal _

key_exptime_reader-IsTotal :
    (n : ℕ) (f : ℕ → Bytes → Request)
    → IsTotal (do e ← read_uint32; k ← read_string n; return (f e k))
key_exptime_reader-IsTotal n f =
    >>=-IsTotal read_uint32 _ read_uint32-IsTotal λ e. key_reader-IsTotal n (f e)

pub single_get-IsTotal : (h : RequestHeader) → IsTotal (single_get h)
unfolding single_get
single_get-IsTotal h = key_reader-IsTotal h.key_length _

pub delete_req-IsTotal : (h : RequestHeader) → IsTotal (delete_req h)
unfolding delete_req
delete_req-IsTotal h = key_reader-IsTotal h.key_length _

pub gat_req-IsTotal : (h : RequestHeader) → IsTotal (gat_req h)
unfolding gat_req
gat_req-IsTotal h = key_exptime_reader-IsTotal h.key_length _

pub touch_req-IsTotal : (h : RequestHeader) → IsTotal (touch_req h)
unfolding touch_req
touch_req-IsTotal h = key_exptime_reader-IsTotal h.key_length _
