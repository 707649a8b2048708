-- ===== src/Binprot/Parser/Total.antt =====
-- protocol/binprot: how `Parse` ends, and what it leaves on the stream.
use rend.Prelude.{
  ℕ, ◌<◌, ◌≤◌, ◌≡◌, ◌≢◌, refl, ◌⊎◌, inl, inr, Bool, true, false, ◌==◌, if◌then◌else◌, length, Bytes,
  arith,
}
use rend.Common.{Error, Request, RequestType}
use rend.Binprot.Opcode
use rend.Binprot.Wire.{Result, ok, err, stuck, Reader}
use rend.Binprot.Headers.{RequestHeader}
use rend.Binprot.Parser.{
  Parsed, failed, out_of_fuel, finish, dispatch, parse, set_req, append_prepend_request,
  read_batch_get, read_batch_get_e, single_get, delete_req, touch_req, gat_req, dispatch_other,
}
use rend.Binprot.Parser.Readers.{
  IsTotal, Within, IsStreamError, read_request_header_cases, read_batch_get-IsTotal,
  read_batch_get_e-IsTotal, set_req-IsTotal, append_prepend_request-IsTotal, single_get-IsTotal,
  delete_req-IsTotal, gat_req-IsTotal, touch_req-IsTotal,
}

-- The same for what `Parse` returns.
abbrev pub Ends : ℕ → Parsed × Bytes → Type 0
Ends n (p, s) = (p ≢ out_of_fuel) × (length s ≤ n)

finish-Ends :
    (t : RequestType) (r : Result Request) (s : Bytes) (n : ℕ)
    → Within n (r, s)
    → Ends n (finish t (r, s))
finish-Ends t (ok r) s n h = (λ q. cc, h.1)
finish-Ends t (err e) s n h = (λ q. cc, h.1)
finish-Ends t stuck s n h = absurd (h.0 refl)

-- A case of a `switch`, and the cases behind it.
case-Ends :
    (b : Bool) (t : RequestType) (m : Reader Request) (s : Bytes) (next : Parsed × Bytes)
    → IsTotal m
    → Ends (length s) next
    → Ends (length s) (if b then finish t (m s) else next)
case-Ends true t m s next h k = finish-Ends t (m s).0 (m s).1 (length s) (h s)
case-Ends false t m s next h k = k

-- A case that reads nothing, and the cases behind it.
case_returns :
    (b : Bool) (p : Parsed) (s : Bytes) (next : Parsed × Bytes)
    → p ≢ out_of_fuel
    → Ends (length s) next
    → Ends (length s) (if b then (p, s) else next)
case_returns true p s next h k = (h, omega arith)
case_returns false p s next h k = k

dispatch_other-Ends : (h : RequestHeader) (s : Bytes) → Ends (length s) (dispatch_other h s)
unfolding dispatch_other
dispatch_other-Ends h s =
    case-Ends (h.opcode == Opcode.get_q) RequestType.get (read_batch_get h) s _
      (read_batch_get-IsTotal h)
      (case-Ends (h.opcode == Opcode.get) RequestType.get (single_get h) s _ (single_get-IsTotal h)
        (case-Ends (h.opcode == Opcode.get_eq) RequestType.get_e (read_batch_get_e h) s _
          (read_batch_get_e-IsTotal h)
          (case-Ends (h.opcode == Opcode.get_e) RequestType.get_e (single_get h) s _
            (single_get-IsTotal h)
            (case-Ends (h.opcode == Opcode.gat) RequestType.gat (gat_req h) s _ (gat_req-IsTotal h)
              (case-Ends (h.opcode == Opcode.delete) RequestType.delete (delete_req h) s _
                (delete_req-IsTotal h)
                (case-Ends (h.opcode == Opcode.touch) RequestType.touch (touch_req h) s _
                  (touch_req-IsTotal h)
                  (case_returns (h.opcode == Opcode.noop) _ s _ (λ q. cc)
                    (case_returns (h.opcode == Opcode.quit) _ s _ (λ q. cc)
                      (case_returns (h.opcode == Opcode.quit_q) _ s _ (λ q. cc)
                        (case_returns (h.opcode == Opcode.version) _ s _ (λ q. cc)
                          (λ q. cc, omega arith)))))))))))

dispatch-Ends : (h : RequestHeader) (s : Bytes) → Ends (length s) (dispatch h s)
unfolding dispatch
dispatch-Ends h s =
    case-Ends (h.opcode == Opcode.set) RequestType.set (set_req h false) s _
      (set_req-IsTotal h false)
      (case-Ends (h.opcode == Opcode.set_q) RequestType.set (set_req h true) s _
        (set_req-IsTotal h true)
        (case-Ends (h.opcode == Opcode.add) RequestType.add (set_req h false) s _
          (set_req-IsTotal h false)
          (case-Ends (h.opcode == Opcode.add_q) RequestType.add (set_req h true) s _
            (set_req-IsTotal h true)
            (case-Ends (h.opcode == Opcode.replace) RequestType.replace (set_req h false) s _
              (set_req-IsTotal h false)
              (case-Ends (h.opcode == Opcode.replace_q) RequestType.replace (set_req h true) s _
                (set_req-IsTotal h true)
                (case-Ends (h.opcode == Opcode.append) RequestType.append
                  (append_prepend_request h false) s _ (append_prepend_request-IsTotal h false)
                  (case-Ends (h.opcode == Opcode.append_q) RequestType.append
                    (append_prepend_request h true) s _ (append_prepend_request-IsTotal h true)
                    (case-Ends (h.opcode == Opcode.prepend) RequestType.prepend
                      (append_prepend_request h false) s _ (append_prepend_request-IsTotal h false)
                      (case-Ends (h.opcode == Opcode.prepend_q) RequestType.prepend
                        (append_prepend_request h true) s _ (append_prepend_request-IsTotal h true)
                        (dispatch_other-Ends h s))))))))))

-- `Parse` fails on the header, or takes at least one byte off the stream.
pub parse_cases :
    (s : Bytes)
    → ((e : Error) × (s' : Bytes) × IsStreamError e
        × (parse s ≡ (failed RequestType.unknown e, s')))
      ⊎ (((parse s).0 ≢ out_of_fuel) × (length (parse s).1 < length s))
unfolding parse
parse_cases s = elim (read_request_header_cases s) [
  | inr (e, s', io, p, le) ↦ inl (e, s', io, rw p refl)
  | inl (h, s', p, shorter) ↦ inr (rw p (let (a, b) = dispatch-Ends h s' in (a, omega arith)))
]

-- `Parse` returns a request or an error on every stream: no batch makes its loop run for ever.
pub parse-ne-out_of_fuel : (s : Bytes) → (parse s).0 ≢ out_of_fuel
parse-ne-out_of_fuel s = elim (parse_cases s) [
  | inl (e, s', io, p) ↦ rw p (λ q. cc)
  | inr (p, shorter) ↦ p
]
