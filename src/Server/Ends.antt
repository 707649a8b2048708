-- ===== src/Server/Ends.antt =====
-- server/default.go: the end of the loop.
use rend.Prelude.{
  ℕ, zero, suc, ◌<◌, ◌≡◌, refl, ◌⊎◌, inl, inr, false, Option, some, arith, length, Bytes,
}
use rend.Common.{Error, RequestType}
use rend.Binprot.Parser.{parse, failed}
use rend.Binprot.Parser.Readers.{IsStreamError}
use rend.Binprot.Parser.Total.{parse_cases}
use rend.Server.{
  Orca, Next, again, aborted, panicked, Ending, closed, recovered, after_round, round, loop,
  is_client_error,
}

-- The connections are closed.
abbrev pub IsOver : Ending → Type 0
IsOver e = ((x : Option Error) × (e ≡ closed x)) ⊎ (e ≡ recovered)

IsStreamError-fatal : (e : Error) → IsStreamError e → is_client_error e ≡ false
unfolding is_client_error
IsStreamError-fatal e (inl p) = rw p refl
IsStreamError-fatal e (inr (inl p)) = rw p refl
IsStreamError-fatal e (inr (inr p)) = rw p refl

module _ {W : Type 0} (orca : Orca W) where
  after_round-IsOver :
      (out : Next × W) (next : W → Ending × W)
      → ((w : W) → IsOver (next w).0)
      → IsOver (after_round orca out next).0
  after_round-IsOver (again, w) next h = h w
  after_round-IsOver (aborted e, w) next h = inl (e, refl)
  after_round-IsOver (panicked, w) next h = inr refl

  round-failed :
      (e : Error) (w : W)
      → IsStreamError e
      → round orca (failed RequestType.unknown e) w ≡ (aborted (some e), w)
  unfolding round
  round-failed e w io = rw (IsStreamError-fatal e io) refl

  -- The loop on the binary protocol ends on every stream, whatever the orchestrator does: within
  -- one round more than the stream has bytes, the connections are closed.
  pub loop-IsOver : (n : ℕ) (s : Bytes) (w : W) → length s < n → IsOver (loop orca n s w).0
  unfolding loop
  loop-IsOver zero s w lt = absurd (omega arith)
  loop-IsOver (suc n) s w lt = elim (parse_cases s) [
    | inl (e, s', io, p) ↦ rw (p, round-failed e w io) (inl (some e, refl))
    | inr (q, shorter) ↦
        after_round-IsOver (round orca (parse s).0 w) _
          (λ v. loop-IsOver n (parse s).1 v (omega arith))
  ]
