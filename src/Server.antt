-- ===== src/Server.antt =====
-- server/default.go: the loop that reads requests, has an orchestrator perform them, and closes the
-- connection on an error that it cannot answer. The parser is the binary protocol's. A failed type
-- assertion on a request panics, and the deferred function closes the connection. The command
-- counters and histograms are not modelled.
pub mod L1Only
pub mod Ends
mod Tests
use rend.Prelude.{ℕ, zero, suc, Bool, true, false, Option, none, some, if◌then◌else◌, Bytes}
use rend.Common.{
  Error, bad_request, bad_length, bad_flags, bad_exptime, is_app_error, SetRequest, GetRequest,
  DeleteRequest, TouchRequest, GatRequest, QuitRequest, NoopRequest, VersionRequest, Request,
  set_request, get_request, delete_request, touch_request, gat_request, quit_request, noop_request,
  version_request, RequestType,
}
use rend.Binprot.Parser.{Parsed, parsed, failed, out_of_fuel, parse}

-- orcas.Orca, over a state of the orchestrator and what it calls.
pub record Orca (W : Type 0) : Type 0 where
  pub set : SetRequest → W → Option Error × W
  pub add : SetRequest → W → Option Error × W
  pub replace : SetRequest → W → Option Error × W
  pub append : SetRequest → W → Option Error × W
  pub prepend : SetRequest → W → Option Error × W
  pub delete : DeleteRequest → W → Option Error × W
  pub touch : TouchRequest → W → Option Error × W
  pub get : GetRequest → W → Option Error × W
  pub get_e : GetRequest → W → Option Error × W
  pub gat : GatRequest → W → Option Error × W
  pub noop : NoopRequest → W → Option Error × W
  pub quit : QuitRequest → W → Option Error × W
  pub version : VersionRequest → W → Option Error × W
  pub unknown : W → Option Error × W
  pub error : Option Request → RequestType → Error → W → W

-- What one round of the loop comes to.
pub data Next : Type 0 where
  again : Next
  aborted : Option Error → Next
  panicked : Next

-- How a connection ends; the last is the bound of this description.
pub data Ending : Type 0 where
  closed : Option Error → Ending
  recovered : Ending
  out_of_rounds : Ending

-- The errors that the loop answers itself when the parser returns them.
unfoldable pub is_client_error : Error → Bool
is_client_error bad_request = true
is_client_error bad_length = true
is_client_error bad_flags = true
is_client_error bad_exptime = true
is_client_error _ = false

module _ {W : Type 0} (orca : Orca W) where
  -- The `switch` over the request types, but for Quit: `none` where the type assertion fails.
  unfoldable pub perform : RequestType → Request → W → Option (Option Error × W)
  perform RequestType.set (set_request r) w = some (orca.set r w)
  perform RequestType.add (set_request r) w = some (orca.add r w)
  perform RequestType.replace (set_request r) w = some (orca.replace r w)
  perform RequestType.append (set_request r) w = some (orca.append r w)
  perform RequestType.prepend (set_request r) w = some (orca.prepend r w)
  perform RequestType.delete (delete_request r) w = some (orca.delete r w)
  perform RequestType.touch (touch_request r) w = some (orca.touch r w)
  perform RequestType.get (get_request r) w = some (orca.get r w)
  perform RequestType.get_e (get_request r) w = some (orca.get_e r w)
  perform RequestType.gat (gat_request r) w = some (orca.gat r w)
  perform RequestType.noop (noop_request r) w = some (orca.noop r w)
  perform RequestType.version (version_request r) w = some (orca.version r w)
  perform RequestType.unknown r w = some (orca.unknown w)
  perform _ r w = none

  -- What follows the `switch`: an error of the application is answered, any other ends the connection.
  unfoldable pub conclude : Request → RequestType → Option Error × W → Next × W
  conclude r t (none, w) = (again, w)
  conclude r t (some e, w) =
      if is_app_error e then (again, orca.error (some r) t e w) else (aborted (some e), w)

  unfoldable pub round : Parsed → W → Next × W
  unfolding perform conclude
  round (failed t e) w =
      if is_client_error e
      then (again, orca.error none RequestType.unknown e w)
      else (aborted (some e), w)
  round (parsed (quit_request r) RequestType.quit) w = (aborted none, (orca.quit r w).1)
  round (parsed r t) w = elim (perform t r w) [ none ↦ (panicked, w) | some out ↦ conclude r t out ]
  round out_of_fuel w = (panicked, w)

  -- On to the next round, or out of the loop.
  abbrev pub after_round : Next × W → (W → Ending × W) → Ending × W
  after_round (again, w) next = next w
  after_round (aborted e, w) next = (closed e, w)
  after_round (panicked, w) next = (recovered, w)

  -- The loop, for at most so many rounds.
  unfoldable pub loop : ℕ → Bytes → W → Ending × W
  unfolding round
  loop zero s w = (out_of_rounds, w)
  loop (suc n) s w = after_round (round (parse s).0 w) (loop n (parse s).1)
