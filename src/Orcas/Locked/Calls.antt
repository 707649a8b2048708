-- ===== src/Orcas/Locked/Calls.antt =====
-- orcas/types.go: the interface Orca, with calls that may panic, and its calls as values.
use rend.Prelude.{Bool, true, false, List, [], ◌∷◌, Option, none, some, Bytes}
use rend.Common.{
  Error, SetRequest, GetRequest, DeleteRequest, TouchRequest, GatRequest, QuitRequest, NoopRequest,
  VersionRequest, Request, RequestType,
}

-- What a call comes to: its error, or a panic.
pub data Outcome : Type 0 where
  returned : Option Error → Outcome
  panics : Outcome

-- orcas.Orca, with calls that may panic.
pub record PanickingOrca (W : Type 0) : Type 0 where
  pub set : SetRequest → W → Outcome × W
  pub add : SetRequest → W → Outcome × W
  pub replace : SetRequest → W → Outcome × W
  pub append : SetRequest → W → Outcome × W
  pub prepend : SetRequest → W → Outcome × W
  pub delete : DeleteRequest → W → Outcome × W
  pub touch : TouchRequest → W → Outcome × W
  pub get : GetRequest → W → Outcome × W
  pub get_e : GetRequest → W → Outcome × W
  pub gat : GatRequest → W → Outcome × W
  pub noop : NoopRequest → W → Outcome × W
  pub quit : QuitRequest → W → Outcome × W
  pub version : VersionRequest → W → Outcome × W
  pub unknown : W → Outcome × W
  pub error : Option Request → RequestType → Error → W → W

-- A call of a method that answers a request.
pub data Call : Type 0 where
  sets adds replaces appends prepends : SetRequest → Call
  deletes : DeleteRequest → Call
  touches : TouchRequest → Call
  gats : GatRequest → Call
  gets get_es : GetRequest → Call
  noops : NoopRequest → Call
  quits : QuitRequest → Call
  versions : VersionRequest → Call
  unknowns : Call

abbrev pub perform : {W : Type 0} → PanickingOrca W → Call → W → Outcome × W
perform o (sets r) = o.set r
perform o (adds r) = o.add r
perform o (replaces r) = o.replace r
perform o (appends r) = o.append r
perform o (prepends r) = o.prepend r
perform o (deletes r) = o.delete r
perform o (touches r) = o.touch r
perform o (gats r) = o.gat r
perform o (gets r) = o.get r
perform o (get_es r) = o.get_e r
perform o (noops r) = o.noop r
perform o (quits r) = o.quit r
perform o (versions r) = o.version r
perform o unknowns = o.unknown

abbrev sole_key : List Bytes → Option Bytes
sole_key (k ∷ []) = some k
sole_key _ = none

-- The key that a call names, if it is one; a Get or GetE that is asked for one key names it.
abbrev pub key_of : Call → Option Bytes
key_of (sets r) = some r.key
key_of (adds r) = some r.key
key_of (replaces r) = some r.key
key_of (appends r) = some r.key
key_of (prepends r) = some r.key
key_of (deletes r) = some r.key
key_of (touches r) = some r.key
key_of (gats r) = some r.key
key_of (gets r) = sole_key r.keys
key_of (get_es r) = sole_key r.keys
key_of _ = none

-- Whether a call only reads.
abbrev pub is_get : Call → Bool
is_get (gets r) = true
is_get (get_es r) = true
is_get _ = false
