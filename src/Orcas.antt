-- ===== src/Orcas.antt =====
-- orcas: the request orchestrators. This module has what they stand on: the interface
-- handlers.Handler (handlers/types.go), the connection's responder, and the state that an
-- orchestrator's methods change. `L1Only`, `L1L2`, `L1L2Batch` and `Locked` have the orchestrators.
--
-- A handler is a record of operations on a state of its own. The two channels that Get and GetE
-- return are the sequence of what the orchestrator's `select` loop takes from them, in that order;
-- that both are closed at the end is what ends the sequence. A responder's method may fail, as a
-- function of the calls before it. The latency histograms and the timer are not modelled.
pub mod Metrics
pub mod Caches
pub mod Branches
pub mod Writes
pub mod Samples
mod Tests
pub mod Inmem
pub mod L1Only
pub mod L1L2
pub mod L1L2Batch
pub mod Locked
use rend.Prelude.{ℕ, ◌+◌, Bool, List, [], ◌∷◌, ◌++◌, Option, none, some}
use rend.Common.{
  Error, SetRequest, GetRequest, DeleteRequest, TouchRequest, GatRequest, GetResponse, GetEResponse,
}
use rend.Protocol.{Reply}
use Metrics.{Metric}

-- What a receive from the pair of channels gives.
pub data Event (A : Type 0) : Type 0 where
  received : A → Event A
  failed : Error → Event A

pub record Handler : Type 1 where
  pub State : Type 0
  pub set : SetRequest → State → Option Error × State
  pub add : SetRequest → State → Option Error × State
  pub replace : SetRequest → State → Option Error × State
  pub append : SetRequest → State → Option Error × State
  pub prepend : SetRequest → State → Option Error × State
  pub get : GetRequest → State → List (Event GetResponse) × State
  pub get_e : GetRequest → State → List (Event GetEResponse) × State
  pub gat : GatRequest → State → (GetResponse × Option Error) × State
  pub delete : DeleteRequest → State → Option Error × State
  pub touch : TouchRequest → State → Option Error × State

-- The error of a responder's method, from the calls before (the last one first) and this one.
abbrev pub Responder : Type 0
Responder = List Reply → Reply → Option Error

-- The states of the two handlers, the calls on the responder and the increments of the counters,
-- the last ones first.
pub record World (S1 S2 : Type 0) : Type 0 where
  pub l1 : S1
  pub l2 : S2
  pub replies : List Reply
  pub counts : List (Metric × ℕ)

-- A method of an orchestrator.
abbrev pub M : Type 0 → Type 0 → Type 0 → Type 0
M S1 S2 A = World S1 S2 → A × World S1 S2

abbrev pub Method : Handler → Handler → Type 0 → Type 0
Method l1 l2 A = M l1.State l2.State A

module _ {S1 S2 : Type 0} where
  infixl 5 ◌>>=◌ ◌>>◌
  abbrev pub ◌>>=◌ : {A B : Type 0} → M S1 S2 A → (A → M S1 S2 B) → M S1 S2 B
  ◌>>=◌ m f w = f (m w).0 (m w).1

  abbrev pub ◌>>◌ : {A B : Type 0} → M S1 S2 A → M S1 S2 B → M S1 S2 B
  ◌>>◌ m k w = k (m w).1

  abbrev pub return : {A : Type 0} → A → M S1 S2 A
  return a w = (a, w)

  -- `metrics.IncCounterBy`, and `metrics.IncCounter`.
  abbrev pub count_by : Metric → ℕ → M S1 S2 (Unit {0})
  count_by m n w = (tt, record w { counts = (m, n) ∷ w.counts })

  abbrev pub count : Metric → M S1 S2 (Unit {0})
  count m = count_by m 1

  -- A call of the L1 handler, of the L2 handler, and of the responder.
  abbrev pub on_l1 : {A : Type 0} → (S1 → A × S1) → M S1 S2 A
  on_l1 op w = ((op w.l1).0, record w { l1 = (op w.l1).1 })

  abbrev pub on_l2 : {A : Type 0} → (S2 → A × S2) → M S1 S2 A
  on_l2 op w = ((op w.l2).0, record w { l2 = (op w.l2).1 })

  abbrev pub reply : Responder → Reply → M S1 S2 (Option Error)
  reply res r w = (res w.replies r, record w { replies = r ∷ w.replies })
