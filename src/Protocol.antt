-- ===== src/Protocol.antt =====
-- protocol/types.go: the interface `Responder`, as the calls that can be made on it.
use rend.Prelude.{ℕ, Bool}
use rend.Common.{Error, RequestType, GetResponse, GetEResponse}

-- A call of a method with its arguments: the opaque, and what else the method takes.
pub data Reply : Type 0 where
  set add replace append prepend : ℕ → Bool → Reply
  get : GetResponse → Reply
  get_end : ℕ → Bool → Reply
  get_e : GetEResponse → Reply
  gat : GetResponse → Reply
  delete touch noop : ℕ → Reply
  quit : ℕ → Bool → Reply
  version : ℕ → Reply
  error : ℕ → RequestType → Error → Bool → Reply
