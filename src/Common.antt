-- ===== src/Common.antt =====
-- common/datatypes.go: the errors, request types, requests and responses that the protocols, the
-- orchestrators and the handlers share. A uint32 field is a number; that it is below 2 ^ 32 is a
-- hypothesis where a theorem needs it. Go's nil error is `none` in `Option Error`.
use rend.Prelude.{ℕ, Bool, true, false, List, Bytes}

-- The error values of the package. `bad_magic` is protocol/binprot's, `eof` and `unexpected_eof`
-- are package io's, and `other` is any further error value, such as one of the network.
pub data Error : Type 0 where
  bad_request bad_length bad_flags bad_exptime : Error
  no_error key_not_found key_exists value_too_big invalid_args item_not_stored : Error
  bad_inc_dec_value auth unknown_cmd no_mem not_supported internal busy temp_failure : Error
  bad_magic eof unexpected_eof : Error
  other : ℕ → Error

unfoldable pub is_app_error : Error → Bool
is_app_error key_not_found = true
is_app_error key_exists = true
is_app_error value_too_big = true
is_app_error invalid_args = true
is_app_error item_not_stored = true
is_app_error bad_inc_dec_value = true
is_app_error auth = true
is_app_error unknown_cmd = true
is_app_error no_mem = true
is_app_error not_supported = true
is_app_error internal = true
is_app_error busy = true
is_app_error temp_failure = true
is_app_error _ = false

-- The comparisons `err == common.ErrKeyNotFound` and so on that the callers make.
unfoldable pub is_key_not_found : Error → Bool
is_key_not_found key_not_found = true
is_key_not_found _ = false

unfoldable pub is_key_exists : Error → Bool
is_key_exists key_exists = true
is_key_exists _ = false

unfoldable pub is_item_not_stored : Error → Bool
is_item_not_stored item_not_stored = true
is_item_not_stored _ = false

pub data RequestType : Type 0 where
  unknown get gat get_e set add replace append prepend delete touch noop quit version : RequestType

pub record SetRequest : Type 0 where
  pub key : Bytes
  pub value : Bytes
  pub flags : ℕ
  pub exptime : ℕ
  pub opaque : ℕ
  pub quiet : Bool

pub record GetRequest : Type 0 where
  pub keys : List Bytes
  pub opaques : List ℕ
  pub quiet : List Bool
  pub noop_opaque : ℕ
  pub noop_end : Bool

pub record DeleteRequest : Type 0 where
  pub key : Bytes
  pub opaque : ℕ
  pub quiet : Bool

pub record TouchRequest : Type 0 where
  pub key : Bytes
  pub exptime : ℕ
  pub opaque : ℕ
  pub quiet : Bool

pub record GatRequest : Type 0 where
  pub key : Bytes
  pub exptime : ℕ
  pub opaque : ℕ
  pub quiet : Bool

pub record QuitRequest : Type 0 where
  pub opaque : ℕ
  pub quiet : Bool

pub record NoopRequest : Type 0 where
  pub opaque : ℕ

pub record VersionRequest : Type 0 where
  pub opaque : ℕ

-- The interface `Request`: a value of one of the request structs.
pub data Request : Type 0 where
  set_request : SetRequest → Request
  get_request : GetRequest → Request
  delete_request : DeleteRequest → Request
  touch_request : TouchRequest → Request
  gat_request : GatRequest → Request
  quit_request : QuitRequest → Request
  noop_request : NoopRequest → Request
  version_request : VersionRequest → Request

-- The methods `GetOpaque` and `IsQuiet` of every request.
unfoldable pub get_opaque : Request → ℕ
get_opaque (set_request r) = r.opaque
get_opaque (get_request r) = 0
get_opaque (delete_request r) = r.opaque
get_opaque (touch_request r) = r.opaque
get_opaque (gat_request r) = r.opaque
get_opaque (quit_request r) = r.opaque
get_opaque (noop_request r) = r.opaque
get_opaque (version_request r) = r.opaque

unfoldable pub is_quiet : Request → Bool
is_quiet (set_request r) = r.quiet
is_quiet (get_request r) = false
is_quiet (delete_request r) = r.quiet
is_quiet (touch_request r) = r.quiet
is_quiet (gat_request r) = r.quiet
is_quiet (quit_request r) = r.quiet
is_quiet (noop_request r) = false
is_quiet (version_request r) = false

pub record GetResponse : Type 0 where
  pub key : Bytes
  pub value : Bytes
  pub opaque : ℕ
  pub flags : ℕ
  pub miss : Bool
  pub quiet : Bool

pub record GetEResponse : Type 0 where
  pub key : Bytes
  pub value : Bytes
  pub opaque : ℕ
  pub flags : ℕ
  pub exptime : ℕ
  pub miss : Bool
  pub quiet : Bool
