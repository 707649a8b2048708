-- ===== src/Orcas/Samples.antt =====
-- Requests and worlds over in-memory handlers.
use rend.Prelude.{true, false, [], ◌∷◌, none, Bytes}
use rend.Common.{SetRequest, GetRequest}
use rend.Orcas.{Handler, Responder, World}
use rend.Orcas.Caches.{IsCache}
use rend.Orcas.Inmem.{inmem, inmem-IsCache}
use rend.Orcas.L1L2.Writes.{set}
use rend.Inmem.{empty}

abbrev pub foo : Bytes
foo = b'f' ∷ b'o' ∷ b'o' ∷ []

abbrev pub bar : Bytes
bar = b'b' ∷ b'a' ∷ b'r' ∷ []

abbrev pub set_foo : SetRequest
set_foo = record {
  key = foo;
  value = 1 ∷ 2 ∷ [];
  flags = 7;
  exptime = 60;
  opaque = 4;
  quiet = false;
}

abbrev pub silent : Responder
silent replies r = none

abbrev pub memory : Handler
memory = inmem 1000

abbrev pub cache : IsCache memory
cache = inmem-IsCache 1000

abbrev pub fresh : World memory.State memory.State
fresh = record { l1 = empty; l2 = empty; replies = []; counts = [] }

abbrev pub stored : World memory.State memory.State
stored = (set memory memory silent set_foo fresh).1

-- L1 has dropped the item that L2 holds.
abbrev pub served : World memory.State memory.State
served = record { l1 = empty; l2 = stored.l2; replies = []; counts = [] }

abbrev pub append_bar : SetRequest
append_bar = record { key = bar; value = 3 ∷ []; flags = 0; exptime = 0; opaque = 5; quiet = true }

abbrev pub get_both : GetRequest
get_both = record {
  keys = foo ∷ bar ∷ [];
  opaques = 4 ∷ 5 ∷ [];
  quiet = true ∷ false ∷ [];
  noop_opaque = 6;
  noop_end = true;
}
