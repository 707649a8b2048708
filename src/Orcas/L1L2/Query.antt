-- ===== src/Orcas/L1L2/Query.antt =====
-- orcas/l1l2.go: whether Get goes on to L2.
use rend.Prelude.{◌≡◌, refl, List, [], ◌∷◌, Option, Bytes}
use rend.Common.{Error, GetRequest}
use rend.Orcas.{Handler, Responder, World}
use rend.Orcas.L1L2.Reads.{get_end, query_l2, get_l2}

module _ (l1 l2 : Handler) (res : Responder) where
  pub get_l2-no_keys :
      (req : GetRequest) (err : Option Error) (w : World l1.State l2.State)
      → req.keys ≡ []
      → get_l2 l1 l2 res req err w ≡ get_end l1 l2 res req err w
  unfolding get_l2
  get_l2-no_keys req err w e = rw e refl

  pub get_l2-keys :
      (k : Bytes) (keys : List Bytes) (req : GetRequest) (err : Option Error)
      (w : World l1.State l2.State)
      → req.keys ≡ k ∷ keys
      → get_l2 l1 l2 res req err w ≡ query_l2 l1 l2 res req err w
  unfolding get_l2
  get_l2-keys k keys req err w e = rw e refl
