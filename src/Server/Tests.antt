-- ===== src/Server/Tests.antt =====
-- The server's loop at a concrete stream.
use rend.Prelude.{◌≡◌, false, [], ◌∷◌, ◌++◌, arith, Bytes}
use rend.Protocol.{Reply}
use rend.Binprot.Commands.{write_set_cmd, write_get_cmd}
use rend.Binprot.Parser.RoundTrip.{Fits}
use rend.Orcas.{World}
use rend.Orcas.Inmem.{inmem}
use rend.Inmem.{Handler, empty}
use rend.Server.{loop}
use rend.Server.Ends.{IsOver, loop-IsOver}
use rend.Server.L1Only.{client, loop-set_get}

abbrev foo : Bytes
foo = b'f' ∷ b'o' ∷ b'o' ∷ []

abbrev fresh : World Handler Handler
fresh = record { l1 = empty; l2 = empty; replies = []; counts = [] }

Fits-foo : Fits foo (1 ∷ 2 ∷ []) 7 60 4
Fits-foo = record {
  key_fits = omega arith;
  total_fits = omega arith;
  flags_fit = omega arith;
  exptime_fits = omega arith;
  opaque_fits = omega arith;
}

loop-set_get_example :
    (v : World Handler Handler) × (loop
        (client 1000 (inmem 1000))
        2
        (write_set_cmd foo 7 60 2 4 ++ (1 ∷ 2 ∷ [] ++ (write_get_cmd foo 5 ++ [])))
        fresh
      ≡ loop (client 1000 (inmem 1000)) 0 [] v)
    × (v.replies
        ≡ Reply.get_end 0 false
          ∷ Reply.get (record {
            key = foo;
            value = 1 ∷ 2 ∷ [];
            opaque = 5;
            flags = 7;
            miss = false;
            quiet = false;
          })
          ∷ Reply.set 4 false
          ∷ [])
loop-set_get_example =
    loop-set_get 1000 (inmem 1000) foo (1 ∷ 2 ∷ []) [] 7 60 4 5 0 fresh Fits-foo (omega arith)
      (omega arith)

-- A get command for the key, as it stands on the wire.
abbrev get_foo : Bytes
get_foo =
    0x80 ∷ 0 ∷ 0 ∷ 3 ∷ 0 ∷ 0 ∷ 0 ∷ 0 ∷ 0 ∷ 0 ∷ 0 ∷ 3 ∷ 0 ∷ 0 ∷ 0 ∷ 5 ∷ 0 ∷ 0 ∷ 0 ∷ 0 ∷ 0 ∷ 0 ∷ 0 ∷ 0
    ∷ foo

loop-IsOver_example : IsOver (loop (client 1000 (inmem 1000)) 28 get_foo fresh).0
loop-IsOver_example = loop-IsOver (client 1000 (inmem 1000)) 28 get_foo fresh (omega arith)
