-- ===== src/Std/Tests.antt =====
-- The theorems on the direct handler at concrete inputs, over a server with one item.
use mathlib.Core.Path.{subst}
use rend.Prelude.{
  ◌≡◌, refl, true, false, [], ◌∷◌, ◌++◌, Option, none, some, Bytes, bytes_eq, Bool, arith,
}
use rend.Common.{key_exists}
use rend.Binprot.Wire.{put_uint32}
use rend.Binprot.Commands.{write_get_cmd}
use rend.Binprot.Headers.{ResponseHeader}
use rend.Binprot.Opcode
use rend.Binprot.StatusCode
use rend.Binprot.Status.{decode_error}
use rend.Binprot.Respond.{success_header, error_header}
use rend.Orcas.Writes.{touches, call}
use rend.Orcas.Caches.{Item}
use rend.Conn.{Peer, clean}
use rend.Conn.Answers.{IsFrame, framed}
use rend.Std.{real_handle_get, handler}
use rend.Std.Writes.{call-answered}
use rend.Std.Reads.{IsHit, IsMiss, ServesGets, responses, get-responses}
use rend.Orcas.Samples.{foo, bar}

abbrev hit_header : ResponseHeader
hit_header = success_header Opcode.get 0 4 6 0

abbrev miss_header : ResponseHeader
miss_header = error_header Opcode.get StatusCode.key_enoent 0

abbrev exists_header : ResponseHeader
exists_header = error_header Opcode.add StatusCode.key_exists 0

abbrev stored : Bytes
stored = 1 ∷ 2 ∷ []

abbrev answer_of : Bool → Bytes
answer_of true = framed hit_header (put_uint32 7 ++ stored) []
answer_of false = framed miss_header [] []

abbrev asks_foo : Bytes → Bool
asks_foo bs = bytes_eq bs (write_get_cmd foo 0)

-- A server that holds one item, and one that refuses.
abbrev one_item : Peer (Unit {0})
one_item bs s = (answer_of (asks_foo bs), s)

abbrev refuses : Peer (Unit {0})
refuses bs s = (framed exists_header [] [], s)

abbrev item_of : Bool → Option Item
item_of true = some (stored, 7)
item_of false = none

hit_header-IsHit : IsHit hit_header stored 7
unfolding decode_error put_uint32
hit_header-IsHit = record {
  is_frame = record { header_ok = omega arith; body_ok = refl };
  is_success = refl;
  no_key = refl;
  has_flags = refl;
  flags_fit = omega arith;
}

miss_header-IsMiss : IsMiss miss_header []
unfolding decode_error
miss_header-IsMiss = record {
  is_frame = record { header_ok = omega arith; body_ok = refl };
  is_not_found = refl;
}

exists_header-IsFrame : IsFrame exists_header []
exists_header-IsFrame = record { header_ok = omega arith; body_ok = refl }

refused : decode_error exists_header ≡ some key_exists
unfolding decode_error
refused = refl

-- What the server answers for an item that it holds.
abbrev Told : Bytes → Option Item → Type 0
Told answer none = Unit {0}
Told answer (some (value, flags)) =
    (h : ResponseHeader) × (answer ≡ framed h (put_uint32 flags ++ value) []) × IsHit h value flags

told : (b : Bool) → Told (answer_of b) (item_of b)
told true = (hit_header, refl, hit_header-IsHit)
told false = tt

missed :
    (b : Bool)
    → item_of b ≡ none
    → (h : ResponseHeader) × (body : Bytes) × (answer_of b ≡ framed h body []) × IsMiss h body
missed true e = absurd (ground arith)
missed false e = (miss_header, [], refl, miss_header-IsMiss)

one_item-ServesGets : ServesGets one_item
one_item-ServesGets = record {
  view = λ s k. item_of (asks_foo (write_get_cmd k 0));
  keeps = λ k j s. refl;
  hits = λ k value flags s e.
      let b = asks_foo (write_get_cmd k 0) in subst (Told (answer_of b)) e (told b);
  misses = λ k s e. missed (asks_foo (write_get_cmd k 0)) e;
}

get-responses_example :
    (s' : Unit {0}) × (real_handle_get one_item
        (bar ∷ foo ∷ [])
        (1 ∷ 2 ∷ [])
        (true ∷ false ∷ [])
        (clean tt)
      ≡ (
        responses (one_item-ServesGets.view tt) (bar ∷ foo ∷ []) (1 ∷ 2 ∷ []) (true ∷ false ∷ []),
        clean s',
      ))
    × (one_item-ServesGets.view s' ≡ one_item-ServesGets.view tt)
get-responses_example =
    get-responses one_item one_item-ServesGets (bar ∷ foo ∷ []) (1 ∷ 2 ∷ []) (true ∷ false ∷ []) tt

-- A server that touches, and answers with a body.
abbrev touched_header : ResponseHeader
touched_header = success_header Opcode.touch 0 0 2 0

abbrev accepts : Peer (Unit {0})
accepts bs s = (framed touched_header stored [], s)

touched_header-IsFrame : IsFrame touched_header stored
touched_header-IsFrame = record { header_ok = omega arith; body_ok = refl }

call-answered_example :
    call
      (handler accepts)
      (touches (record { key = foo; exptime = 60; opaque = 0; quiet = false }))
      (clean tt)
    ≡ (decode_error touched_header, clean tt)
call-answered_example =
    call-answered accepts (touches (record { key = foo; exptime = 60; opaque = 0; quiet = false }))
      touched_header stored tt tt refl touched_header-IsFrame (λ e. absurd (ground arith))
