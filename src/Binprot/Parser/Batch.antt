-- ===== src/Binprot/Parser/Batch.antt =====
-- protocol/binprot: the loop of `readBatchGet` and `readBatchGetE` over a written batch.
use mathlib.Core.List.{append_assoc}
use rend.Prelude.{
  ℕ, zero, suc, ◌+◌, ◌%◌, ◌^◌, ◌<◌, ◌≤◌, ◌≡◌, ◌≢◌, ap, ◌∙◌, Bool, true, false, List, [], ◌∷◌, ◌++◌,
  ◌==◌, length, length-append, Bytes, arith, All,
}
use rend.Common.{Request, get_request, RequestType}
use rend.Binprot.Headers.{
  RequestHeader, IsRequestHeader, make_request_header, write_request_header,
  read-write_request_header, make_request_header-IsRequestHeader, length-write_request_header,
}
use rend.Binprot.Commands.{write_key_cmd}
use rend.Binprot.Parser.{finish, dispatch, parse, batch_loop, batch_end}
use rend.Binprot.Parser.RoundTrip.{parse_header, read_string-append}

-- Keys with the opaque tokens of their commands.
abbrev pub Items : Type 0
Items = List (Bytes × ℕ)

abbrev pub FitsKey : Bytes × ℕ → Type 0
FitsKey (k, o) = (length k < 2 ^ 16) × (o < 2 ^ 32)

-- The quiet gets of a batch, of the opcode `multi`.
abbrev pub write_batch : ℕ → Items → Bytes
write_batch multi [] = []
write_batch multi ((k, o) ∷ items) = write_key_cmd multi k o ++ write_batch multi items

abbrev pub item_keys : Items → List Bytes
item_keys [] = []
item_keys ((k, o) ∷ items) = k ∷ item_keys items

abbrev pub item_opaques : Items → List ℕ
item_opaques [] = []
item_opaques ((k, o) ∷ items) = o ∷ item_opaques items

abbrev pub all_true : Items → List Bool
all_true [] = []
all_true (i ∷ items) = true ∷ all_true items

-- The header of a quiet get.
abbrev pub header : ℕ → Bytes → ℕ → RequestHeader
header opcode k o = make_request_header opcode (length k) 0 (length k) o

pub ==_refl : (n : ℕ) → (n == n) ≡ true
==_refl n = ground arith

-- One round of the loop, the key of the last header and the next header in front of the stream.
batch_step :
    (fuel multi single : ℕ) (k : Bytes) (o : ℕ) (next : RequestHeader) (body : Bytes)
    (ks : List Bytes) (os : List ℕ) (qs : List Bool)
    → length k < 2 ^ 16
    → IsRequestHeader next
    → batch_loop
        (suc fuel)
        multi
        single
        (header multi k o)
        ks
        os
        qs
        (k ++ (write_request_header next ++ body))
      ≡ batch_loop fuel multi single next (ks ++ k ∷ []) (os ++ o ∷ []) (qs ++ true ∷ []) body
unfolding batch_loop make_request_header
batch_step fuel multi single k o next body ks os qs hk v = rw (
  ==_refl multi,
  read_string-append k (write_request_header next ++ body) (length k % 2 ^ 16) (omega arith),
  read-write_request_header next body v,
)

batch_stop :
    (fuel multi single : ℕ) (last : RequestHeader) (body : Bytes) (ks : List Bytes) (os : List ℕ)
    (qs : List Bool)
    → last.opcode ≢ multi
    → 0 < fuel
    → batch_loop fuel multi single last ks os qs body ≡ batch_end single last ks os qs body
unfolding batch_loop
batch_stop zero multi single last body ks os qs ne h = absurd (omega arith)
batch_stop (suc fuel) multi single last body ks os qs ne h = ground arith

batch_regroup :
    (multi : ℕ) (k : Bytes) (o : ℕ) (items : Items) (tail : Bytes)
    → (write_key_cmd multi k o ++ write_batch multi items) ++ tail
      ≡ write_request_header (header multi k o) ++ (k ++ (write_batch multi items ++ tail))
unfolding write_key_cmd
batch_regroup multi k o items tail = simp append_assoc

batch_loop_written :
    (items : Items) (fuel multi single : ℕ) (k : Bytes) (o : ℕ) (last : RequestHeader)
    (body : Bytes) (ks : List Bytes) (os : List ℕ) (qs : List Bool)
    → All FitsKey ((k, o) ∷ items)
    → IsRequestHeader last
    → last.opcode ≢ multi
    → length items + 2 ≤ fuel
    → batch_loop fuel multi single
        (header multi k o)
        ks
        os
        qs
        (k ++ (write_batch multi items ++ (write_request_header last ++ body)))
      ≡ batch_end single last
          (ks ++ k ∷ item_keys items)
          (os ++ o ∷ item_opaques items)
          (qs ++ true ∷ all_true items)
          body
batch_loop_written items zero multi single k o last body ks os qs fit v ne h = absurd (omega arith)
batch_loop_written [] (suc fuel) multi single k o last body ks os qs fit v ne h =
    batch_step fuel multi single k o last body ks os qs fit.0.0 v
    ∙ batch_stop fuel multi single last body _ _ _ ne (omega arith)
batch_loop_written ((k', o') ∷ items) (suc fuel) multi single k o last body ks os qs fit v ne h =
    ap (λ (s : Bytes). batch_loop (suc fuel) multi single (header multi k o) ks os qs (k ++ s))
      (batch_regroup multi k' o' items (write_request_header last ++ body))
    ∙ batch_step fuel multi single k o (header multi k' o') _ ks os qs fit.0.0
        (make_request_header-IsRequestHeader multi (length k') 0 (length k') o' fit.1.0.1)
    ∙ batch_loop_written items fuel multi single k' o' last body (ks ++ k ∷ []) (os ++ o ∷ [])
        (qs ++ true ∷ []) fit.1 v ne (omega arith)
    ∙ rw (append_assoc ks, append_assoc os, append_assoc qs)

length-write_batch : (multi : ℕ) (items : Items) → length items ≤ length (write_batch multi items)
unfolding write_key_cmd
length-write_batch multi [] = omega arith
length-write_batch multi ((k, o) ∷ items) = omega (
  arith,
  length-append (write_key_cmd multi k o) (write_batch multi items),
  length-append (write_request_header (header multi k o)) k,
  length-write_request_header (header multi k o),
  length-write_batch multi items,
)

-- The fuel of `readBatchGet`, the length of the stream and one, is enough.
batch_fuel :
    (multi : ℕ) (items : Items) (k : Bytes) (last : RequestHeader) (body : Bytes)
    → length items + 2
      ≤ length (k ++ (write_batch multi items ++ (write_request_header last ++ body))) + 1
batch_fuel multi items k last body = omega (
  arith,
  length-append k (write_batch multi items ++ (write_request_header last ++ body)),
  length-append (write_batch multi items) (write_request_header last ++ body),
  length-append (write_request_header last) body,
  length-write_request_header last,
  length-write_batch multi items,
)

-- The request of a batch that a no-op with the opaque `o` ends.
abbrev pub noop_batch : Items → ℕ → Request
noop_batch items o = get_request (record {
  keys = item_keys items;
  opaques = item_opaques items;
  quiet = all_true items;
  noop_opaque = o;
  noop_end = true;
})

-- The request of a batch that an unquiet get of `k` ends.
abbrev pub get_batch : Items → Bytes → ℕ → Request
get_batch items k o = get_request (record {
  keys = item_keys items ++ k ∷ [];
  opaques = item_opaques items ++ o ∷ [];
  quiet = all_true items ++ false ∷ [];
  noop_opaque = 0;
  noop_end = false;
})

-- A batch with any last header is read by `dispatch` up to that header.
pub parse_batch :
    (multi single : ℕ) (t : RequestType) (i : Bytes × ℕ) (items : Items) (last : RequestHeader)
    (body : Bytes)
    → All FitsKey (i ∷ items)
    → IsRequestHeader last
    → last.opcode ≢ multi
    → ((s : Bytes)
        → dispatch (header multi i.0 i.1) s
          ≡ finish t (batch_loop (length s + 1) multi single (header multi i.0 i.1) [] [] [] s))
    → parse (write_batch multi (i ∷ items) ++ (write_request_header last ++ body))
      ≡ finish t (
          batch_end single last
            (item_keys (i ∷ items))
            (item_opaques (i ∷ items))
            (all_true (i ∷ items))
            body)
parse_batch multi single t (k, o) items last body fit v ne d =
    ap parse (batch_regroup multi k o items (write_request_header last ++ body))
    ∙ parse_header _ _ (make_request_header-IsRequestHeader multi (length k) 0 (length k) o fit.0.1)
    ∙ d _
    ∙ ap (finish t) (
        batch_loop_written items _ multi single k o last body [] [] [] fit v ne
          (batch_fuel multi items k last body))
