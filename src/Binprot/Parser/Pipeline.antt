-- ===== src/Binprot/Parser/Pipeline.antt =====
-- protocol/binprot: pipelined batches of quiet gets, and how the parser reads them.
use mathlib.Core.List.{append_assoc}
use rend.Prelude.{
  ℕ, ◌%◌, ◌^◌, ◌<◌, ◌≡◌, ◌≢◌, refl, ap, ◌∙◌, Bool, false, List, [], ◌∷◌, ◌++◌, length, Bytes, arith,
  All,
}
use rend.Common.{Request, get_request, RequestType}
use rend.Binprot.Opcode
use rend.Binprot.Wire.{ok}
use rend.Binprot.Headers.{
  RequestHeader, IsRequestHeader, make_request_header, write_request_header,
  make_request_header-IsRequestHeader,
}
use rend.Binprot.Commands.{write_key_cmd, write_get_cmd, write_get_e_cmd, write_noop_cmd}
use rend.Binprot.Parser.{
  parsed, finish, dispatch, parse, batch_end, read_batch_get, read_batch_get_e, dispatch_other,
}
use rend.Binprot.Parser.RoundTrip.{read_string-append}
use rend.Binprot.Parser.Batch.{
  Items, FitsKey, write_batch, item_keys, item_opaques, all_true, header, ==_refl, parse_batch,
  noop_batch, get_batch,
}

-- A batch of quiet gets (of one kind) that a no-op ends is read as one request: its keys and
-- opaques in order, all quiet, with the opaque of the no-op, and what follows the no-op is left.
pub parse-noop_batch :
    (i : Bytes × ℕ) (items : Items) (o : ℕ) (rest : Bytes)
    → All FitsKey (i ∷ items)
    → o < 2 ^ 32
    → (parse (write_batch Opcode.get_q (i ∷ items) ++ (write_noop_cmd o ++ rest))
        ≡ (parsed (noop_batch (i ∷ items) o) RequestType.get, rest))
      × (parse (write_batch Opcode.get_eq (i ∷ items) ++ (write_noop_cmd o ++ rest))
          ≡ (parsed (noop_batch (i ∷ items) o) RequestType.get_e, rest))
unfolding write_noop_cmd dispatch dispatch_other read_batch_get read_batch_get_e batch_end
    make_request_header
parse-noop_batch i items o rest fit ho =
    let last = make_request_header Opcode.noop 0 0 0 o in
    let v = make_request_header-IsRequestHeader Opcode.noop 0 0 0 o ho in
    (
      parse_batch Opcode.get_q Opcode.get RequestType.get i items last rest fit v (omega arith)
          (λ s. refl),
      parse_batch Opcode.get_eq Opcode.get_e RequestType.get_e i items last rest fit v (omega arith)
          (λ s. refl),
    )

batch_end_single :
    (single : ℕ) (k rest : Bytes) (o : ℕ) (ks : List Bytes) (os : List ℕ) (qs : List Bool)
    → length k < 2 ^ 16
    → batch_end single (header single k o) ks os qs (k ++ rest) ≡ (
      ok (
          get_request (record {
            keys = ks ++ k ∷ [];
            opaques = os ++ o ∷ [];
            quiet = qs ++ false ∷ [];
            noop_opaque = 0;
            noop_end = false;
          })),
      rest,
    )
unfolding batch_end make_request_header
batch_end_single single k rest o ks os qs hk =
    rw (==_refl single, read_string-append k rest (length k % 2 ^ 16) (omega arith))

-- A batch of quiet gets that an unquiet get of the same kind ends is read as one request, in which
-- the last key alone is not quiet.
pub parse-get_batch :
    (i : Bytes × ℕ) (items : Items) (k : Bytes) (o : ℕ) (rest : Bytes)
    → All FitsKey (i ∷ items)
    → FitsKey (k, o)
    → (parse (write_batch Opcode.get_q (i ∷ items) ++ (write_get_cmd k o ++ rest))
        ≡ (parsed (get_batch (i ∷ items) k o) RequestType.get, rest))
      × (parse (write_batch Opcode.get_eq (i ∷ items) ++ (write_get_e_cmd k o ++ rest))
          ≡ (parsed (get_batch (i ∷ items) k o) RequestType.get_e, rest))
unfolding write_get_cmd write_get_e_cmd write_key_cmd dispatch dispatch_other read_batch_get
    read_batch_get_e make_request_header
parse-get_batch i items k o rest fit h =
    let v = λ (c : ℕ). make_request_header-IsRequestHeader c (length k) 0 (length k) o h.1 in
    (
      rw (append_assoc (write_request_header (header Opcode.get k o)) k rest) (
          parse_batch Opcode.get_q Opcode.get RequestType.get i items (header Opcode.get k o)
            (k ++ rest) fit (v Opcode.get) (omega arith) (λ s. refl)
          ∙ ap (finish RequestType.get) (batch_end_single Opcode.get k rest o _ _ _ h.0)),
      rw (append_assoc (write_request_header (header Opcode.get_e k o)) k rest) (
          parse_batch Opcode.get_eq Opcode.get_e RequestType.get_e i items (header Opcode.get_e k o)
            (k ++ rest) fit (v Opcode.get_e) (omega arith) (λ s. refl)
          ∙ ap (finish RequestType.get_e) (batch_end_single Opcode.get_e k rest o _ _ _ h.0)),
    )

batch_end_other :
    (single : ℕ) (last : RequestHeader) (rest : Bytes) (ks : List Bytes) (os : List ℕ)
    (qs : List Bool)
    → last.opcode ≢ single
    → last.opcode ≢ Opcode.noop
    → batch_end single last ks os qs rest ≡ (
      ok (
          get_request
            (record { keys = ks; opaques = os; quiet = qs; noop_opaque = 0; noop_end = false })),
      rest,
    )
unfolding batch_end
batch_end_other single last rest ks os qs n1 n2 = ground arith

-- The request of a batch without an end.
abbrev pub cut_batch : Items → Request
cut_batch items = get_request (record {
  keys = item_keys items;
  opaques = item_opaques items;
  quiet = all_true items;
  noop_opaque = 0;
  noop_end = false;
})

-- A batch of quiet gets (of one kind) that any command follows but a get of that kind, quiet or not,
-- or a no-op, is returned as it stands, without an end, and the header of that command is used up: its
-- body is what the next `Parse` starts from.
pub parse_interrupted_batch :
    (i : Bytes × ℕ) (items : Items) (last last' : RequestHeader) (body : Bytes)
    → All FitsKey (i ∷ items)
    → IsRequestHeader last
    → last.opcode ≢ Opcode.get_q
    → last.opcode ≢ Opcode.get
    → last.opcode ≢ Opcode.noop
    → IsRequestHeader last'
    → last'.opcode ≢ Opcode.get_eq
    → last'.opcode ≢ Opcode.get_e
    → last'.opcode ≢ Opcode.noop
    → (parse (write_batch Opcode.get_q (i ∷ items) ++ (write_request_header last ++ body))
        ≡ (parsed (cut_batch (i ∷ items)) RequestType.get, body))
      × (parse (write_batch Opcode.get_eq (i ∷ items) ++ (write_request_header last' ++ body))
          ≡ (parsed (cut_batch (i ∷ items)) RequestType.get_e, body))
unfolding dispatch dispatch_other read_batch_get read_batch_get_e
parse_interrupted_batch i items last last' body fit v n1 n2 n3 v' n1' n2' n3' =
    let is = i ∷ items in
    (
      parse_batch Opcode.get_q Opcode.get RequestType.get i items last body fit v n1
            (unfold make_request_header in λ s. refl)
          ∙ rw
              (batch_end_other Opcode.get last body (item_keys is) (item_opaques is) (all_true is)
                n2 n3)
              refl,
      parse_batch Opcode.get_eq Opcode.get_e RequestType.get_e i items last' body fit v' n1'
            (unfold make_request_header in λ s. refl)
          ∙ rw
              (batch_end_other Opcode.get_e last' body (item_keys is) (item_opaques is)
                (all_true is) n2' n3')
              refl,
    )
