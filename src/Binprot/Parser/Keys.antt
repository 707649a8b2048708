-- ===== src/Binprot/Parser/Keys.antt =====
-- protocol/binprot: the commands of a key and no data, and what the parser makes of them.
use mathlib.Core.List.{append_assoc}
use rend.Prelude.{ℕ, ◌+◌, ◌%◌, ◌^◌, ◌<◌, ◌≡◌, refl, ◌∙◌, false, [], ◌∷◌, ◌++◌, length, Bytes, arith}
use rend.Common.{
  unknown_cmd, Request, get_request, delete_request, touch_request, gat_request, RequestType,
}
use rend.Binprot.Opcode
use rend.Binprot.Wire.{Reader, ◌>>=◌, return, read_string, read_uint32, put_uint32, read_uint32-put}
use rend.Binprot.Headers.{RequestHeader, make_request_header, make_request_header-IsRequestHeader}
use rend.Binprot.Commands.{
  write_key_cmd, write_get_cmd, write_get_e_cmd, write_delete_cmd, write_key_exptime_cmd,
  write_touch_cmd, write_gat_cmd, write_gat_q_cmd,
}
use rend.Binprot.Parser.{
  parsed, failed, finish, dispatch, parse, single_get, single_get, delete_req, touch_req, gat_req,
  dispatch_other,
}
use rend.Binprot.Parser.RoundTrip.{parse_header, read_string-append}

-- A reader of the key and no more, as a continuation of the parser's cases.
abbrev key_reader : RequestHeader → (Bytes → Request) → Reader Request
key_reader h f = do key ← read_string h.key_length; return (f key)

parse_key :
    (opcode : ℕ) (t : RequestType) (f : Bytes → Request) (key rest : Bytes) (opaque : ℕ)
    → length key < 2 ^ 16
    → opaque < 2 ^ 32
    → ((s : Bytes)
        → dispatch (make_request_header opcode (length key) 0 (length key) opaque) s
          ≡ finish t
              (key_reader (make_request_header opcode (length key) 0 (length key) opaque) f s))
    → parse (write_key_cmd opcode key opaque ++ rest) ≡ (parsed (f key) t, rest)
unfolding write_key_cmd make_request_header
parse_key opcode t f key rest opaque hk ho d = rw append_assoc (
    parse_header _ _
      (make_request_header-IsRequestHeader opcode (length key) 0 (length key) opaque ho)
    ∙ d _
    ∙ rw (read_string-append key rest (length key % 2 ^ 16) (omega arith)))

-- The request that the parser makes of a get with no quiet gets before it.
abbrev pub single_request : Bytes → ℕ → Request
single_request key opaque = get_request (record {
  keys = key ∷ [];
  opaques = opaque ∷ [];
  quiet = false ∷ [];
  noop_opaque = 0;
  noop_end = false;
})

-- A get, gete or delete command is read back as the request for its key and opaque; a get as a
-- batch of one.
pub parse-key_cmds :
    (key rest : Bytes) (opaque : ℕ)
    → length key < 2 ^ 16
    → opaque < 2 ^ 32
    → (parse (write_get_cmd key opaque ++ rest)
        ≡ (parsed (single_request key opaque) RequestType.get, rest))
      × (parse (write_get_e_cmd key opaque ++ rest)
          ≡ (parsed (single_request key opaque) RequestType.get_e, rest))
      × (parse (write_delete_cmd key opaque ++ rest) ≡ (
        parsed
            (delete_request (record { key = key; opaque = opaque; quiet = false }))
            RequestType.delete,
        rest,
      ))
unfolding write_get_cmd write_get_e_cmd write_delete_cmd dispatch dispatch_other single_get
    delete_req make_request_header
parse-key_cmds key rest opaque hk ho = (
  parse_key Opcode.get RequestType.get (λ k. single_request k opaque) key rest opaque hk ho
      (λ s. refl),
  parse_key Opcode.get_e RequestType.get_e (λ k. single_request k opaque) key rest opaque hk ho
      (λ s. refl),
  parse_key Opcode.delete RequestType.delete
      (λ k. delete_request (record { key = k; opaque = opaque; quiet = false })) key rest opaque hk
      ho (λ s. refl),
)

abbrev key_exptime_reader : RequestHeader → (ℕ → Bytes → Request) → Reader Request
key_exptime_reader h f = do
  exptime ← read_uint32
  key ← read_string h.key_length
  return (f exptime key)

parse_key_exptime :
    (opcode : ℕ) (t : RequestType) (f : ℕ → Bytes → Request) (key rest : Bytes) (exptime opaque : ℕ)
    → length key < 2 ^ 16
    → exptime < 2 ^ 32
    → opaque < 2 ^ 32
    → ((s : Bytes)
        → dispatch (make_request_header opcode (length key) 4 (length key + 4) opaque) s
          ≡ finish t (
              key_exptime_reader
                (make_request_header opcode (length key) 4 (length key + 4) opaque)
                f
                s))
    → parse (write_key_exptime_cmd opcode key exptime opaque ++ rest)
      ≡ (parsed (f exptime key) t, rest)
unfolding write_key_exptime_cmd make_request_header
parse_key_exptime opcode t f key rest exptime opaque hk he ho d =
    rw (append_assoc, append_assoc)
      (parse_header _ _
          (make_request_header-IsRequestHeader opcode (length key) 4 (length key + 4) opaque ho)
        ∙ d _
        ∙ rw (
          read_uint32-put exptime (key ++ rest) he,
          read_string-append key rest (length key % 2 ^ 16) (omega arith),
        ))

parse_gat_q :
    (key rest : Bytes) (exptime opaque : ℕ)
    → opaque < 2 ^ 32
    → parse (write_gat_q_cmd key exptime opaque ++ rest)
      ≡ (failed RequestType.unknown unknown_cmd, put_uint32 exptime ++ (key ++ rest))
unfolding write_gat_q_cmd write_key_exptime_cmd dispatch dispatch_other make_request_header
parse_gat_q key rest exptime opaque ho =
    rw (append_assoc, append_assoc)
      (parse_header _ _ (
        make_request_header-IsRequestHeader Opcode.gat_q (length key) 4 (length key + 4) opaque ho))

-- A touch or get-and-touch command is read back as the request for its key, expiry and opaque.
-- The quiet get-and-touch command that the package writes is none that its parser knows: it is
-- refused with `unknown_cmd`, and its expiry and key are left on the stream.
pub parse-touch_cmds :
    (key rest : Bytes) (exptime opaque : ℕ)
    → length key < 2 ^ 16
    → exptime < 2 ^ 32
    → opaque < 2 ^ 32
    → (parse (write_touch_cmd key exptime opaque ++ rest) ≡ (
      parsed
          (touch_request (record { key = key; exptime = exptime; opaque = opaque; quiet = false }))
          RequestType.touch,
      rest,
    ))
      × (parse (write_gat_cmd key exptime opaque ++ rest) ≡ (
        parsed
            (gat_request (record { key = key; exptime = exptime; opaque = opaque; quiet = false }))
            RequestType.gat,
        rest,
      ))
      × (parse (write_gat_q_cmd key exptime opaque ++ rest)
          ≡ (failed RequestType.unknown unknown_cmd, put_uint32 exptime ++ (key ++ rest)))
unfolding write_touch_cmd write_gat_cmd write_gat_q_cmd dispatch dispatch_other touch_req gat_req
    make_request_header
parse-touch_cmds key rest exptime opaque hk he ho = (
  parse_key_exptime Opcode.touch RequestType.touch
      (λ e k. touch_request (record { key = k; exptime = e; opaque = opaque; quiet = false })) key
      rest exptime opaque hk he ho (λ s. refl),
  parse_key_exptime Opcode.gat RequestType.gat
      (λ e k. gat_request (record { key = k; exptime = e; opaque = opaque; quiet = false })) key
      rest exptime opaque hk he ho (λ s. refl),
  parse_gat_q key rest exptime opaque ho,
)
