-- ===== src/Binprot/Tests.antt =====
-- Runs of the binary protocol, and its theorems at concrete inputs.
use rend.Prelude.{◌≡◌, ◌≢◌, refl, false, [], ◌∷◌, ◌++◌, none, arith, Bytes}
use rend.Common.{
  bad_request, unknown_cmd, unexpected_eof, touch_request, gat_request, RequestType, GetResponse,
  is_app_error,
}
use rend.Protocol.{Reply}
use rend.Binprot.Opcode
use rend.Binprot.Wire.{put_uint32, put_uint16, read_full}
use rend.Binprot.Headers.{make_request_header, read_request_header, write_request_header}
use rend.Binprot.Commands.{
  write_set_cmd, write_add_cmd, write_replace_cmd, write_touch_cmd, write_gat_cmd, write_gat_q_cmd,
  write_noop_cmd, write_data_cmd_common,
}
use rend.Binprot.Parser.{parsed, failed, out_of_fuel, parse}
use rend.Binprot.Parser.RoundTrip.{data_request, Fits, parse-data_cmds}
use rend.Binprot.Parser.Keys.{parse-touch_cmds}
use rend.Binprot.Parser.Batch.{write_batch, noop_batch}
use rend.Binprot.Parser.Pipeline.{cut_batch, parse-noop_batch, parse_interrupted_batch}
use rend.Binprot.Parser.Total.{parse-ne-out_of_fuel}
use rend.Binprot.Status.{decode_error, error_to_code, decode-error_to_code}
use rend.Binprot.Respond.{error_header}
use rend.Binprot.Respond.Frames.{FitsReply}
use rend.Binprot.Respond.Client.{Heard, respond-Heard}

abbrev hello : Bytes
hello = b'H' ∷ b'e' ∷ b'l' ∷ b'l' ∷ b'o' ∷ []

abbrev world : Bytes
world = b'W' ∷ b'o' ∷ b'r' ∷ b'l' ∷ b'd' ∷ []

-- The request that parser.go gives as its example of a set (there with an add's opcode).
add_hello :
    write_add_cmd hello 0xdead_beef 0xe10 5 0
    ≡ 0x80 ∷ 0x02 ∷ 0 ∷ 5 ∷ 8 ∷ 0 ∷ 0 ∷ 0 ∷ 0 ∷ 0 ∷ 0 ∷ 0x12 ∷ 0 ∷ 0 ∷ 0 ∷ 0 ∷ 0 ∷ 0 ∷ 0 ∷ 0 ∷ 0 ∷ 0
      ∷ 0 ∷ 0 ∷ 0xde ∷ 0xad ∷ 0xbe ∷ 0xef ∷ 0 ∷ 0 ∷ 0x0e ∷ 0x10 ∷ hello
unfolding write_add_cmd write_data_cmd_common write_request_header make_request_header put_uint16
    put_uint32
add_hello = refl

-- A header cut short.
parse_cut : parse (0x80 ∷ 0 ∷ []) ≡ (failed RequestType.unknown unexpected_eof, [])
unfolding parse read_request_header read_full
parse_cut = refl

Fits-hello : Fits hello world 7 60 9
Fits-hello = omega arith

parse-data_cmds_example :
    (parse (write_set_cmd hello 7 60 5 9 ++ (world ++ hello))
      ≡ (parsed (data_request hello world 7 60 9 false) RequestType.set, hello))
    × (parse (write_add_cmd hello 7 60 5 9 ++ (world ++ hello))
        ≡ (parsed (data_request hello world 7 60 9 false) RequestType.add, hello))
    × (parse (write_replace_cmd hello 7 60 5 9 ++ (world ++ hello))
        ≡ (parsed (data_request hello world 7 60 9 false) RequestType.replace, hello))
parse-data_cmds_example = parse-data_cmds hello world hello 7 60 9 Fits-hello

parse-touch_cmds_example :
    (parse (write_touch_cmd hello 60 9 ++ []) ≡ (
      parsed
          (touch_request (record { key = hello; exptime = 60; opaque = 9; quiet = false }))
          RequestType.touch,
      [],
    ))
    × (parse (write_gat_cmd hello 60 9 ++ []) ≡ (
      parsed
          (gat_request (record { key = hello; exptime = 60; opaque = 9; quiet = false }))
          RequestType.gat,
      [],
    ))
    × (parse (write_gat_q_cmd hello 60 9 ++ [])
        ≡ (failed RequestType.unknown unknown_cmd, put_uint32 60 ++ (hello ++ [])))
parse-touch_cmds_example = parse-touch_cmds hello [] 60 9 (omega arith) (omega arith) (omega arith)

parse-noop_batch_example :
    (parse (write_batch Opcode.get_q ((hello, 1) ∷ (world, 2) ∷ []) ++ (write_noop_cmd 3 ++ hello))
      ≡ (parsed (noop_batch ((hello, 1) ∷ (world, 2) ∷ []) 3) RequestType.get, hello))
    × (parse
          (write_batch Opcode.get_eq ((hello, 1) ∷ (world, 2) ∷ []) ++ (write_noop_cmd 3 ++ hello))
        ≡ (parsed (noop_batch ((hello, 1) ∷ (world, 2) ∷ []) 3) RequestType.get_e, hello))
parse-noop_batch_example =
    parse-noop_batch (hello, 1) ((world, 2) ∷ []) 3 hello (omega arith) (omega arith)

-- A delete behind the batch: its key is taken for the next header.
parse_interrupted_batch_example :
    let delete = make_request_header Opcode.delete 5 0 5 2 in
    (parse (write_batch Opcode.get_q ((hello, 1) ∷ []) ++ (write_request_header delete ++ world))
      ≡ (parsed (cut_batch ((hello, 1) ∷ [])) RequestType.get, world))
    × (parse (write_batch Opcode.get_eq ((hello, 1) ∷ []) ++ (write_request_header delete ++ world))
        ≡ (parsed (cut_batch ((hello, 1) ∷ [])) RequestType.get_e, world))
unfolding make_request_header
parse_interrupted_batch_example =
    let delete = make_request_header Opcode.delete 5 0 5 2 in
    parse_interrupted_batch (hello, 1) [] delete delete world (omega arith) (omega arith)
      (omega arith) (omega arith) (omega arith) (omega arith) (omega arith) (omega arith)
      (omega arith)

parse-ne-out_of_fuel_example : (parse (write_batch Opcode.get_q ((hello, 1) ∷ []))).0 ≢ out_of_fuel
parse-ne-out_of_fuel_example = parse-ne-out_of_fuel (write_batch Opcode.get_q ((hello, 1) ∷ []))

decode-error_to_code_example :
    decode_error (error_header Opcode.get (error_to_code bad_request) 0) ≡ none
unfolding is_app_error
decode-error_to_code_example =
    decode-error_to_code (error_header Opcode.get (error_to_code bad_request) 0) bad_request refl

abbrev hit : GetResponse
hit = record {
  key = hello;
  value = world;
  opaque = 9;
  flags = 0xdead_beef;
  miss = false;
  quiet = false;
}

hit_fits : FitsReply (Reply.get hit)
unfolding put_uint32
hit_fits = omega arith

respond-Heard_example : Heard (Reply.get hit) hello
respond-Heard_example = respond-Heard (Reply.get hit) hello hit_fits
