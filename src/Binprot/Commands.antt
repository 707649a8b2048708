-- ===== src/Binprot/Commands.antt =====
-- protocol/binprot/commands.go: the requests that a client writes, each as the bytes that reach
-- the writer when no write fails. For the data commands the caller writes the data behind it.
use rend.Prelude.{ℕ, ◌+◌, Bytes, ◌++◌, length}
use rend.Binprot.Opcode
use rend.Binprot.Wire.{put_uint32}
use rend.Binprot.Headers.{make_request_header, write_request_header}

unfoldable pub write_data_cmd_common : ℕ → Bytes → ℕ → ℕ → ℕ → ℕ → Bytes
write_data_cmd_common opcode key flags exptime data_size opaque =
    let extras_len : ℕ = 8 in
    let total_body_length = length key + extras_len + data_size in
    write_request_header
      (make_request_header opcode (length key) extras_len total_body_length opaque)
    ++ (put_uint32 flags ++ (put_uint32 exptime ++ key))

unfoldable pub write_set_cmd : Bytes → ℕ → ℕ → ℕ → ℕ → Bytes
write_set_cmd key flags exptime data_size opaque =
    write_data_cmd_common Opcode.set key flags exptime data_size opaque

unfoldable pub write_add_cmd : Bytes → ℕ → ℕ → ℕ → ℕ → Bytes
write_add_cmd key flags exptime data_size opaque =
    write_data_cmd_common Opcode.add key flags exptime data_size opaque

unfoldable pub write_replace_cmd : Bytes → ℕ → ℕ → ℕ → ℕ → Bytes
write_replace_cmd key flags exptime data_size opaque =
    write_data_cmd_common Opcode.replace key flags exptime data_size opaque

unfoldable pub write_append_prepend_cmd_common : ℕ → Bytes → ℕ → ℕ → ℕ → ℕ → Bytes
write_append_prepend_cmd_common opcode key flags exptime data_size opaque =
    let total_body_length = length key + data_size in
    write_request_header (make_request_header opcode (length key) 0 total_body_length opaque) ++ key

unfoldable pub write_append_cmd : Bytes → ℕ → ℕ → ℕ → ℕ → Bytes
write_append_cmd key flags exptime data_size opaque =
    write_append_prepend_cmd_common Opcode.append key flags exptime data_size opaque

unfoldable pub write_prepend_cmd : Bytes → ℕ → ℕ → ℕ → ℕ → Bytes
write_prepend_cmd key flags exptime data_size opaque =
    write_append_prepend_cmd_common Opcode.prepend key flags exptime data_size opaque

unfoldable pub write_key_cmd : ℕ → Bytes → ℕ → Bytes
write_key_cmd opcode key opaque =
    write_request_header (make_request_header opcode (length key) 0 (length key) opaque) ++ key

unfoldable pub write_get_cmd : Bytes → ℕ → Bytes
write_get_cmd key opaque = write_key_cmd Opcode.get key opaque

unfoldable pub write_get_q_cmd : Bytes → ℕ → Bytes
write_get_q_cmd key opaque = write_key_cmd Opcode.get_q key opaque

unfoldable pub write_get_e_cmd : Bytes → ℕ → Bytes
write_get_e_cmd key opaque = write_key_cmd Opcode.get_e key opaque

unfoldable pub write_get_eq_cmd : Bytes → ℕ → Bytes
write_get_eq_cmd key opaque = write_key_cmd Opcode.get_eq key opaque

unfoldable pub write_delete_cmd : Bytes → ℕ → Bytes
write_delete_cmd key opaque = write_key_cmd Opcode.delete key opaque

unfoldable pub write_key_exptime_cmd : ℕ → Bytes → ℕ → ℕ → Bytes
write_key_exptime_cmd opcode key exptime opaque =
    let extras_len : ℕ = 4 in
    let total_body_length = length key + extras_len in
    write_request_header
      (make_request_header opcode (length key) extras_len total_body_length opaque)
    ++ (put_uint32 exptime ++ key)

unfoldable pub write_touch_cmd : Bytes → ℕ → ℕ → Bytes
write_touch_cmd key exptime opaque = write_key_exptime_cmd Opcode.touch key exptime opaque

unfoldable pub write_gat_cmd : Bytes → ℕ → ℕ → Bytes
write_gat_cmd key exptime opaque = write_key_exptime_cmd Opcode.gat key exptime opaque

unfoldable pub write_gat_q_cmd : Bytes → ℕ → ℕ → Bytes
write_gat_q_cmd key exptime opaque = write_key_exptime_cmd Opcode.gat_q key exptime opaque

unfoldable pub write_noop_cmd : ℕ → Bytes
write_noop_cmd opaque = write_request_header (make_request_header Opcode.noop 0 0 0 opaque)
