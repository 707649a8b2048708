-- ===== src/Chunked/Sets/Commands.antt =====
-- handlers/memcached/chunked/handler.go: the commands that Set, Add and Replace send, in order.
use rend.Prelude.{ℕ, zero, suc, ◌+◌, ◌*◌, List, [], ◌∷◌, ◌++◌, length, drop, Bytes}
use rend.Common.{SetRequest}
use rend.Binprot.Commands.{write_set_cmd}
use rend.Conn.{Peer, C}
use rend.Chunked.Metadata.{metadata_size, write_metadata}
use rend.Chunked.Keys.{meta_key, chunk_key}
use rend.Chunked.Limited.{padded}
use rend.Chunked.Sets.{
  chunk_size, SetKind, meta_cmd, new_metadata, set, add, replace, plain, adding, replacing,
}

-- The method of a kind.
abbrev pub store :
    {S : Type 0} → Peer S → (ℕ → ℕ) → ℕ → Bytes → SetKind → SetRequest → C S (Unit {0})
store peer sizes now token plain = set peer sizes now token
store peer sizes now token adding = add peer sizes now token
store peer sizes now token replacing = replace peer sizes now token

-- The commands, in order: the metadata's, and those of `n` chunks from the chunk `i` on, each the token
-- and its part of the data, filled up with zeros.
abbrev pub chunk_cmd : SetRequest → Bytes → ℕ → Bytes
chunk_cmd cmd token i =
    let (data_size, full_size) = chunk_size (length cmd.key) in
    (write_set_cmd (chunk_key cmd.key i) cmd.flags cmd.exptime full_size 0 ++ token)
    ++ padded data_size (drop (data_size * i) cmd.value)

unfoldable pub chunk_cmds : SetRequest → Bytes → ℕ → ℕ → List Bytes
chunk_cmds cmd token i zero = []
chunk_cmds cmd token i (suc n) = chunk_cmd cmd token i ∷ chunk_cmds cmd token (i + 1) n

abbrev pub set_cmds : ℕ → Bytes → SetKind → SetRequest → List Bytes
set_cmds now token kind cmd =
    let md = new_metadata now token cmd in
    (meta_cmd kind (meta_key cmd.key) cmd.flags cmd.exptime metadata_size 0 ++ write_metadata md)
    ∷ chunk_cmds cmd token 0 md.num_chunks

-- The other side, behind a number of commands.
unfoldable pub told : {S : Type 0} → Peer S → List Bytes → S → S
told peer [] s = s
told peer (bs ∷ cmds) s = told peer cmds (peer bs s).1
