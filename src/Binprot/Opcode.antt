-- ===== src/Binprot/Opcode.antt =====
-- The opcodes of protocol/binprot/types.go.
use Prim.Native.Nat.{ℕ}

abbrev pub get : ℕ
get = 0x00

abbrev pub set : ℕ
set = 0x01

abbrev pub add : ℕ
add = 0x02

abbrev pub replace : ℕ
replace = 0x03

abbrev pub delete : ℕ
delete = 0x04

abbrev pub increment : ℕ
increment = 0x05

abbrev pub decrement : ℕ
decrement = 0x06

abbrev pub quit : ℕ
quit = 0x07

abbrev pub flush : ℕ
flush = 0x08

abbrev pub get_q : ℕ
get_q = 0x09

abbrev pub noop : ℕ
noop = 0x0a

abbrev pub version : ℕ
version = 0x0b

abbrev pub get_k : ℕ
get_k = 0x0c

abbrev pub get_kq : ℕ
get_kq = 0x0d

abbrev pub append : ℕ
append = 0x0e

abbrev pub prepend : ℕ
prepend = 0x0f

abbrev pub stat : ℕ
stat = 0x10

abbrev pub set_q : ℕ
set_q = 0x11

abbrev pub add_q : ℕ
add_q = 0x12

abbrev pub replace_q : ℕ
replace_q = 0x13

abbrev pub delete_q : ℕ
delete_q = 0x14

abbrev pub increment_q : ℕ
increment_q = 0x15

abbrev pub decrement_q : ℕ
decrement_q = 0x16

abbrev pub quit_q : ℕ
quit_q = 0x17

abbrev pub flush_q : ℕ
flush_q = 0x18

abbrev pub append_q : ℕ
append_q = 0x19

abbrev pub prepend_q : ℕ
prepend_q = 0x1a

abbrev pub touch : ℕ
touch = 0x1c

abbrev pub gat : ℕ
gat = 0x1d

abbrev pub gat_q : ℕ
gat_q = 0x1e

abbrev pub gat_k : ℕ
gat_k = 0x23

abbrev pub gat_kq : ℕ
gat_kq = 0x24

abbrev pub invalid : ℕ
invalid = 0xff

abbrev pub get_e : ℕ
get_e = 0x40

abbrev pub get_eq : ℕ
get_eq = 0x41
