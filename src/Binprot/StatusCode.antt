-- ===== src/Binprot/StatusCode.antt =====
-- The response status codes of protocol/binprot/types.go.
use Prim.Native.Nat.{ℕ}

abbrev pub success : ℕ
success = 0x00

abbrev pub key_enoent : ℕ
key_enoent = 0x01

abbrev pub key_exists : ℕ
key_exists = 0x02

abbrev pub e2big : ℕ
e2big = 0x03

abbrev pub einval : ℕ
einval = 0x04

abbrev pub not_stored : ℕ
not_stored = 0x05

abbrev pub delta_badval : ℕ
delta_badval = 0x06

abbrev pub auth_error : ℕ
auth_error = 0x20

abbrev pub auth_continue : ℕ
auth_continue = 0x21

abbrev pub unknown_command : ℕ
unknown_command = 0x81

abbrev pub enomem : ℕ
enomem = 0x82

abbrev pub not_supported : ℕ
not_supported = 0x83

abbrev pub internal_error : ℕ
internal_error = 0x84

abbrev pub busy : ℕ
busy = 0x85

abbrev pub temp_failure : ℕ
temp_failure = 0x86

abbrev pub invalid : ℕ
invalid = 0xffff
