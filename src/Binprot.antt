-- ===== src/Binprot.antt =====
-- protocol/binprot: the memcached binary protocol. A connection is the list of the bytes that it
-- will still deliver; at its end every read fails as at the end of the stream. The header and
-- buffer pools only save allocations, and the byte counters only count: neither is modelled here.
-- `Opcode` and `StatusCode` have the constants of types.go, `Wire` the readers and the byte order,
-- `Headers` the two headers, `Commands` what a client writes, `Parser` what the server reads,
-- `Status` the error codes and `Respond` the responder.
pub mod Opcode
pub mod StatusCode
pub mod Wire
pub mod Headers
pub mod Commands
pub mod Parser
pub mod Status
pub mod Respond
mod Tests
