-- ===== src/Chunked.antt =====
-- handlers/memcached/chunked: the metadata of a chunked item (types.go), and the slices of the data
-- that its chunks hold (keys.go).
pub mod Metadata
pub mod Slices
pub mod Keys
pub mod Limited
pub mod Sets
pub mod Gets
pub mod Changes
mod Tests
