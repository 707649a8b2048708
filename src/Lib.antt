-- ===== src/Lib.antt =====
-- Rend, a proxy in front of memcached, as a verification library.
--
-- A connection of the server reads requests with a protocol's parser, hands each to an orchestrator,
-- which calls one or two handlers (caches) and answers through the protocol's responder. The modules
-- follow that order.
--
--   Common     common/datatypes.go: errors, requests and responses. A struct is a record, the interface
--              Request a data type with one constructor for each struct. A uint32 is a number, and
--              theorems that need it below 2 ^ 32 say so.
--   Protocol   protocol/types.go: the methods of Responder, each call being a value of `Reply`.
--   Binprot    protocol/binprot: Opcode, StatusCode and Status are types.go, Headers is headers.go,
--              Commands is commands.go, Parser is parser.go and Respond is respond.go; Wire has the
--              readers and the big-endian integers of packages io and encoding/binary. A stream is
--              the list of bytes still to come, and the end of the list is the end of the stream. A
--              writer is the list of bytes written. Parser.RoundTrip, Keys, Batch and Pipeline are
--              about what is read of what Commands writes, and Readers and Total about the end of Parse.
--              Respond.Frames and Client say what a client reads of a response.
--   Inmem      handlers/inmem/inmem.go: the handler that keeps a map. Live says what is visible at a
--              second, Answers what Get answers, and Refusals when the methods refuse.
--   Orcas      orcas: the handler interface of handlers/types.go is the record `Handler`, over a state
--              of its own. An orchestrator's method changes a `World`: the states of the two handlers,
--              the calls on the responder and the increments of the counters. L1Only is l1only.go and
--              L1L2 is l1l2.go (Writes, Keys and Reads have its methods). Caches states what a cache
--              promises, as laws on a lossy view of it, and Inmem is about the in-memory handler as
--              such a cache. L1L2.Levels, Gat, Fill and Agreement compare the two levels, Served and Answered
--              say what Get sends and Errors what it forgets, and Outcomes (of both) what the methods
--              that write one key return and send. L1L2Batch is l1l2batch.go, in the same order, with
--              Fill for what it never does to L1. Locked is locked.go: Buckets and Sets choose the lock of
--              a key, Calls has the interface of an orchestrator that may panic, Methods the methods over
--              any such orchestrator, Runs the locks and calls of each method in order, Reads what Get
--              answers, and Threads the interleavings of these runs on several connections.
--   Server     server/default.go: the loop of a connection over the binary parser and an orchestrator,
--              which is a record of its methods. L1Only puts l1only.go and the in-memory handler in,
--              and follows a client's commands from the bytes to the replies; Ends is about its end.
--   Conn       handlers/memcached: a handler's connection to memcached, which is a parameter: a function
--              from the bytes that a flush sends to the bytes that come back. Answers says how a response
--              is read.
--   Std        handlers/memcached/std: the handler that passes requests on, handler.go and
--              localComm.go. Writes and Reads say what it sends and what it makes of the answers.
--   Chunked    handlers/memcached/chunked: Metadata is the record of types.go that is stored with an
--              item, Keys and Slices the keys of its parts and the part of the data that each chunk
--              holds (keys.go), Limited the reader that hands out the data a chunk at a time
--              (chunkedLimitedReader.go), Sets what stores an item, Gets what reads one (localComm.go,
--              realHandleGet and GAT), Changes what reads one and stores or deletes it. One function
--              is the three copies of the loop over a batch of chunks in handler.go. The clock, the
--              token and the sizes of the buffers of io.Copy are arguments.
--   Metrics    metrics: Buckets is the bucket of an observation (getBucket, lzcnt.go), Histograms a
--              histogram with its observations and polls (histograms.go), one after another; Extremes
--              has the least and the greatest of some values, Totals what a poll reports, and Buffer what
--              is kept.
--
-- Bounds. A loop of Go over a list is recursion on the list. The loop over a batch of quiet gets runs
-- on fuel of one more than the bytes of the stream; each round reads a header of 24 bytes, so it never
-- runs out. The server's loop runs for a given number of rounds, of which one more than the bytes of
-- the stream is enough, since a round that goes on has read a header. Widths are written out: `sub32`
-- wraps as uint32 does, and the expiry of an entry is taken modulo 2 ^ 32.
--
-- A copy of a chunk runs on fuel of one more read than the chunk has bytes, the chunks of a set on the
-- number of chunks of the reader, and the loop over the answers to a batch of chunks on one more round
-- than the bytes that have come in: a round that goes on has read a header, and one that cannot read it
-- changes nothing, so that the loop ends within this fuel or never. An answer that was not asked
-- for, of a chunk behind the data, is an index panic, which has no result either.
--
-- The number of locks of the locking orchestrator is `1 << concurrency` as Go's int has it: no set can
-- be made for a concurrency of 63, where it is negative, and from 64 on the set has no lock. The
-- interleavings are of calls whose wrapped calls return or panic.
--
-- Left out. The calls of the timers and latency histograms, and the byte counters; sync.Pool (a pooled
-- header is a fresh one); write errors of the binary responder (an orchestrator's responder is a
-- parameter that may fail at any call); the interleaving of the two channels of a batch, which is any
-- sequence of events here. The clock is an argument. A handler that panics (fewer opaques than keys)
-- gives no result in Inmem, and no events as an orchestrator's handler. The batched memcached handler
-- and the text protocol are not modelled, nor are the registries, gauges and tags of the metrics
-- package; listening, the HTTP endpoint, the flags of memproxy.go and the load-test clients are input
-- and output only.
pub mod Prelude
pub mod Common
pub mod Protocol
pub mod Inmem
pub mod Binprot
pub mod Orcas
pub mod Server
pub mod Conn
pub mod Std
pub mod Chunked
pub mod Metrics
