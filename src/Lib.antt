-- ===== src/Lib.antt =====
-- The CMPP 2.0 client library: what its definitions compute, and what is proved of them.
--
-- CMPP is the protocol between a service provider and a short message gateway (ISMG). The client splits
-- a text into segments, builds a SUBMIT for each, encodes it as a frame of a 12-byte header and a body,
-- and sends it; bytes that come back are framed and decoded into responses, deliveries and reports.
--
-- Files and the code they are about:
--   Prelude        shared names, Boolean tests and list lemmas; no code of the repository
--   Error          src/error.rs: the error type, results with a panic, is_retryable
--   Text           the strings of the standard library: UTF-8 and UTF-16, strict and lossy
--   Types          src/types.rs: limits, command ids, CmppHeader
--   Pdu            src/pdu.rs: Bytes has the field helpers, Reader is BodyReader, Connect, Submit and
--                  Deliver are the messages with encode_body and decode, Message is Pdu and
--                  encode_frame_into; the other modules prove
--   Codec          src/codec.rs: decode_frame and encode_frame are the two halves of CmppFrameCodec
--   Encoding       src/encoding.rs: choose_encoding, encode_content, decode_msg_content; Plan has
--                  prepare_submit_content, SubmitContentPlan::segment and try_split_content
--   SubmitOptions  src/submit.rs: SubmitOptions and the SUBMITs it builds
--   Config         src/config.rs: CmppProtocolParams, CmppConfig and their validation
--   Sequence       src/connection.rs: SequenceRegistry, which numbers the requests; Registry has its
--                  operations, Intervals and Retire the retired intervals, Window, Reserve, Batch and
--                  Spent what is proved of them
--   Pending        src/connection.rs: claim_submit_attempts, complete_submit_attempts and
--                  flush_submit_resps on the SUBMITs that wait for a response
--   Timeouts       src/connection.rs: the SUBMIT half of timeout_task, its scan and its loop
--   Lifecycle      src/connection.rs: a SUBMIT from the commit of send_submit to the event that ends it;
--                  a Step is what runs under one lock, fail_all_pending ends what is left
--   Numbers        src/connection.rs: SequenceRegistry and the SUBMITs together, by the leases that the
--                  commit of send_submit takes
--   Heartbeat      src/connection.rs: heartbeat_task, the writer's claim and completion, and the
--                  heartbeat half of timeout_task
--   Spool          src/connection.rs: the events, the items of their spool, EventDepth and its permits
--   Events         src/connection.rs: emit_event, reserve_deferred_event, the drain, the seal and the
--                  end of the event spool, and its depth
--   References     src/connection.rs: UdhReferencePool with its buckets and leases; Leases has the
--                  courses of acquisitions, exposures and drops
--   Phase          src/connection.rs: begin_closing and transition_to_closed; Finish has finish with its
--                  reason, which the terminal event carries
--   Tests          concrete inputs
--
-- How the code is read. A string is the list of its scalar values, bytes and machine words are natural
-- numbers with their ranges as hypotheses where they matter, a growing buffer is a list of bytes, and a
-- cast to a smaller word keeps its remainder. A usize has 64 bits. Fallible code gives a Result whose
-- third case is a panic, so that a statement of what code returns also says that it does not panic.
-- The split of an ASCII content into chunks runs on fuel, as many rounds as bytes; each round takes a
-- byte at least, and the proofs of the split show that this is enough. The loop of reserve_next runs on
-- 2 ^ 32 rounds, each of which uses a number of the automatic sequence at least, and the theorem on it
-- shows that it never ends for want of a round. All other loops follow a list or a count.
-- The MD5 digest, the GBK tables, the clock and the keyed hash of the reference pool are arguments, and so
-- are the answers of tokio's channels; the process-wide counter of long message references is passed in
-- and returned.
-- What the connection does under one lock is one step on its state. The tasks run side by side, so the
-- statements on them are about any sequence of steps, in whatever order the locks are given. The order in
-- which a hash map yields its entries is an argument. An Instant is a number, and an operation may read it
-- before it has its locks.
--
-- Not modelled: the rest of src/connection.rs (sockets, tasks and queues of the runtime, the
-- permits of the submit window, the dispatch of events to their receiver), the benchmarks and
-- the texts of errors.
pub mod Codec
pub mod Config
pub mod Encoding
pub mod Error
pub mod Events
pub mod Heartbeat
pub mod Lifecycle
pub mod Numbers
pub mod Pdu
pub mod Pending
pub mod Phase
pub mod Prelude
pub mod References
pub mod Sequence
pub mod Spool
pub mod SubmitOptions
pub mod Tests
pub mod Text
pub mod Timeouts
pub mod Types
