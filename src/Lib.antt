-- ===== src/Lib.antt =====
-- A model of rfs-utp, an implementation of uTP over UDP in Rust, and its theorems.
--
-- A packet is a vector of bytes: a header of twenty bytes, a chain of extensions, and a payload.
-- The socket keeps a state for each peer. `recv_packets_from` parses a datagram, gives it to
-- `handle_packet` with the state of its sender, sends the answer, and passes the packets that can
-- be delivered to the channel of the stream. `send_packets` cuts a buffer into packets, keeps them
-- in the window of the peer until they are acknowledged, and sends the window. The receiver of
-- data keeps what arrives early in a buffer and reports it in a selective ACK, which `set_sack`
-- writes and the sender reads with the iterators over extensions and bits.
--
-- Which file models what:
--   Error                 src/error.rs
--   Time, Util            src/time.rs, src/util.rs
--   BitIterator/Defs      src/bit_iterator.rs; Bits has its theorems
--   Packet/Types, Words   src/packet.rs: type codes; loads, stores and byte order
--   Packet/Header, Fields src/packet.rs: PacketHeader; Packet with its getters and setters
--   Packet/Extensions     src/packet.rs: check_extensions, payload, ExtensionIterator, TryFrom
--   Packet/Sack           src/packet.rs: set_sack, get_sack
--   Packet/Chain          what a chain of extensions is; Parse says what a well formed packet is
--   Packet/Wire, Spread, Setters, Fresh, Validity, Reading, Extend, SetSack,
--   GetSack, LongSack: theorems
--   BTreeMap              the standard map that the socket's state uses
--   Socket/State          src/socket.rs: UtpSocketState, SocketState, constants
--   Socket/Reply, Acks    src/socket.rs: prepare_reply; build_selective_ack, get_lost_seq_nr
--   Socket/Handle         src/socket.rs: handle_packet, a function for each arm of its match
--   Socket/Peers          src/socket.rs: bind, connect, send_packets
--   Socket/Arrivals       src/socket.rs: recv_packets_from
--   Socket/Loop           src/socket.rs: start_receiving; OneRound, Delivery and Malformed have
--                         its theorems
--   Socket/Invariant      the invariant of a peer (Defs), that the handler (AckHandler, Handler)
--                         and the operations (Outgoing, Incoming) keep it, what is reached from
--                         bind (Reach), and what that excludes (AckSafety, Safety, Answers,
--                         LoopSafety)
--   Socket/SackBits, Drain, Reassembly, Delivery, Split, Exchange, ReplyFields, OnOk, Arms,
--   Machine, Over, Cumulative, DataPacket, SynPacket, PeerMap, Queueing, Sending, Receiving,
--   Transfer, Occurs, EndToEnd, Handshake, Duplicates, Overtake, Resend, Swallow,
--   Session, Stall, StateArm, RepeatedAnswer: theorems
--   Stream                src/stream.rs: UtpStream, poll_read, poll_write, poll_flush, poll_close
--   Stream/Repeat         a write that is suspended and repeated
--   Examples/Server       examples/server.rs: the loop of the server
--   Tests                 concrete packets and peers at which the theorems are applied
--   Tests/Suite           src/packet.rs: its test functions (PacketTests, EncodeTests), and that
--                         they pass (Passed); those of src/bit_iterator.rs and src/util.rs
--                         (SmallTests)
--
-- How it is modelled. Bytes and machine integers are numbers, with every wrap-around written out. A
-- `+` or `-` on u16 values panics or wraps as the target's overflow checks say, and the layout of a
-- header in memory follows the target's byte order: both are fields of Target and arguments of the
-- definitions. A run gives a value, an error, a panic, or `hang` where the fuel of a loop is used
-- up or a send waits for a channel that stays full. The channel takes a packet, is closed, or
-- stays full (Offer): a send that waits and then goes through is one that is taken. The waits for
-- a lock and for the UDP socket are taken to end. The loops over a packet have the packet's
-- length as fuel, which is enough as each round moves the index by two at least; the loop over
-- chunks has the length of the buffer, since no chunk is empty; padding takes three rounds at
-- most. An `&mut` argument is an argument and a part of the result. The state of a peer is locked
-- for the whole of an operation, so an operation is one step. The receive loop runs over the
-- rounds that it has had: it waits after the last one. A future that is polled gets as far as the
-- lock and the UDP socket let it (Readiness), and what it has changed stays when it is dropped.
-- The clock, the random numbers, the answers of the UDP socket and of the channel, and the order
-- of the concurrent map are arguments (World, Net). The clock is read once in a handler. The
-- arithmetic of f64 in ewma is an argument.
--
-- Not modelled: the wrappers that only pass a call to the UDP socket; the traits of
-- src/congestion_control.rs and src/packet_loss_handler.rs, which nothing implements; the test
-- functions of src/socket.rs, which do not compile since handle_packet is async; benchmarks,
-- logging, Debug and Display output; the other example programs, which are I/O.
pub mod Common
pub mod Error
pub mod Time
pub mod Packet
pub mod BitIterator
pub mod Util
pub mod BTreeMap
pub mod Socket
pub mod Stream
pub mod Examples
pub mod Tests
