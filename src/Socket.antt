-- ===== src/Socket.antt =====
-- src/socket.rs: the socket and the state that it keeps for each peer.
pub mod State
pub mod Reply
pub mod Acks
pub mod Handle
pub mod SackBits
pub mod Drain
pub mod Reassembly
pub mod ReplyFields
pub mod Delivery
pub mod Split
pub mod Exchange
pub mod OnOk
pub mod Arms
pub mod Machine
pub mod Over
pub mod Cumulative
pub mod Duplicates
pub mod Swallow
pub mod Session
pub mod Stall
pub mod Resend
pub mod Peers
pub mod PeerMap
pub mod Arrivals
pub mod DataPacket
pub mod Queueing
pub mod Sending
pub mod Receiving
pub mod Transfer
pub mod StateArm
pub mod SynPacket
pub mod Invariant
pub mod Handshake
pub mod Overtake
pub mod RepeatedAnswer
pub mod Loop
pub mod Occurs
pub mod EndToEnd
