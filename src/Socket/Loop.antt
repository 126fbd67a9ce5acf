-- ===== src/Socket/Loop.antt =====
-- src/socket.rs: `start_receiving`, the loop that receives for as long as nothing fails.
pub mod OneRound
pub mod Delivery
pub mod Malformed
use rfs_utp.Common.{
  ℕ, List, [], ◌∷◌, ◌++◌, ok, err, panic, hang, ◌>>=◌, Option, none, some, replicate,
}
use rfs_utp.Error.{ErrorKind}
use rfs_utp.Packet.Fields.{Packet}
use rfs_utp.Socket.State.{SocketAddr, Datagram}
use rfs_utp.Socket.Handle.{Run}
use rfs_utp.Socket.Peers.{Net, UtpSocket, Outcome}
use rfs_utp.Socket.Arrivals.{recv_packets_from}

-- What `recv_from` answers: a datagram with the address of its sender, or an error.
pub data Arrival : Type 0 where
  datagram : List ℕ → SocketAddr → Arrival
  failure : ErrorKind → Arrival

-- A round of the loop: what it receives, and what else it meets outside the crate.
pub record Round : Type 0 where
  pub net : Net
  pub arrival : Arrival

-- `recv_packets_from` on what `recv_from` answers.
unfoldable pub recv_round : Round → List ℕ → UtpSocket → Run (Outcome SocketAddr × List ℕ)
recv_round r buf s = elim r.arrival [
  | datagram bytes addr ↦ recv_packets_from r.net bytes addr buf s
  | failure e ↦ ok (record { answer = err e; socket = s; sent = []; delivered = [] }, buf)
]

-- Where the loop stands: the error that ended it, or none while it waits for the next datagram;
-- the socket and the buffer; and all that it has sent and put in the channel.
pub record Progress : Type 0 where
  pub ended : Option ErrorKind
  pub socket : UtpSocket
  pub buf : List ℕ
  pub sent : List Datagram
  pub delivered : List Packet

-- A round before the others.
abbrev pub after_round : Outcome SocketAddr → Progress → Progress
after_round o rest = record rest {
  sent = o.sent ++ rest.sent;
  delivered = o.delivered ++ rest.delivered;
}

-- `[0; 26]`
abbrev pub empty_buffer : List ℕ
empty_buffer = replicate 26 0

-- The loop of `start_receiving`, over the rounds that it has had.
unfoldable pub receive_loop : List Round → List ℕ → UtpSocket → Run Progress
receive_loop [] buf s =
    ok (record { ended = none; socket = s; buf = buf; sent = []; delivered = [] })
receive_loop (r ∷ rs) buf s = recv_round r buf s >>= λ q. elim q.0.answer [
  | ok _ ↦ (receive_loop rs q.1 q.0.socket >>= λ rest. ok (after_round q.0 rest))
  | err e ↦ ok (record {
    ended = some e;
    socket = q.0.socket;
    buf = q.1;
    sent = q.0.sent;
    delivered = q.0.delivered;
  })
  | panic ↦ panic
  | hang ↦ hang
]

-- `start_receiving`: the buffer has 26 bytes and is not cleared between rounds.
unfoldable pub start_receiving : List Round → UtpSocket → Run Progress
start_receiving rs s = receive_loop rs empty_buffer s
