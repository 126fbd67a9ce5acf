-- ===== src/Socket/Resend.antt =====
-- src/socket.rs: the packets that a selective ACK makes the sender send again.
use rfs_utp.Common.{ℕ, ◌+◌, ◌≡◌, List, [], ◌∷◌, ok, leb, none, some, if◌then◌else◌}
use rfs_utp.Packet.Fields
use rfs_utp.Packet.Fields.{Packet}
use rfs_utp.BTreeMap.{BTreeMap, get}
use rfs_utp.Socket.State.{SocketAddr, World, UtpSocketState, Datagram}
use rfs_utp.Socket.Handle.{handle_packet}
use rfs_utp.Socket.Duplicates.{counted}
use rfs_utp.Socket.Exchange.{Exchanged}

-- The packets of the window with these numbers, in this order, to the address.
unfoldable pub resent : SocketAddr → BTreeMap Packet → List ℕ → List Datagram
resent addr window [] = []
resent addr window (k ∷ ks) = elim (get k window) [
  | none ↦ resent addr window ks
  | some p ↦ record { packet = p; addr = addr } ∷ resent addr window ks
]

-- A selective ACK at the sender of the data: the exchange, and the run of the handler.
pub record Repaired (w : World) (id : ℕ) (packet : Packet) (peer : UtpSocketState) (ws : World)
    (ids : ℕ) (sender : UtpSocketState) (addr : SocketAddr) (limit : ℕ) : Type 0 where
  pub exchange : Exchanged w id packet peer ws.target (counted 1 sender) limit
  pub handled :
      handle_packet ws ids exchange.rsp sender
      ≡ ok (record {
        answer = ok (
            if leb 3 (sender.duplicate_ack_count + 1)
            then get (sender.last_acked + 1) sender.sent_window
            else none);
        peer = exchange.sender';
        sent = resent addr exchange.sender'.sent_window exchange.lost;
      })
