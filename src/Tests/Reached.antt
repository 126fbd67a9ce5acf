-- ===== src/Tests/Reached.antt =====
-- A socket that connects, and what it receives; a write that is suspended; and a loss.
use rfs_utp.Common.{ℕ, ◌≡◌, ◌≢◌, refl, arith, List, [], ◌∷◌, ok, false, true, none, some, inl, Ends}
use rfs_utp.Packet.Types.{state, packet_type_from_u8}
use rfs_utp.Packet.Header
use rfs_utp.Packet.Header.{cast}
use rfs_utp.Packet.Fields
use rfs_utp.Util.{generate_u16_from_uuid_v4}
use rfs_utp.Tests.Peers.{sender}
use rfs_utp.Socket.State.{UtpSocketState, World, connected, closed}
use rfs_utp.Socket.PeerMap.{put-same}
use rfs_utp.Packet.Fields.{Packet}
use rfs_utp.Socket.Peers.{offer_taken, offer_full, Net, UtpSocket, bind, connect, register_peer}
use rfs_utp.Socket.Invariant.Defs.{IsValid}
use rfs_utp.Socket.Invariant.Reach.{Reach, bound, later, connects, reached_peers-IsValid}
use rfs_utp.Socket.Invariant.LoopSafety.{start_receiving-Ends}
use rfs_utp.Socket.Loop.{Round, datagram, start_receiving}
use rfs_utp.Socket.Swallow.{Swallowed, ack_swallows_data}
use rfs_utp.Stream.Repeat.{WrittenTwice, poll_write_repeats}
use rfs_utp.Tests.Samples.{
  dev, data_packet, data_packet-get_type, data_packet-seq_nr, ack_packet, ack_packet-get_type,
  ack_packet-IsWellFormed, ack_packet-ack_nr, peer_with, home, world,
}

-- A build without overflow checks.
abbrev release : World
release = record world { target = record dev { overflow_checks = false } }

abbrev net : Net
net = record {
  world = release;
  udp_connect = λ a. none;
  udp_send_connected = λ p. none;
  first_peer = λ m. some home;
  lost = false;
  channel = λ i p. offer_taken;
}

abbrev fresh : UtpSocket
fresh = record { peers = λ a. none; id = 9; drop_packets = false; client = true }

fresh-Reach : Reach release.target fresh
unfolding bind generate_u16_from_uuid_v4
fresh-Reach = bound (0 ∷ 9 ∷ []) false true fresh (omega arith) refl

-- The socket once it has called `home`.
abbrev called : UtpSocket
called = (connect net 7 home fresh).socket

called-Reach : Reach release.target called
called-Reach = later fresh-Reach (connects net 7 home fresh refl (omega arith))

caller : (peer : UtpSocketState) × (called.peers home ≡ some peer)
unfolding connect register_peer
caller = (_, put-same home _ fresh.peers)

reached_peers-IsValid_example : IsValid release.target home caller.0
reached_peers-IsValid_example =
    reached_peers-IsValid release.target called home caller.0 called-Reach caller.1

-- A data packet arrives, and then one byte.
abbrev rounds : List Round
rounds =
    record { net = net; arrival = datagram (data_packet 3) home }
    ∷ record { net = net; arrival = datagram (7 ∷ []) home }
    ∷ []

no_state :
    (Fields.get_type {E = ⊥} release.target (data_packet 3) ≢ ok state)
    × (Fields.get_type {E = ⊥} release.target (7 ∷ []) ≢ ok state)
unfolding Fields.get_type Header.get_type cast packet_type_from_u8
no_state = (λ e. cc, λ e. cc)

reads : (i : ℕ) (p : Packet) → net.channel i p ≢ offer_full
reads i p e = cc

start_receiving-Ends_example : Ends (start_receiving rounds called)
start_receiving-Ends_example = start_receiving-Ends release.target rounds called called-Reach refl (
  (refl, omega arith, reads, (omega arith, no_state.0)),
  ((refl, omega arith, reads, (omega arith, no_state.1)), tt),
)

abbrev open_peer : UtpSocketState
open_peer = peer_with []

abbrev one_socket : UtpSocket
one_socket = record { peers = λ a. some open_peer; id = 9; drop_packets = false; client = true }

poll_write_repeats_example :
    WrittenTwice net one_socket home open_peer
      (1 ∷ 2 ∷ 3 ∷ [])
      (record { lock = true; datagrams = 0 })
      (record { lock = true; datagrams = 8 })
poll_write_repeats_example =
    poll_write_repeats net one_socket home open_peer (1 ∷ 2 ∷ 3 ∷ [])
      (record { lock = true; datagrams = 0 }) (record { lock = true; datagrams = 8 }) (λ m. refl)
      (λ i p a. refl) refl open_ (omega arith) (omega arith) (omega arith) tt (omega arith)
      (omega arith) refl (omega arith) refl (omega arith)
  where
    open_ : connected ≢ closed
    open_ e = cc

ack_swallows_data_example : Swallowed world 9 (ack_packet 1) (data_packet 1) open_peer
ack_swallows_data_example =
    ack_swallows_data world 9 (omega arith) (omega arith) (ack_packet 1) (data_packet 1) open_peer
      (inl refl) (ack_packet-get_type 1, ([], ack_packet-IsWellFormed 1))
      (data_packet-get_type 1, omega (arith, data_packet-seq_nr.0)) ack_packet-ack_nr.0
      data_packet-seq_nr.0 (omega arith)

-- The sender of the data, which knows its peer.
abbrev knowing : UtpSocketState
knowing = record sender { connected_to = some home }
