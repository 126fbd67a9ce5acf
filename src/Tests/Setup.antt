-- ===== src/Tests/Setup.antt =====
-- Handshakes, with what is written around them, and acknowledgements that are repeated.
use rfs_utp.Common.{◌≡◌, refl, arith, [], ◌∷◌, ok, false, true, none}
use rfs_utp.Common.Target.{big}
use rfs_utp.Packet.Header.{cast}
use rfs_utp.Packet.Words.{load_u16, swap_u16}
use rfs_utp.Packet.Fields
use rfs_utp.Packet.Fields.{Packet}
use rfs_utp.BTreeMap.{get}
use rfs_utp.Socket.State.{UtpSocketState, new_, World}
use rfs_utp.Socket.Handle.{handle_packet}
use rfs_utp.Common.{inl}
use rfs_utp.Socket.Delivery.{handle_all}
use rfs_utp.Socket.Duplicates.{Repeats, counted, duplicates_retransmit}
use rfs_utp.Tests.Samples.{ack_packet, ack_packet-get_type, ack_packet-IsWellFormed}
use rfs_utp.Socket.RepeatedAnswer.{AnsweredTwice, repeated_answer_panics}
use rfs_utp.Socket.Peers.{offer_taken, Net, UtpSocket}
use rfs_utp.Socket.Handshake.{Established, handshake}
use rfs_utp.Tests.Samples.{dev, data_packet, peer_with, home, world}

abbrev busy : UtpSocketState
busy = peer_with ((1, data_packet 1) ∷ [])

abbrev empty_socket : UtpSocket
empty_socket = record { peers = λ a. none; id = 9; drop_packets = false; client = true }

abbrev net : Net
net = record {
  world = world;
  udp_connect = λ a. none;
  udp_send_connected = λ p. none;
  first_peer = λ m. none;
  lost = false;
  channel = λ i p. offer_taken;
}

-- A big-endian server with another clock.
abbrev far_world : World
far_world = record {
  target = record { endian = big; overflow_checks = false };
  now = 77;
  udp_send = λ i p a. none;
}

abbrev listening : UtpSocketState
listening = record (peer_with []) { state = new_ }

handshake_example : Established net 5 home empty_socket far_world 3 listening
handshake_example =
    handshake net 5 home empty_socket refl (omega arith) refl (λ p. refl) far_world 3 listening
      (omega arith) (omega arith) refl

repeated_ack : Repeats dev 0 (ack_packet 0)
unfolding Fields.ack_nr cast load_u16 swap_u16
repeated_ack = ((ack_packet-get_type 0, ([], ack_packet-IsWellFormed 0)), refl)

duplicates_retransmit_example :
    (handle_all world 9 (ack_packet 0 ∷ ack_packet 0 ∷ []) busy ≡ ok (counted 2 busy))
    × (handle_packet world 9 (ack_packet 0) (counted 2 busy)
        ≡ ok (record {
          answer = ok (get 1 busy.sent_window);
          peer = counted 1 (counted 2 busy);
          sent = [];
        }))
duplicates_retransmit_example =
    duplicates_retransmit world 9 (ack_packet 0 ∷ ack_packet 0 ∷ []) (ack_packet 0) busy
      (repeated_ack, (repeated_ack, (repeated_ack, tt))) (inl refl) (omega arith) (omega arith)
      (omega arith)

repeated_answer_panics_example :
    AnsweredTwice net 5 home empty_socket far_world 3 listening world (1 ∷ 2 ∷ [])
repeated_answer_panics_example =
    repeated_answer_panics net 5 home empty_socket far_world 3 listening world 1 (2 ∷ []) refl
      (omega arith) refl (λ p. refl) (λ i p a. refl) (omega arith) (omega arith) refl (omega arith)
      (omega arith)
