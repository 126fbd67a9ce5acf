-- ===== src/Tests/Loops.antt =====
-- A buffer of two chunks from one socket to the loop of another.
use rfs_utp.Common.{
  length, ◌*◌, ℕ, ◌≡◌, ◌≢◌, refl, arith, List, [], ◌∷◌, false, true, none, some, ok, inl, inr,
}
use rfs_utp.Common.Target.{big}
use rfs_utp.Packet.Words.{load_u16, swap_u16}
use rfs_utp.Packet.Words
use rfs_utp.Packet.Header
use rfs_utp.Packet.Fields
use rfs_utp.Packet.Fields.{Packet}
use rfs_utp.BTreeMap
use rfs_utp.Socket.State.{UtpSocketState, connected, closed}
use rfs_utp.Socket.Peers
use rfs_utp.Socket.Peers.{
  offer_taken, Net, UtpSocket, send_packets, choose_peer, send_to_peer, queue_chunks, chunks,
  send_window, register_peer,
}
use rfs_utp.Error.{kind_invalid_data}
use rfs_utp.Socket.Arrivals.{fill}
use rfs_utp.Socket.Loop.Malformed.{malformed_ends_loop}
use rfs_utp.Socket.Loop.{Round, datagram, receive_loop, empty_buffer}
use rfs_utp.Packet.Types.{packet_type_to_u8}
use rfs_utp.Socket.Loop.OneRound.{IsWilling}
use rfs_utp.Socket.Loop.Delivery.{packets_of}
use rfs_utp.Socket.EndToEnd.{Arrived, end_to_end}
use rfs_utp.Socket.Occurs.{IsSentRound, Occurs, packets_in}
use rfs_utp.Socket.Handle.{map_snd}
use rfs_utp.Socket.Sending.{Sent, send_packets_carries}
use rfs_utp.Examples.Server.{serve, given, data_of, five_of, server_drops_sixth}
use rfs_utp.Tests.Samples.{dev, peer_with, home, world}

abbrev net : Net
net = record {
  world = world;
  udp_connect = λ a. none;
  udp_send_connected = λ p. none;
  first_peer = λ m. some home;
  lost = false;
  channel = λ i p. offer_taken;
}

abbrev fresh_peer : UtpSocketState
fresh_peer = peer_with []

-- A socket that knows one peer, at every address.
abbrev socket : UtpSocket
socket = record { peers = λ a. some fresh_peer; id = 9; drop_packets = false; client = true }

abbrev pub twelve : List ℕ
twelve = 1 ∷ 2 ∷ 3 ∷ 4 ∷ 5 ∷ 6 ∷ 7 ∷ 8 ∷ 9 ∷ 10 ∷ 11 ∷ 12 ∷ []

abbrev chunk_packet : ℕ → List ℕ → Packet
chunk_packet k chunk =
    1 ∷ 0 ∷ 0 ∷ 9 ∷ 0 ∷ 0 ∷ 0 ∷ 0 ∷ 0 ∷ 0 ∷ 0 ∷ 0 ∷ 0 ∷ 0 ∷ 0 ∷ 0 ∷ 0 ∷ k ∷ 0 ∷ 0 ∷ chunk

abbrev first : Packet
first = chunk_packet 1 (1 ∷ 2 ∷ 3 ∷ 4 ∷ 5 ∷ 6 ∷ [])

abbrev second : Packet
second = chunk_packet 2 (7 ∷ 8 ∷ 9 ∷ 10 ∷ 11 ∷ 12 ∷ [])

twelve_sent : packets_in (send_packets net twelve (some home) socket).sent ≡ first ∷ second ∷ []
unfolding send_packets choose_peer send_to_peer queue_chunks chunks send_window Peers.data_packet
    Fields.with_payload Fields.set_connection_id Fields.set_ack_nr Fields.set_seq_nr BTreeMap.insert
    Header.as_ref Fields.seq_nr swap_u16 Header.cast load_u16 Words.write_bytes Words.store_u16
    Words.store_u32 Header.set_type packet_type_to_u8 Header.default_header
twelve_sent = refl

-- The receiver's world has the other byte order.
abbrev far : Net
far = record net {
  world = record { target = record dev { endian = big }; now = 5; udp_send = λ i p a. none };
}

abbrev rounds : List Round
rounds =
    record { net = far; arrival = datagram second home }
    ∷ record { net = far; arrival = datagram first home }
    ∷ record { net = far; arrival = datagram second home }
    ∷ []

far-IsWilling : IsWilling far
far-IsWilling = record { now_small = omega arith; sends = λ i p a. refl; takes = λ i p. refl }

round_of :
    (p : Packet)
    → Occurs p (first ∷ second ∷ [])
    → IsSentRound far.world.target
        (first ∷ second ∷ [])
        home
        (record { net = far; arrival = datagram p home })
round_of p o = record {
  packet = p;
  arrives = refl;
  sent = o;
  same_target = refl;
  willing = far-IsWilling;
}

end_to_end_example : Arrived net socket home twelve rounds socket
unfolding packets_of
end_to_end_example =
    end_to_end net socket home fresh_peer twelve far.world.target socket home fresh_peer rounds refl
      open_ (omega arith) (omega arith) (omega arith) refl (omega arith) refl (λ i p a. refl) refl
      refl (omega arith) (inl refl) refl refl refl (omega arith)
      (rw twelve_sent (
        round_of second (inr (inl refl)),
        (round_of first (inl refl), (round_of second (inr (inl refl)), tt)),
      ))
      (rw twelve_sent (inr (inl refl), (inl refl, tt)))
  where
    open_ : connected ≢ closed
    open_ e = cc

-- A datagram of one byte from a stranger.
abbrev stray : Round
stray = record { net = far; arrival = datagram (7 ∷ []) home }

malformed_ends_loop_example :
    receive_loop (stray ∷ rounds) empty_buffer socket
    ≡ ok (record {
      ended = some kind_invalid_data;
      socket = socket;
      buf = fill empty_buffer (7 ∷ []);
      sent = [];
      delivered = [];
    })
malformed_ends_loop_example =
    malformed_ends_loop stray rounds (7 ∷ []) home empty_buffer socket refl (omega arith)
      (omega arith) (λ xs pl w. let short = w.sized in absurd (omega arith))

pub sent_twelve : Sent net socket home fresh_peer twelve
sent_twelve =
    send_packets_carries net socket home fresh_peer twelve refl (λ e. cc) (omega arith)
      (omega arith) (omega arith) tt (omega arith) (λ i p a. refl)

server_drops_sixth_example :
    let r = serve (λ f k. f k) (given (map_snd sent_twelve.packets)) in
    (r.ended ≡ false)
    × (data_of r.reads ≡ five_of (chunks (length twelve) twelve))
    × (6 * length (data_of r.reads) ≡ 5 * length twelve)
server_drops_sixth_example =
    server_drops_sixth (λ f k. f k) net socket home fresh_peer twelve (λ f k. refl) sent_twelve refl
