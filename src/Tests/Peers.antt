-- ===== src/Tests/Peers.antt =====
-- Peers that receive, send and acknowledge.
use rfs_utp.Common.{
  ℕ, ◌+◌, ◌%◌, ◌≡◌, refl, arith, List, [], ◌∷◌, length, drop, replicate, All, ok, ◌>>=◌, true,
  false, none, some, inl, ◌≢◌, ap,
}
use rfs_utp.Time.{delay_to_u32}
use rfs_utp.Packet.Types.{data_, ack, fin, state}
use rfs_utp.Packet.Words.{IsByte}
use rfs_utp.Packet.Header.{cast}
use rfs_utp.Packet.Words.{load_u16, swap_u16}
use rfs_utp.Packet.Fields
use rfs_utp.Packet.Fields.{Packet}
use rfs_utp.Packet.Extensions.{payload}
use rfs_utp.Packet.Wire.{fields}
use rfs_utp.BTreeMap.{last_key_value, insert}
use rfs_utp.Socket.State.{UtpSocketState, closed, connected}
use rfs_utp.Socket.Reply.{prepare_reply, timestamp_abs_diff}
use rfs_utp.Socket.Acks.{build_selective_ack, sack_bits, set_bit, pad}
use rfs_utp.Socket.Handle.{Handled, dispatch, on_fin, handle_packet}
use rfs_utp.Socket.SackBits.{has, build_selective_ack_bits}
use rfs_utp.Socket.ReplyFields.{reply_header, reply_fields, timestamp_distance}
use rfs_utp.Socket.Reassembly.{IsReceiving}
use rfs_utp.Socket.Delivery.{IsData, Delivered, stream-Delivered}
use rfs_utp.Socket.Split.{Lost, Lost-of}
use rfs_utp.Socket.Exchange.{buffered, Exchanged, sack_exchange}
use rfs_utp.Socket.Machine.{next_state, handle_packet-state}
use rfs_utp.Socket.Over.{Unmoved, over-Unmoved}
use rfs_utp.Socket.Cumulative.{IsAck, Acknowledged, acks_in_order}
use rfs_utp.Socket.Peers.{offer_taken, Net, UtpSocket}
use rfs_utp.Socket.Arrivals.{fill, respond, recv_packets_from}
use rfs_utp.Socket.Sending.{Sent, send_packets_carries}
use rfs_utp.Socket.Receiving.{recv_handles_buffer}
use rfs_utp.BitIterator.Bits.{bit_at}
use rfs_utp.Tests.Samples.{
  dev, data_packet, ack_packet, sack_packet, sack_bytes, fin_packet, fin_packet-get_type,
  sack_packet-ack_nr, data_packet-get_type, ack_packet-get_type, data_packet-seq_nr,
  ack_packet-ack_nr, data_packet-IsWellFormed, ack_packet-IsWellFormed, sack_packet-IsWellFormed,
  peer_with, home, world,
}

abbrev pub fresh_peer : UtpSocketState
fresh_peer = peer_with []

-- No property of the packets.
abbrev pub Anything : Packet → Type 0
Anything p = Unit {0}

pub fresh_peer-IsReceiving : IsReceiving Anything dev fresh_peer
fresh_peer-IsReceiving = record {
  sorted = tt;
  ahead = tt;
  below = tt;
  numbered = tt;
  bounded = omega arith;
}

pub data_packet-IsData :
    (IsData dev (data_packet 1)) × (IsData dev (data_packet 2)) × (IsData dev (data_packet 3))
data_packet-IsData =
    let (a, b, c) = data_packet-seq_nr in
    (
      (data_packet-get_type 1, omega arith),
      (data_packet-get_type 2, omega arith),
      (data_packet-get_type 3, omega arith),
    )

-- Three packets out of order, the second one twice.
abbrev pub stream : List Packet
stream = data_packet 3 ∷ data_packet 2 ∷ data_packet 2 ∷ data_packet 1 ∷ []

stream-IsData : All (IsData dev) stream
stream-IsData = let (a, b, c) = data_packet-IsData in (c, (b, (b, (a, tt))))

stream-Delivered_example : Delivered Anything world 9 stream fresh_peer
stream-Delivered_example =
    stream-Delivered Anything world 9 (omega arith) (omega arith) stream fresh_peer stream-IsData
      (tt, (tt, (tt, (tt, tt)))) (inl refl) fresh_peer-IsReceiving (omega arith)

build_selective_ack_bits_example :
    ((i : ℕ) → bit_at (build_selective_ack fresh_peer) i ≡ has (0 + 1 + i) [])
    × (length (build_selective_ack fresh_peer) % 4 ≡ 0)
    × All IsByte (build_selective_ack fresh_peer)
build_selective_ack_bits_example = build_selective_ack_bits fresh_peer

-- A sender with four packets in its window.
abbrev pub sender : UtpSocketState
sender =
    peer_with
      ((1, data_packet 1) ∷ (2, data_packet 2) ∷ (3, data_packet 3) ∷ (9, data_packet 9) ∷ [])

pub sender-last : last_key_value sender.sent_window ≡ some (9, data_packet 9)
unfolding last_key_value
sender-last = refl

reply_fields_example :
    (fields (prepare_reply world 9 (data_packet 1) ack 4 3)
      ≡ reply_header world 9 (data_packet 1) ack 4 3)
    × (drop 20 (prepare_reply world 9 (data_packet 1) ack 4 3) ≡ [])
    × (length (prepare_reply world 9 (data_packet 1) ack 4 3) ≡ 20)
reply_fields_example =
    reply_fields world 9 (data_packet 1) ack 4 3 (omega arith) (omega arith) (omega arith)
      (omega arith)

timestamp_distance_example :
    (timestamp_abs_diff 1_000 400 ≡ timestamp_abs_diff 400 1_000)
    × (400 + delay_to_u32 (timestamp_abs_diff 1_000 400) ≡ 1_000)
timestamp_distance_example = timestamp_distance 1_000 400 (omega arith) (omega arith)

Lost-of_example : Lost dev sack_packet sender (Fields.ack_nr dev sack_packet) 9 sack_bytes
Lost-of_example =
    Lost-of dev sack_packet sender 9 (data_packet 9) sack_bytes [] sack_packet-IsWellFormed
      (omega arith) sender-last (omega (arith, sack_packet-ack_nr))

-- A peer that has closed.
abbrev closed_peer : UtpSocketState
closed_peer = record fresh_peer { state = closed }

over-Unmoved_example : Unmoved world 9 (data_packet 1 ∷ ack_packet 1 ∷ []) closed_peer
over-Unmoved_example =
    over-Unmoved world 9 (data_packet 1 ∷ ack_packet 1 ∷ []) closed_peer
      ((data_, data_packet-get_type 1), ((ack, ack_packet-get_type 1), tt)) (inl refl)

acks : (IsAck dev (ack_packet 1)) × (IsAck dev (ack_packet 2))
acks = (
  (ack_packet-get_type 1, ([], ack_packet-IsWellFormed 1)),
  (ack_packet-get_type 2, ([], ack_packet-IsWellFormed 2)),
)

acks_in_order_example : Acknowledged world 9 (ack_packet 1 ∷ ack_packet 2 ∷ []) sender
acks_in_order_example =
    acks_in_order world 9 (ack_packet 1 ∷ ack_packet 2 ∷ []) sender
      (acks.0, ack_packet-ack_nr.0, (acks.1, ack_packet-ack_nr.1, tt)) (inl refl) (omega arith)
      (omega arith)

-- The receiver acknowledges the first two packets at once.
-- Packet 3 waits for packet 1: the answer says that it has arrived.
abbrev pub waiting : UtpSocketState
waiting = buffered world (data_packet 3) fresh_peer

pub waiting-sack : build_selective_ack waiting ≡ 4 ∷ 0 ∷ 0 ∷ 0 ∷ []
unfolding build_selective_ack sack_bits set_bit pad insert Fields.seq_nr cast load_u16 swap_u16
waiting-sack = refl

sack_exchange_example : Exchanged world 9 (data_packet 3) fresh_peer dev sender 9
sack_exchange_example =
    sack_exchange world 9 (data_packet 3) fresh_peer dev sender 9 (data_packet 9) (omega arith)
      (omega arith) (inl refl) Anything fresh_peer-IsReceiving data_packet-IsData.2 (omega arith)
      (omega (arith, data_packet-seq_nr.2)) (omega (arith, ap length waiting-sack))
      (omega (arith, ap length waiting-sack)) (omega arith) sender-last

abbrev fin_handled : Handled
fin_handled = record {
  answer = ok (
      some (
        prepare_reply world 9 fin_packet state (Fields.seq_nr dev fin_packet)
          (Fields.seq_nr dev fin_packet)));
  peer = closed_peer;
  sent = [];
}

handle_fin : handle_packet world 9 fin_packet fresh_peer ≡ ok fin_handled
unfolding handle_packet dispatch on_fin
handle_fin = rw (fin_packet-get_type) refl

handle_packet-state_example : closed ≡ next_state connected fin
handle_packet-state_example =
    handle_packet-state world 9 fin_packet fresh_peer fin fin_handled fin_packet-get_type handle_fin

-- One peer at one address.
abbrev home_socket : UtpSocketState → UtpSocket
home_socket peer = record { peers = λ a. some peer; id = 9; drop_packets = false; client = true }

abbrev net : Net
net = record {
  world = world;
  udp_connect = λ a. none;
  udp_send_connected = λ p. none;
  first_peer = λ m. some home;
  lost = false;
  channel = λ i p. offer_taken;
}

send_packets_carries_example :
    Sent net (home_socket fresh_peer) home fresh_peer (1 ∷ 2 ∷ 3 ∷ 4 ∷ 5 ∷ 6 ∷ 7 ∷ 8 ∷ [])
send_packets_carries_example =
    send_packets_carries net (home_socket fresh_peer) home fresh_peer
      (1 ∷ 2 ∷ 3 ∷ 4 ∷ 5 ∷ 6 ∷ 7 ∷ 8 ∷ []) refl open_ (omega arith) (omega arith) (omega arith) tt
      (omega arith) (λ i p a. refl)
  where
    open_ : connected ≢ closed
    open_ e = cc

-- A short datagram read into the buffer of 26 bytes, which held ones.
abbrev used : List ℕ
used = replicate 26 1

recv_handles_buffer_example :
    (recv_packets_from net (data_packet 1) home used (home_socket fresh_peer) ≡ (
      (handle_packet world 9 (fill used (data_packet 1)) fresh_peer >>= λ h.
      ok (respond net home h (home_socket fresh_peer)))
      >>= λ r. ok (r, fill used (data_packet 1))))
    × (payload {E = ⊥} (fill used (data_packet 1)) ≡ ok (104 ∷ 105 ∷ 1 ∷ 1 ∷ 1 ∷ 1 ∷ []))
recv_handles_buffer_example =
    recv_handles_buffer net (home_socket fresh_peer) home fresh_peer used (data_packet 1)
      (104 ∷ 105 ∷ []) [] refl refl (omega arith) (omega arith) (omega arith)
      (data_packet-IsWellFormed 1)
