-- ===== src/Tests/Samples.antt =====
-- Packets and peers that the examples share, with what is computed of them.
use rfs_utp.Common.{ℕ, ◌+◌, ◌*◌, ◌≡◌, refl, arith, List, [], ◌∷◌, drop, ok, true, none}
use rfs_utp.Common.Int.{pos}
use rfs_utp.Common.Target.{Target, little}
use rfs_utp.Packet.Types.{
  data_, ack, fin, unknown, selective_ack, packet_type_from_u8, extension_type_from_u8,
}
use rfs_utp.Packet.Words.{load_u16, swap_u16}
use rfs_utp.Packet.Header
use rfs_utp.Packet.Header.{cast}
use rfs_utp.Packet.Fields
use rfs_utp.Packet.Fields.{Packet}
use rfs_utp.Packet.Extensions.{Extension}
use rfs_utp.Packet.Chain.{end, link}
use rfs_utp.Packet.Parse.{IsWellFormed}
use rfs_utp.Socket.State.{connected, UtpSocketState, SocketAddr, World}

-- A little-endian target with overflow checks.
abbrev pub dev : Target
dev = record { endian = little; overflow_checks = true }

-- A packet of this type code, with these numbers below 256 and this payload.
abbrev pub raw : ℕ → ℕ → ℕ → List ℕ → Packet
raw ty seq_nr ack_nr payload =
    (ty * 16 + 1)
    ∷ 0
    ∷ 0
    ∷ 7
    ∷ 0
    ∷ 0
    ∷ 0
    ∷ 0
    ∷ 0
    ∷ 0
    ∷ 0
    ∷ 0
    ∷ 0
    ∷ 0
    ∷ 0
    ∷ 0
    ∷ 0
    ∷ seq_nr
    ∷ 0
    ∷ ack_nr
    ∷ payload

abbrev pub data_packet : ℕ → Packet
data_packet seq_nr = raw 0 seq_nr 0 (104 ∷ 105 ∷ [])

abbrev pub ack_packet : ℕ → Packet
ack_packet ack_nr = raw 5 0 ack_nr []

pub data_packet-get_type : (k : ℕ) → Fields.get_type {E = ⊥} dev (data_packet k) ≡ ok data_
unfolding Fields.get_type Header.get_type cast packet_type_from_u8
data_packet-get_type k = refl

pub ack_packet-get_type : (k : ℕ) → Fields.get_type {E = ⊥} dev (ack_packet k) ≡ ok ack
unfolding Fields.get_type Header.get_type cast packet_type_from_u8
ack_packet-get_type k = refl

abbrev pub fin_packet : Packet
fin_packet = raw 1 5 0 []

pub fin_packet-get_type : Fields.get_type {E = ⊥} dev fin_packet ≡ ok fin
unfolding Fields.get_type Header.get_type cast packet_type_from_u8
fin_packet-get_type = refl

pub data_packet-seq_nr :
    (Fields.seq_nr dev (data_packet 1) ≡ 1)
    × (Fields.seq_nr dev (data_packet 2) ≡ 2)
    × (Fields.seq_nr dev (data_packet 3) ≡ 3)
unfolding Fields.seq_nr cast load_u16 swap_u16
data_packet-seq_nr = (refl, refl, refl)

pub ack_packet-ack_nr :
    (Fields.ack_nr dev (ack_packet 1) ≡ 1) × (Fields.ack_nr dev (ack_packet 2) ≡ 2)
unfolding Fields.ack_nr cast load_u16 swap_u16
ack_packet-ack_nr = (refl, refl)

pub data_packet-IsWellFormed : (k : ℕ) → IsWellFormed (data_packet k) [] (104 ∷ 105 ∷ [])
unfolding extension_type_from_u8
data_packet-IsWellFormed k = record {
  sized = omega arith;
  version = refl;
  known_type = omega arith;
  chain = end (104 ∷ 105 ∷ []) refl;
}

pub ack_packet-IsWellFormed : (k : ℕ) → IsWellFormed (ack_packet k) [] []
unfolding extension_type_from_u8
ack_packet-IsWellFormed k = record {
  sized = omega arith;
  version = refl;
  known_type = omega arith;
  chain = end [] refl;
}

abbrev pub sack_bytes : List ℕ
sack_bytes = 5 ∷ 0 ∷ 0 ∷ 128 ∷ []

-- An Ack of number 1 with one selective ACK.
abbrev pub sack_packet : Packet
sack_packet = 81 ∷ 1 ∷ drop 2 (raw 5 0 1 (0 ∷ 4 ∷ sack_bytes))

pub sack_packet-IsWellFormed :
    IsWellFormed sack_packet (record { ty = selective_ack; bytes = sack_bytes } ∷ []) []
unfolding extension_type_from_u8
sack_packet-IsWellFormed = record {
  sized = omega arith;
  version = refl;
  known_type = omega arith;
  chain = link 0 sack_bytes [] refl refl (omega arith) refl (end [] refl);
}

pub sack_packet-ack_nr : Fields.ack_nr dev sack_packet ≡ 1
unfolding Fields.ack_nr cast load_u16 swap_u16
sack_packet-ack_nr = refl

-- A data packet with an unknown extension and a selective ACK behind it.
abbrev pub two_extensions : Packet
two_extensions =
    1 ∷ 2 ∷ drop 2 (raw 0 1 0 (1 ∷ 4 ∷ 9 ∷ 9 ∷ 9 ∷ 9 ∷ 0 ∷ 4 ∷ 5 ∷ 0 ∷ 0 ∷ 128 ∷ 104 ∷ []))

abbrev pub unknown_first : Extension
unknown_first = record { ty = unknown 2; bytes = 9 ∷ 9 ∷ 9 ∷ 9 ∷ [] }

pub two_extensions-IsWellFormed :
    IsWellFormed two_extensions
      (unknown_first ∷ record { ty = selective_ack; bytes = sack_bytes } ∷ [])
      (104 ∷ [])
unfolding extension_type_from_u8
two_extensions-IsWellFormed = record {
  sized = omega arith;
  version = refl;
  known_type = omega arith;
  chain =
      link 1 (9 ∷ 9 ∷ 9 ∷ 9 ∷ []) (0 ∷ 4 ∷ (5 ∷ 0 ∷ 0 ∷ 128 ∷ 104 ∷ [])) refl refl (omega arith)
        refl (link 0 sack_bytes (104 ∷ []) refl refl (omega arith) refl (end (104 ∷ []) refl));
}

-- A peer that is connected, with this window and nothing received.
abbrev pub peer_with : List (ℕ × Packet) → UtpSocketState
peer_with window = record {
  state = connected;
  seq_nr = 1;
  ack_nr = 0;
  duplicate_ack_count = 0;
  last_acked = 0;
  last_acked_timestamp = 0;
  rtt = pos 0;
  rtt_variance = pos 0;
  curr_window = 0;
  cwnd = 10;
  max_retransmission_retries = 5;
  incoming_buffer = [];
  sent_window = window;
  unsent_queue = [];
  remote_wnd_size = 0;
  base_delays = [];
  current_delays = [];
  their_delay = pos 0;
  last_rollover = 0;
  congestion_timeout = 500;
  connected_to = none;
  sender_id = 7;
  out_of_order = [];
}

abbrev pub home : SocketAddr
home = record { ip = 2_130_706_433; port = 8_080 }

-- A world where every datagram is taken.
abbrev pub world : World
world = record { target = dev; now = 1_000; udp_send = λ i p a. none }
