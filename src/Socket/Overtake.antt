-- ===== src/Socket/Overtake.antt =====
-- src/socket.rs: a write between `connect` and the answer to its Syn.
use rfs_utp.Common.{ℕ, ◌+◌, ◌<◌, ◌≡◌, refl, arith, List, [], ◌∷◌, length, ok, none, some}
use rfs_utp.Common.Target.{Target}
use rfs_utp.Packet.Types.{data_}
use rfs_utp.Packet.Fields
use rfs_utp.Packet.Fields.{Packet}
use rfs_utp.BTreeMap.{BTreeMap, get, remove}
use rfs_utp.Socket.State.{SocketAddr, UtpSocketState, World, connected}
use rfs_utp.Socket.Handle.{handle_packet}
use rfs_utp.Socket.Peers.{Net, UtpSocket, register_peer, syn_packet, connect, send_packets}
use rfs_utp.Socket.Queueing.{Carries, datagrams}
use rfs_utp.Socket.Handshake.{calling}

-- Numbers below the first one of a window are not in it.
pub get-Carries :
    (t : Target) (k a : ℕ) (m : BTreeMap Packet) (buf : List ℕ)
    → k < a
    → Carries t a m buf
    → get k m ≡ none
unfolding get
get-Carries t k a [] buf h c = refl
get-Carries t k a ((j, p) ∷ m) buf h (same, number, ty, (chunk, rest, w, l, split, c)) =
    ground (arith, get-Carries t k (a + 1) m rest (omega arith) c)

-- The first packet of those that carry some bytes.
pub record First (t t' : Target) (m : BTreeMap Packet) : Type 0 where
  pub first : Packet
  pub found : get 1 m ≡ some first
  pub gone : get 1 (remove 1 m) ≡ none
  pub number : Fields.seq_nr t' first ≡ 1
  pub is_data : Fields.get_type {E = ⊥} t' first ≡ ok data_

-- The caller once it has written, before the answer.
abbrev pub waiting : Net → ℕ → SocketAddr → UtpSocket → BTreeMap Packet → UtpSocketState
waiting n id addr s packets = record (calling n id addr s) {
  sent_window = packets;
  seq_nr = 1 + length packets;
}

-- A write that overtakes the handshake: the run of the write; the other side at the Syn and then at
-- the first packet; and the caller at the answer to the Syn.
pub record Overtaken (n : Net) (id : ℕ) (addr : SocketAddr) (s : UtpSocket) (w : World) (other : ℕ)
    (server : UtpSocketState) (buf : List ℕ) : Type 0 where
  pub packets : BTreeMap Packet
  pub carries : Carries n.world.target 1 packets buf
  pub written : send_packets n buf (some addr) (connect n id addr s).socket ≡ record {
    answer = ok tt;
    socket = register_peer addr (waiting n id addr s packets) (connect n id addr s).socket;
    sent = datagrams addr packets;
    delivered = [];
  }
  pub answer : Packet
  pub connected_there :
      handle_packet w other (syn_packet n s.id 1) server
      ≡ ok (record {
        answer = ok (some answer);
        peer = record server { last_acked = 1; state = connected };
        sent = [];
      })
  pub first : Packet
  pub first_numbered : get 1 packets ≡ some first
  pub rsp : Packet
  pub dropped :
      handle_packet w other first (record server { last_acked = 1; state = connected })
      ≡ ok (record {
        answer = ok (some rsp);
        peer = record server { last_acked = 1; state = connected };
        sent = [];
      })
  pub caller : UtpSocketState
  pub finished :
      handle_packet n.world s.id answer (waiting n id addr s packets)
      ≡ ok (record { answer = ok none; peer = caller; sent = [] })
  pub forgotten : get 1 caller.sent_window ≡ none
  pub skipped : caller.seq_nr ≡ 2 + length packets
