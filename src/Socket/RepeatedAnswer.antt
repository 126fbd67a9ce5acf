-- ===== src/Socket/RepeatedAnswer.antt =====
-- src/socket.rs: the answer to a Syn that arrives a second time.
use rfs_utp.Common.{
  ℕ, ◌+◌, ◌-◌, ◌^◌, ◌<◌, ◌≡◌, refl, ap, arith, List, [], ◌∷◌, length, All, ok, panic, false, none,
  some,
}
use rfs_utp.Common.Target.{Target}
use rfs_utp.Packet.Words.{IsByte}
use rfs_utp.Packet.Fields
use rfs_utp.Packet.Fields.{Packet}
use rfs_utp.BTreeMap.{BTreeMap, get, is_empty}
use rfs_utp.Socket.State.{SocketAddr, UtpSocketState, World, new, new_, connected}
use rfs_utp.Socket.Handle.{handle_packet}
use rfs_utp.Socket.PeerMap.{put-same}
use rfs_utp.Socket.Peers.{Net, UtpSocket, register_peer, syn_packet, connect}
use rfs_utp.Socket.Queueing.{Carries}
use rfs_utp.Socket.Sending.{Sent, send_packets_carries}
use rfs_utp.Socket.Handshake.{
  calling, connect_lem, answered, reply_packet, reply_packet-seq_nr, reply_packet-get_type,
  finished,
}
use rfs_utp.Socket.Overtake.{get-Carries}
use rfs_utp.Socket.StateArm.{on_state_panics}

-- Packets that carry some bytes.
some-Carries :
    (t : Target) (a : ℕ) (m : BTreeMap Packet) (x : ℕ) (buf : List ℕ)
    → Carries t a m (x ∷ buf)
    → is_empty m ≡ false
some-Carries t a [] x buf c = cc
some-Carries t a (e ∷ m) x buf c = refl

-- The peer of the caller after the handshake.
abbrev pub greeted : Net → ℕ → SocketAddr → UtpSocket → UtpSocketState
greeted n id addr s = record (calling n id addr s) {
  ack_nr = 1;
  seq_nr = 2;
  state = connected;
  last_acked = 1;
  last_acked_timestamp = n.world.now;
  sent_window = [];
}

-- A handshake, a write behind it, and the handshake's answer once more.
pub record AnsweredTwice (n : Net) (id : ℕ) (addr : SocketAddr) (s : UtpSocket) (w : World)
    (other : ℕ) (server : UtpSocketState) (again : World) (buf : List ℕ) : Type 0 where
  pub answer : Packet
  pub called : (connect n id addr s).socket ≡ register_peer addr (calling n id addr s) s
  pub answered_there :
      handle_packet w other (syn_packet n s.id 1) server
      ≡ ok (record {
        answer = ok (some answer);
        peer = record server { last_acked = 1; state = connected };
        sent = [];
      })
  pub first :
      handle_packet n.world s.id answer (calling n id addr s)
      ≡ ok (record { answer = ok none; peer = greeted n id addr s; sent = [] })
  pub sent : Sent n (register_peer addr (greeted n id addr s) s) addr (greeted n id addr s) buf
  pub second :
      handle_packet again s.id answer (record (greeted n id addr s) {
        sent_window = sent.packets;
        seq_nr = 2 + length sent.packets;
      })
      ≡ panic

module _ (n : Net) (id : ℕ) (addr : SocketAddr) (s : UtpSocket) (w : World) (other : ℕ)
    (server : UtpSocketState) (again : World) (x : ℕ) (buf : List ℕ) where
  -- The answer to the Syn, if the network delivers it twice, makes the caller panic. A socket calls
  -- an address that it does not know, where the UDP socket connects and takes all that is sent; a
  -- peer in state New on the other side answers the Syn, and the answer connects the caller, which
  -- then writes at least one and at most 65000 bytes. When the same answer arrives again, before
  -- anything is acknowledged, the caller takes it for one on the open connection, looks in its
  -- window for the packet numbered 0, and panics, whatever its clock, the byte order and the
  -- overflow checks.
  pub repeated_answer_panics :
      s.peers addr ≡ none
      → s.id < 2 ^ 16
      → n.udp_connect addr ≡ none
      → ((p : Packet) → n.udp_send_connected p ≡ none)
      → ((i : ℕ) (p : Packet) (a : SocketAddr) → n.world.udp_send i p a ≡ none)
      → w.now < 2 ^ 32
      → other < 2 ^ 16
      → server.state ≡ new_
      → All IsByte (x ∷ buf)
      → length buf < 65000
      → AnsweredTwice n id addr s w other server again (x ∷ buf)
  unfolding new register_peer
  repeated_answer_panics unknown_peer id_small opens sends taken now_small other_small fresh b
        room =
      let answer =
        reply_packet n id addr s unknown_peer id_small opens sends w other server now_small
          other_small fresh in
      let (number, ack_number) =
        reply_packet-seq_nr n id addr s unknown_peer id_small opens sends w other server now_small
          other_small fresh again.target in
      let sent =
        send_packets_carries n (register_peer addr (greeted n id addr s) s) addr
          (greeted n id addr s) (x ∷ buf) (put-same addr (greeted n id addr s) s.peers) (λ e. cc)
          id_small (omega arith) (omega arith) tt b taken in
      let missing : get (Fields.ack_nr again.target answer - 1) sent.packets ≡ none =
        get-Carries n.world.target _ 2 sent.packets (x ∷ buf) (omega arith) sent.carries in
      record {
        answer = answer;
        called = ap (λ o. o.socket) (connect_lem n id addr s unknown_peer id_small opens sends);
        answered_there =
            answered n id addr s unknown_peer id_small opens sends w other server now_small
              other_small fresh;
        first =
            finished n id addr s unknown_peer id_small opens sends w other server now_small
              other_small fresh;
        sent = sent;
        second =
            on_state_panics again s.id answer _
              (reply_packet-get_type n id addr s unknown_peer id_small opens sends w other server
                now_small other_small fresh again.target)
              refl (some-Carries n.world.target 2 sent.packets x buf sent.carries) (omega arith)
              missing;
      }
