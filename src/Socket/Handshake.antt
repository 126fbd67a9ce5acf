-- ===== src/Socket/Handshake.antt =====
-- src/socket.rs: `connect`, and the Syn and the State packet that follow it.
use rfs_utp.Common.{ℕ, ◌+◌, ◌%◌, ◌^◌, ◌<◌, ◌≡◌, refl, ap, ◌∙◌, arith, [], ◌∷◌, ok, none, some}
use rfs_utp.Common.Target.{Target}
use rfs_utp.Packet.Types.{state}
use rfs_utp.Packet.Fields
use rfs_utp.Packet.Fields.{Packet}
use rfs_utp.Packet.Wire.{fields, getters_wire}
use rfs_utp.BTreeMap.{BTreeMap, insert, remove}
use rfs_utp.Socket.State.{new_, syn_sent, connected, SocketAddr, UtpSocketState, new, World}
use rfs_utp.Socket.Reply.{prepare_reply}
use rfs_utp.Socket.ReplyFields.{reply_fields, reply-IsByte}
use rfs_utp.Socket.Handle.{on_first_syn, on_syn_acked, dispatch, handle_packet}
use rfs_utp.Socket.SynPacket.{get_type_lem, syn_packet-get_type, syn_packet-seq_nr}
use rfs_utp.Socket.Peers.{Net, UtpSocket, register_peer, syn_packet, connect}

-- The peer that `connect` makes.
abbrev pub calling : Net → ℕ → SocketAddr → UtpSocket → UtpSocketState
calling n id addr s = record (new id) {
  state = syn_sent;
  connected_to = some addr;
  sent_window = (1, syn_packet n s.id 1) ∷ [];
}

-- A handshake: the run of `connect`, the answer of the other side to its Syn, and what the caller
-- makes of the answer.
pub record Established (n : Net) (id : ℕ) (addr : SocketAddr) (s : UtpSocket) (w : World)
    (other : ℕ) (server : UtpSocketState) : Type 0 where
  pub answer : Packet
  pub called : connect n id addr s ≡ record {
    answer = ok tt;
    socket = register_peer addr (calling n id addr s) s;
    sent = record { packet = syn_packet n s.id 1; addr = addr } ∷ [];
    delivered = [];
  }
  pub answered :
      handle_packet w other (syn_packet n s.id 1) server
      ≡ ok (record {
        answer = ok (some answer);
        peer = record server { last_acked = 1; state = connected };
        sent = [];
      })
  pub caller : UtpSocketState
  pub finished :
      handle_packet n.world s.id answer (calling n id addr s)
      ≡ ok (record { answer = ok none; peer = caller; sent = [] })
  pub caller_state : caller.state ≡ connected
  pub caller_window : caller.sent_window ≡ []
  pub caller_numbers : (caller.seq_nr ≡ 2) × (caller.ack_nr ≡ 1) × (caller.last_acked ≡ 1)

module _ (n : Net) (id : ℕ) (addr : SocketAddr) (s : UtpSocket) (unknown_peer : s.peers addr ≡ none)
    (id_small : s.id < 2 ^ 16) (opens : n.udp_connect addr ≡ none)
    (sends : (p : Packet) → n.udp_send_connected p ≡ none) where
  pub connect_lem : connect n id addr s ≡ record {
    answer = ok tt;
    socket = register_peer addr (calling n id addr s) s;
    sent = record { packet = syn_packet n s.id 1; addr = addr } ∷ [];
    delivered = [];
  }
  unfolding connect new insert
  connect_lem =
      rw (unknown_peer, connect)
        (rw (opens, connect)
          (rw (sends (syn_packet n s.id 1), syn_packet-seq_nr n s.id id_small n.world.target) refl))

  module _ (w : World) (other : ℕ) (server : UtpSocketState) (now_small : w.now < 2 ^ 32)
      (other_small : other < 2 ^ 16) (fresh : server.state ≡ new_) where
    abbrev pub reply_packet : Packet
    reply_packet = prepare_reply w other (syn_packet n s.id 1) state 1 1

    pub answered :
        handle_packet w other (syn_packet n s.id 1) server
        ≡ ok (record {
          answer = ok (some reply_packet);
          peer = record server { last_acked = 1; state = connected };
          sent = [];
        })
    unfolding handle_packet dispatch on_first_syn
    answered =
        let one = syn_packet-seq_nr n s.id id_small w.target in
        let ty = syn_packet-get_type n s.id id_small w.target in
        let arm : on_first_syn w other (syn_packet n s.id 1) server
            ≡ ok (record {
              answer = ok (some reply_packet);
              peer = record server { last_acked = 1; state = connected };
              sent = [];
            }) =
          rw one refl in
        ground (arith, fresh, ty, arm)

    pub reply_packet-seq_nr :
        (t : Target) → (Fields.seq_nr t reply_packet ≡ 1) × (Fields.ack_nr t reply_packet ≡ 1)
    reply_packet-seq_nr t =
        let (f, d, l) =
          reply_fields w other (syn_packet n s.id 1) state 1 1 now_small other_small (omega arith)
            (omega arith) in
        let g = getters_wire t reply_packet (
          reply-IsByte w other (syn_packet n s.id 1) state 1 1 now_small other_small (omega arith)
            (omega arith)) in
        (g.0 ∙ ap (λ h. h.seq_nr) f, g.1 ∙ ap (λ h. h.ack_nr) f)

    pub reply_packet-get_type : (t : Target) → Fields.get_type {E = ⊥} t reply_packet ≡ ok state
    unfolding fields
    reply_packet-get_type t =
        let (f, d, l) =
          reply_fields w other (syn_packet n s.id 1) state 1 1 now_small other_small (omega arith)
            (omega arith) in
        get_type_lem t reply_packet state (ap (λ h. h.type_ver) f)

    -- The answer at the caller, whatever its window holds by then.
    pub answer_taken :
        (m : BTreeMap Packet) (k : ℕ)
        → handle_packet n.world s.id reply_packet
            (record (calling n id addr s) { sent_window = m; seq_nr = k })
          ≡ ok (record {
            answer = ok none;
            peer = record (calling n id addr s) {
              ack_nr = 1;
              seq_nr = (k + 1) % 65536;
              state = connected;
              last_acked = 1;
              last_acked_timestamp = n.world.now;
              sent_window = remove 1 m;
            };
            sent = [];
          })
    unfolding handle_packet dispatch on_syn_acked
    answer_taken m k =
        let (a, b) = reply_packet-seq_nr n.world.target in
        rw (reply_packet-get_type n.world.target) (rw (a, b) refl)

    pub finished :
        handle_packet n.world s.id reply_packet (calling n id addr s)
        ≡ ok (record {
          answer = ok none;
          peer = record (calling n id addr s) {
            ack_nr = 1;
            seq_nr = 2;
            state = connected;
            last_acked = 1;
            last_acked_timestamp = n.world.now;
            sent_window = [];
          };
          sent = [];
        })
    unfolding remove new
    finished = answer_taken ((1, syn_packet n s.id 1) ∷ []) 1

    -- A connection is set up: a socket that calls an address that it does not know, where the UDP
    -- socket connects and sends, sends a Syn numbered 1; a peer in state New on the other side
    -- connects and answers it; and the answer connects the caller, whose window is then empty and
    -- whose next number, 2, is the one that the other side expects next. The two sides may differ
    -- in clock, byte order and overflow checks.
    pub handshake : Established n id addr s w other server
    handshake = record {
      answer = reply_packet;
      called = connect_lem;
      answered = answered;
      caller = record (calling n id addr s) {
        ack_nr = 1;
        seq_nr = 2;
        state = connected;
        last_acked = 1;
        last_acked_timestamp = n.world.now;
        sent_window = [];
      };
      finished = finished;
      caller_state = refl;
      caller_window = refl;
      caller_numbers = (refl, refl, refl);
    }
