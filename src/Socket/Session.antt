-- ===== src/Socket/Session.antt =====
-- src/socket.rs: a receiver of data packets and the sender that takes its answers.
use rfs_utp.Common.{
  ℕ, ◌+◌, ◌^◌, ◌<◌, ◌≤◌, ◌≡◌, refl, sym, ap, ◌∙◌, arith, List, [], ◌∷◌, ◌++◌, length, ok, ◌>>=◌,
  some,
}
use mathlib.Core.Path.{subst}
use mathlib.Core.List.{append_assoc, append-nil}
use rfs_utp.Common.Target.{Target, add_u16_ok}
use rfs_utp.Packet.Types.{ack}
use rfs_utp.Packet.Fields
use rfs_utp.Packet.Fields.{Packet}
use rfs_utp.Packet.Wire.{fields, getters_wire}
use rfs_utp.BTreeMap.{BTreeMap, remove, remove_all}
use rfs_utp.Socket.State.{World, UtpSocketState}
use rfs_utp.Socket.Reply.{prepare_reply}
use rfs_utp.Socket.ReplyFields.{reply_fields, reply-IsByte, reply-IsWellFormed}
use rfs_utp.Socket.SynPacket.{get_type_lem}
use rfs_utp.Socket.Handle.{Run, drain, accept, receive, on_data, handle_packet, map_snd}
use rfs_utp.Socket.Delivery.{IsOpen, IsData, handle-on_data}
use rfs_utp.Socket.Swallow.{on_data-old, acked}
use rfs_utp.Socket.Cumulative.{IsAck, plain_ack, note_ack-next}
use rfs_utp.Socket.Queueing.{Carries}

-- Data packets that reach a receiver one after the other, while each of its answers reaches the
-- sender before the next one.
module _ (w : World) (id : ℕ) (ws : World) (ids : ℕ) where
  unfoldable pub session :
      List Packet → UtpSocketState → UtpSocketState → Run (UtpSocketState × UtpSocketState)
  session [] receiver sender = ok (receiver, sender)
  session (d ∷ ds) receiver sender = handle_packet w id d receiver >>= λ h. elim h.answer [
    | ok (some rsp) ↦ (handle_packet ws ids rsp sender >>= λ g. session ds h.peer g.peer)
    | _ ↦ session ds h.peer sender
  ]

-- A data packet that is answered with an Ack without extensions.
pub record Answered (w : World) (id : ℕ) (d : Packet) (receiver after : UtpSocketState)
    : Type 0 where
  pub rsp : Packet
  pub result :
      handle_packet w id d receiver
      ≡ ok (record { answer = ok (some rsp); peer = after; sent = [] })
  pub plain : (t : Target) → IsAck t rsp
  pub number : (t : Target) → Fields.ack_nr t rsp ≡ after.last_acked

module _ (w : World) (id : ℕ) (now_small : w.now < 2 ^ 32) (id_small : id < 2 ^ 16) where
  pub reply-IsAck :
      (d : Packet) (seq_nr ack_nr : ℕ)
      → seq_nr < 2 ^ 16
      → ack_nr < 2 ^ 16
      → (t : Target)
      → IsAck t (prepare_reply w id d ack seq_nr ack_nr)
        × (Fields.ack_nr t (prepare_reply w id d ack seq_nr ack_nr) ≡ ack_nr)
  unfolding fields
  reply-IsAck d seq_nr ack_nr s a t =
      let rsp = prepare_reply w id d ack seq_nr ack_nr in
      let f = (reply_fields w id d ack seq_nr ack_nr now_small id_small s a).0 in
      let g = getters_wire t rsp (reply-IsByte w id d ack seq_nr ack_nr now_small id_small s a) in
      (
        (
          get_type_lem t rsp ack (ap (λ h. h.type_ver) f),
          ([], reply-IsWellFormed w id d ack seq_nr ack_nr now_small id_small s a),
        ),
        g.1 ∙ ap (λ h. h.ack_nr) f,
      )

  -- The receiver after the next packet in order, where nothing has arrived early.
  abbrev pub taken_in : Packet → UtpSocketState → UtpSocketState
  taken_in d receiver = record receiver {
    last_acked = Fields.seq_nr w.target d;
    seq_nr = receiver.seq_nr + 1;
    incoming_buffer = receiver.incoming_buffer ++ (d ∷ []);
  }

  on_data-next :
      (d : Packet) (receiver : UtpSocketState)
      → receiver.out_of_order ≡ []
      → Fields.seq_nr w.target d ≡ receiver.last_acked + 1
      → Fields.seq_nr w.target d < 65535
      → receiver.seq_nr < 65535
      → on_data w id d receiver
        ≡ ok (record {
          answer =
              ok (some (prepare_reply w id d ack (receiver.seq_nr + 1) (Fields.seq_nr w.target d)));
          peer = taken_in d receiver;
          sent = [];
        })
  unfolding on_data receive accept drain remove_all
  on_data-next d receiver empty next small room =
      let drained : drain w id (Fields.seq_nr w.target d) receiver.out_of_order
          ≡ ok ([], Fields.seq_nr w.target d) =
        rw empty refl in
      let accepted : accept w id d receiver ≡ ok (taken_in d receiver) =
        rw (add_u16_ok w.target receiver.seq_nr 1 (omega arith), drained) refl in
      let received : receive w id d receiver ≡ ok (taken_in d receiver, []) =
        ground (arith, add_u16_ok {E = ⊥} w.target receiver.last_acked 1, accepted) in
      rw received refl

  Answered-next :
      (d : Packet) (receiver : UtpSocketState)
      → IsOpen receiver
      → IsData w.target d
      → receiver.out_of_order ≡ []
      → Fields.seq_nr w.target d ≡ receiver.last_acked + 1
      → receiver.seq_nr < 65535
      → Answered w id d receiver (taken_in d receiver)
  Answered-next d receiver live (ty, small) empty next room =
      let reply =
        reply-IsAck d (receiver.seq_nr + 1) (Fields.seq_nr w.target d) (omega arith)
          (omega arith) in
      record {
        rsp = prepare_reply w id d ack (receiver.seq_nr + 1) (Fields.seq_nr w.target d);
        result =
            handle-on_data w id now_small id_small d receiver live ty
            ∙ on_data-next d receiver empty next small room;
        plain = λ t. (reply t).0;
        number = λ t. (reply t).1;
      }

  Answered-old :
      (d : Packet) (receiver : UtpSocketState)
      → IsOpen receiver
      → IsData w.target d
      → receiver.last_acked < 65535
      → Fields.seq_nr w.target d ≤ receiver.last_acked
      → receiver.seq_nr < 65535
      → Answered w id d receiver receiver
  Answered-old d receiver live (ty, small) bounded old room =
      let reply = reply-IsAck d receiver.seq_nr receiver.last_acked (omega arith) (omega arith) in
      record {
        rsp = prepare_reply w id d ack receiver.seq_nr receiver.last_acked;
        result =
            handle-on_data w id now_small id_small d receiver live ty
            ∙ on_data-old w id now_small id_small d receiver bounded old;
        plain = λ t. (reply t).0;
        number = λ t. (reply t).1;
      }

  pub session_step :
      (ws : World) (ids : ℕ) (d : Packet) (ds : List Packet)
      (receiver after sender sender' : UtpSocketState) (a : Answered w id d receiver after)
      → (o : _)
      → handle_packet ws ids a.rsp sender ≡ ok (record { answer = o; peer = sender'; sent = [] })
      → session w id ws ids (d ∷ ds) receiver sender ≡ session w id ws ids ds after sender'
  unfolding session
  session_step ws ids d ds receiver after sender sender' a o e =
      rw (a.result, session) (rw (e, session) refl)

-- The two sides after a session without loss.
pub record Emptied (w : World) (id : ℕ) (ws : World) (ids : ℕ) (ps : List Packet)
    (receiver sender : UtpSocketState) : Type 0 where
  pub receiver' : UtpSocketState
  pub sender' : UtpSocketState
  pub result : session w id ws ids ps receiver sender ≡ ok (receiver', sender')
  pub buffer : receiver'.incoming_buffer ≡ receiver.incoming_buffer ++ ps
  pub advances : receiver'.last_acked ≡ receiver.last_acked + length ps
  pub in_step : sender'.last_acked ≡ receiver'.last_acked
  pub window : sender'.sent_window ≡ []

remove-first : (n k : ℕ) (p : Packet) (m : BTreeMap Packet) → k ≡ n → remove n ((k, p) ∷ m) ≡ m
unfolding remove
remove-first n k p m e = ground arith

module _ (w : World) (id : ℕ) (ws : World) (ids : ℕ) (now_small : w.now < 2 ^ 32)
    (id_small : id < 2 ^ 16) where
  -- Without loss a session empties the window. The window of an open sender holds data packets
  -- that carry some bytes and have consecutive numbers, the first one behind its `last_acked`; an
  -- open receiver with the same `last_acked` and nothing that arrived early takes them in order,
  -- and the sender each answer before the next one, with numbers and a count that stay in the u16
  -- range. Then neither side panics; the receiver has put all of them in its incoming buffer, in
  -- order; both have moved `last_acked` to the last one; and the window of the sender is empty.
  pub session_empties :
      (m : BTreeMap Packet) (bytes : List ℕ) (receiver sender : UtpSocketState)
      → Carries w.target (receiver.last_acked + 1) m bytes
      → sender.sent_window ≡ m
      → sender.last_acked ≡ receiver.last_acked
      → IsOpen receiver
      → IsOpen sender
      → receiver.out_of_order ≡ []
      → receiver.last_acked + length m < 65535
      → receiver.seq_nr + length m < 65536
      → Emptied w id ws ids (map_snd m) receiver sender
  unfolding session
  session_empties [] bytes receiver sender c window same live live' empty room count = record {
    receiver' = receiver;
    sender' = sender;
    result = refl;
    buffer = sym (append-nil receiver.incoming_buffer);
    advances = omega arith;
    in_step = same;
    window = window;
  }
  session_empties ((k, p) ∷ m) bytes receiver sender
        (key, number, ty, (chunk, rest, f, l, split, c)) window same live live' empty room count =
      let a =
        Answered-next w id now_small id_small p receiver live (ty, omega arith) empty number
          (omega arith) in
      let n = Fields.ack_nr ws.target a.rsp in
      let at : n ≡ receiver.last_acked + 1 = a.number ws.target ∙ number in
      let noted =
        plain_ack ws ids a.rsp sender (acked ws n sender) live' (a.plain ws.target) (omega arith)
          (note_ack-next ws ids n sender (omega arith) (omega arith)) in
      let others =
        session_empties m rest (taken_in w id now_small id_small p receiver) (acked ws n sender)
          (subst (λ x. Carries w.target (x + 1) m rest) (sym number) c)
          (ap (remove n) window ∙ remove-first n k p m (omega arith)) (omega arith) live live' empty
          (omega arith) (omega arith) in
      record {
        receiver' = others.receiver';
        sender' = others.sender';
        result =
            session_step w id now_small id_small ws ids p (map_snd m) receiver _ sender _ a _ noted
            ∙ others.result;
        buffer = others.buffer ∙ append_assoc receiver.incoming_buffer (p ∷ []) (map_snd m);
        advances = omega (arith, others.advances);
        in_step = others.in_step;
        window = others.window;
      }
