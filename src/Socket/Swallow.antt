-- ===== src/Socket/Swallow.antt =====
-- src/socket.rs: a peer that sends and receives, with one `last_acked` for both directions.
use rfs_utp.Common.{ℕ, ◌+◌, ◌^◌, ◌<◌, ◌≤◌, ◌≡◌, refl, ap, ◌∙◌, arith, [], ok, none, some}
use rfs_utp.Common.Target.{Target, add_u16_ok}
use rfs_utp.Packet.Types.{ack}
use rfs_utp.Packet.Wire.{fields, getters_wire}
use rfs_utp.Packet.Fields
use rfs_utp.Packet.Fields.{Packet}
use rfs_utp.BTreeMap.{remove}
use rfs_utp.Socket.State.{World, UtpSocketState}
use rfs_utp.Socket.Reply.{prepare_reply}
use rfs_utp.Socket.Handle.{receive, on_data, handle_packet}
use rfs_utp.Socket.ReplyFields.{reply_fields, reply-IsByte}
use rfs_utp.Socket.Delivery.{IsOpen, IsData, handle-on_data}
use rfs_utp.Socket.Cumulative.{IsAck, plain_ack, note_ack-next}

-- The peer after the Ack: its window and its count, and the number of the last packet.
abbrev pub acked : World → ℕ → UtpSocketState → UtpSocketState
acked w n peer = record peer {
  last_acked = n;
  last_acked_timestamp = w.now;
  duplicate_ack_count = 1;
  sent_window = remove n peer.sent_window;
}

-- What a data packet meets after an Ack of its number for the other direction.
pub record Swallowed (w : World) (id : ℕ) (a d : Packet) (peer : UtpSocketState) : Type 0 where
  pub rsp : Packet
  pub first :
      handle_packet w id a peer
      ≡ ok (record { answer = ok none; peer = acked w (Fields.ack_nr w.target a) peer; sent = [] })
  pub second :
      handle_packet w id d (acked w (Fields.ack_nr w.target a) peer)
      ≡ ok (record {
        answer = ok (some rsp);
        peer = acked w (Fields.ack_nr w.target a) peer;
        sent = [];
      })
  pub acknowledged : (t : Target) → Fields.ack_nr t rsp ≡ Fields.seq_nr w.target d

module _ (w : World) (id : ℕ) (now_small : w.now < 2 ^ 32) (id_small : id < 2 ^ 16) where
  pub receive-old :
      (packet : Packet) (peer : UtpSocketState)
      → peer.last_acked < 65535
      → Fields.seq_nr w.target packet ≤ peer.last_acked
      → receive w id packet peer ≡ ok (peer, [])
  unfolding receive
  receive-old packet peer small old = ground (arith, add_u16_ok {E = ⊥} w.target peer.last_acked 1)

  pub on_data-old :
      (packet : Packet) (peer : UtpSocketState)
      → peer.last_acked < 65535
      → Fields.seq_nr w.target packet ≤ peer.last_acked
      → on_data w id packet peer
        ≡ ok (record {
          answer = ok (some (prepare_reply w id packet ack peer.seq_nr peer.last_acked));
          peer = peer;
          sent = [];
        })
  unfolding on_data
  on_data-old packet peer small old = rw (receive-old packet peer small old) refl

  -- Data is lost where both sides send, since one number counts the packets of both directions. An
  -- open peer takes an Ack without extensions of the packet behind `last_acked`, in the u16 range,
  -- for what it has sent, and then the data packet of the other side with that number: the packet is
  -- acknowledged, and it is neither put in the incoming buffer nor kept, as the peer is the same
  -- after it.
  pub ack_swallows_data :
      (a d : Packet) (peer : UtpSocketState)
      → IsOpen peer
      → IsAck w.target a
      → IsData w.target d
      → Fields.ack_nr w.target a ≡ peer.last_acked + 1
      → Fields.seq_nr w.target d ≡ peer.last_acked + 1
      → peer.seq_nr < 65536
      → Swallowed w id a d peer
  unfolding fields
  ack_swallows_data a d peer live is_ack is_data next next' seq_small =
      let n = Fields.ack_nr w.target a in
      let after = acked w n peer in
      let rsp = prepare_reply w id d ack after.seq_nr after.last_acked in
      record {
        rsp = rsp;
        first =
            plain_ack w id a peer after live is_ack (omega (arith, is_data))
              (note_ack-next w id n peer next (omega (arith, is_data)));
        second =
            handle-on_data w id now_small id_small d after live is_data.0
            ∙ on_data-old d after (omega (arith, is_data)) (omega arith);
        acknowledged = λ t.
            (getters_wire t rsp (
              reply-IsByte w id d ack after.seq_nr after.last_acked now_small id_small seq_small
                (omega (arith, is_data)))).1
            ∙ ap (λ h. h.ack_nr)
                (reply_fields w id d ack after.seq_nr after.last_acked now_small id_small seq_small
                  (omega (arith, is_data))).0
            ∙ omega arith;
      }
