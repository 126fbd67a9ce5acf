-- ===== src/Socket/Duplicates.antt =====
-- src/socket.rs: duplicate Acks and the fast retransmission.
use rfs_utp.Common.{
  ℕ, suc, ◌+◌, ◌<◌, ◌≤◌, ◌≡◌, ap, ◌∙◌, arith, List, [], ◌∷◌, length, ok, leb, if◌then◌else◌, All,
  none,
}
use rfs_utp.Common.Target.{Target, add_u16_ok}
use rfs_utp.Packet.Fields
use rfs_utp.Packet.Fields.{Packet}
use rfs_utp.BTreeMap.{get}
use rfs_utp.Socket.State.{UtpSocketState, World}
use rfs_utp.Socket.Handle.{note_ack, handle_packet}
use rfs_utp.Socket.Delivery.{IsOpen, handle_all}
use rfs_utp.Socket.Cumulative.{IsAck, plain_ack}

-- An Ack without extensions that repeats a number.
abbrev pub Repeats : Target → ℕ → Packet → Type 0
Repeats t a p = IsAck t p × (Fields.ack_nr t p ≡ a)

-- The peer after as many more duplicates.
abbrev pub counted : ℕ → UtpSocketState → UtpSocketState
counted n peer = record peer { duplicate_ack_count = peer.duplicate_ack_count + n }

module _ (w : World) (id : ℕ) where
  pub note_ack-again :
      (n : ℕ) (peer : UtpSocketState)
      → n ≡ peer.last_acked
      → peer.duplicate_ack_count + 1 < 65536
      → note_ack w id n peer ≡ ok (counted 1 peer)
  unfolding note_ack
  note_ack-again n peer e small =
      ground (arith, add_u16_ok {E = ⊥} w.target peer.duplicate_ack_count 1)

  handle_repeat :
      (p : Packet) (peer : UtpSocketState)
      → Repeats w.target peer.last_acked p
      → IsOpen peer
      → peer.last_acked < 65535
      → peer.duplicate_ack_count + 1 < 65536
      → handle_packet w id p peer
        ≡ ok (record {
          answer = ok (
              if leb 3 (peer.duplicate_ack_count + 1)
              then get (peer.last_acked + 1) peer.sent_window
              else none);
          peer = counted 1 peer;
          sent = [];
        })
  handle_repeat p peer (a, e) live small room =
      plain_ack w id p peer (counted 1 peer) live a (omega arith) (note_ack-again _ peer e room)
      ∙ ap
          (λ n. ok (record {
            answer = ok (
                if leb 3 (peer.duplicate_ack_count + 1)
                then get (n + 1) peer.sent_window
                else none);
            peer = counted 1 peer;
            sent = [];
          }))
          e

  repeats :
      (ps : List Packet) (peer : UtpSocketState)
      → All (Repeats w.target peer.last_acked) ps
      → IsOpen peer
      → peer.last_acked < 65535
      → peer.duplicate_ack_count + length ps < 65536
      → handle_all w id ps peer ≡ ok (counted (length ps) peer)
  unfolding handle_all
  repeats [] peer d live small room =
      ap (λ n. ok (record peer { duplicate_ack_count = n })) {x = peer.duplicate_ack_count}
        (omega arith)
  repeats (p ∷ ps) peer d live small room = rw (handle_repeat p peer d.0 live small (omega arith)) (
      repeats ps (counted 1 peer) d.1 live small (omega arith)
      ∙ ap (λ n. ok (record peer { duplicate_ack_count = n }))
          {x = peer.duplicate_ack_count + 1 + length ps}
          {y = peer.duplicate_ack_count + suc (length ps)} (omega arith))

  -- Fast retransmission: an open peer counts Acks without extensions that repeat `last_acked`,
  -- which lies, like the count, below the end of the u16 range; once two are counted, a further one
  -- is answered with the packet behind `last_acked` if the window holds it, and with none if not.
  pub duplicates_retransmit :
      (ps : List Packet) (p : Packet) (peer : UtpSocketState)
      → All (Repeats w.target peer.last_acked) (p ∷ ps)
      → IsOpen peer
      → peer.last_acked < 65535
      → peer.duplicate_ack_count + length ps < 65535
      → 2 ≤ peer.duplicate_ack_count + length ps
      → (handle_all w id ps peer ≡ ok (counted (length ps) peer))
        × (handle_packet w id p (counted (length ps) peer)
            ≡ ok (record {
              answer = ok (get (peer.last_acked + 1) peer.sent_window);
              peer = counted 1 (counted (length ps) peer);
              sent = [];
            }))
  duplicates_retransmit ps p peer d live small room third = (
    repeats ps peer d.1 live small (omega arith),
    handle_repeat p (counted (length ps) peer) d.0 live small (omega arith) ∙ ground arith,
  )
