-- ===== src/Socket/EndToEnd.antt =====
-- src/socket.rs: from the `send_packets` of one socket to the `start_receiving` of another.
use rfs_utp.Common.{
  ℕ, ◌+◌, ◌%◌, ◌^◌, ◌<◌, ◌≡◌, ◌≢◌, refl, sym, ap, ◌∙◌, arith, List, [], ◌∷◌, ◌++◌, length, ok,
  false, none, some, All,
}
use rfs_utp.Common.Target.{Target}
use rfs_utp.Packet.Words.{IsByte}
use rfs_utp.Packet.Fields.{Packet}
use rfs_utp.BTreeMap.{BTreeMap}
use rfs_utp.Socket.State.{SocketAddr, UtpSocketState, closed}
use rfs_utp.Socket.Handle.{map_snd}
use rfs_utp.Socket.Delivery.{IsOpen}
use rfs_utp.Socket.Peers.{Net, UtpSocket, send_packets}
use rfs_utp.Socket.Sending.{Sent, send_packets_carries}
use rfs_utp.Socket.Queueing.{Carries, Sizes-length, datagrams}
use rfs_utp.Socket.Transfer.{unpack, unpack-Carries, complete_copies}
use rfs_utp.Socket.Loop.{Round, Progress, empty_buffer, start_receiving}
use rfs_utp.Socket.Loop.Delivery.{packets_of, looped}
use rfs_utp.Socket.Occurs.{
  Occurs, packets_in, Carries-target, all_carried, IsSentRound, copy_rounds,
}

-- The receiver after the loop has had all that was sent.
pub record Arrived (n : Net) (ss : UtpSocket) (to : SocketAddr) (buf : List ℕ) (rs : List Round)
    (sr : UtpSocket) : Type 0 where
  pub out : Progress
  pub result : start_receiving rs sr ≡ ok out
  pub waits : out.ended ≡ none
  pub delivered : out.delivered ≡ packets_in (send_packets n buf (some to) ss).sent
  pub bytes : unpack out.delivered ≡ ok buf

zeros-IsByte : All IsByte empty_buffer
zeros-IsByte = omega arith

map_snd-datagrams :
    (to : SocketAddr) (m : BTreeMap Packet) → map_snd m ≡ packets_in (datagrams to m)
map_snd-datagrams to [] = refl
map_snd-datagrams to ((k, p) ∷ m) = ap (◌∷◌ p) (map_snd-datagrams to m)

module _ (n : Net) (ss : UtpSocket) (to : SocketAddr) (sender : UtpSocketState) (buf : List ℕ)
    (t : Target) (sr : UtpSocket) (from : SocketAddr) (peer : UtpSocketState)
    (rs : List Round) where
  -- From the packets that were sent.
  Arrived-of :
      (sent : Sent n ss to sender buf)
      → sender.sent_window ≡ []
      → peer.last_acked + 1 ≡ sender.seq_nr
      → length buf % 6 ≡ 0
      → sender.seq_nr + length sent.packets < 65536
      → sr.peers from ≡ some peer
      → sr.drop_packets ≡ false
      → sr.id < 2 ^ 16
      → IsOpen peer
      → peer.out_of_order ≡ []
      → peer.incoming_buffer ≡ []
      → peer.seq_nr + length rs < 65536
      → All (IsSentRound t (packets_in (send_packets n buf (some to) ss).sent) from) rs
      → All (λ q. Occurs q (packets_of rs)) (packets_in (send_packets n buf (some to) ss).sent)
      → Arrived n ss to buf rs sr
  unfolding start_receiving
  Arrived-of sent window next mul room known keeps id_small live no_early empty count copies all =
      let gone : packets_in (send_packets n buf (some to) ss).sent
          ≡ packets_in (datagrams to sent.packets) =
        ap (λ o. packets_in o.sent) sent.result
        ∙ ap (λ m. packets_in (datagrams to (m ++ sent.packets))) window in
      let c : Carries t (peer.last_acked + 1) sent.packets buf =
        Carries-target n.world.target t (peer.last_acked + 1) sent.packets buf sent.bytes
          (rw next sent.carries) in
      let l =
        looped t (peer.last_acked + 1) sent.packets buf from c sent.sizes mul sent.bytes
          (omega arith) rs empty_buffer sr peer
          (copy_rounds t (peer.last_acked + 1) sent.packets buf to from rs c (rw gone at copies))
          refl zeros-IsByte known keeps id_small live
          (record {
            sorted = rw no_early tt;
            ahead = rw no_early tt;
            below = rw no_early tt;
            numbered = rw no_early tt;
            bounded = omega arith;
          })
          empty count in
      let (same, number) =
        complete_copies t sent.packets buf peer.last_acked l.after.last_acked (packets_of rs)
          l.out.delivered c l.in_order l.advances
          (ground (arith, l.arrivals (l.after.last_acked + 1), l.first_gap))
          (λ k low high.
            all_carried t (peer.last_acked + 1) k sent.packets buf to (packets_of rs) c
              (rw gone at all) (omega arith) (omega arith)) in
      record {
        out = l.out;
        result = l.result;
        waits = l.waits;
        delivered = same ∙ map_snd-datagrams to sent.packets ∙ sym gone;
        bytes = ap unpack same ∙ unpack-Carries t (peer.last_acked + 1) sent.packets buf c;
      }

  -- What one socket sends the other side's loop delivers. `send_packets` of a socket to a peer that
  -- is not closed, with an empty window, its datagrams taken, on a buffer of whole chunks; another
  -- socket, that simulates no loss, knows the sender as an open peer with empty buffers whose next
  -- number is the sender's, with counts that stay in the u16 range; its `start_receiving`, its
  -- answers and the channel taken, has rounds in which the sent datagrams arrive, in any order and
  -- any number of times, but each at least once. Then the loop does not panic and waits for more;
  -- it has put in the channel exactly the packets that were sent, in their order; and their
  -- payloads one after the other are the buffer. The two sides may have different byte orders.
  pub end_to_end :
      ss.peers to ≡ some sender
      → sender.state ≢ closed
      → ss.id < 2 ^ 16
      → sender.ack_nr < 2 ^ 16
      → sender.seq_nr + length buf < 65536
      → sender.sent_window ≡ []
      → All IsByte buf
      → length buf % 6 ≡ 0
      → ((i : ℕ) (p : Packet) (a : SocketAddr) → n.world.udp_send i p a ≡ none)
      → sr.peers from ≡ some peer
      → sr.drop_packets ≡ false
      → sr.id < 2 ^ 16
      → IsOpen peer
      → peer.last_acked + 1 ≡ sender.seq_nr
      → peer.out_of_order ≡ []
      → peer.incoming_buffer ≡ []
      → peer.seq_nr + length rs < 65536
      → All (IsSentRound t (packets_in (send_packets n buf (some to) ss).sent) from) rs
      → All (λ q. Occurs q (packets_of rs)) (packets_in (send_packets n buf (some to) ss).sent)
      → Arrived n ss to buf rs sr
  end_to_end open_ not_closed id_small ack_small room window b mul taken known keeps id_small' live
        next no_early empty count copies all =
      let sent =
        send_packets_carries n ss to sender buf open_ not_closed id_small ack_small room
          (rw window tt) b taken in
      Arrived-of sent window next mul
        (omega (arith, Sizes-length sent.packets (length buf) sent.sizes)) known keeps id_small'
        live no_early empty count copies all
