-- ===== src/Stream/Repeat.antt =====
-- src/stream.rs: a write that is suspended and repeated.
use rfs_utp.Common.{
  ℕ, zero, suc, ◌+◌, ◌*◌, ◌^◌, ◌<◌, ◌≤◌, ◌≡◌, ◌≢◌, refl, ap, ◌∙◌, arith, List, [], ◌∷◌, ◌++◌,
  length, ok, none, some, true, All, length-append,
}
use mathlib.Core.Path.{subst}
use mathlib.Core.List.{append_assoc, append-nil}
use rfs_utp.Common.Target.{Target}
use rfs_utp.Packet.Words.{IsByte}
use rfs_utp.Packet.Fields.{Packet}
use rfs_utp.BTreeMap.{BTreeMap, Below}
use rfs_utp.Socket.State.{SocketAddr, UtpSocketState, Datagram, closed}
use rfs_utp.Socket.Peers.{Net, UtpSocket, Peers, choose_peer, register_peer}
use rfs_utp.Socket.PeerMap.{put-same}
use rfs_utp.Socket.Sending.{not_closed}
use rfs_utp.Socket.Queueing.{Carries, Sizes, Sizes-length, Queued, queued, datagrams}
use rfs_utp.Stream.{ready, pending, Readiness, poll_send_window, poll_send_packets, poll_write}

-- Packets that carry one list of bytes and then another.
pub Carries-append :
    (t : Target) (a : ℕ) (ps qs : List (ℕ × Packet)) (xs ys : List ℕ)
    → Carries t a ps xs
    → Carries t (a + length ps) qs ys
    → Carries t a (ps ++ qs) (xs ++ ys)
Carries-append t a [] qs xs ys c d =
    rw c (subst (λ k. Carries t k qs ys) {x = a + 0} {y = a} (omega arith) d)
Carries-append t a ((k, p) ∷ ps) qs xs ys (same, number, ty, (chunk, rest, w, l, split, c)) d = (
  same,
  number,
  ty,
  (
    chunk,
    rest ++ ys,
    w,
    l,
    ap (λ z. z ++ ys) split ∙ append_assoc chunk rest ys,
    Carries-append t (a + 1) ps qs rest ys c (
        subst (λ k. Carries t k qs ys) {x = a + suc (length ps)} {y = a + 1 + length ps}
          (omega arith) d),
  ),
)

Below-weaken : (j k : ℕ) (m : BTreeMap Packet) → j ≤ k → Below j m → Below k m
Below-weaken j k [] h b = tt
Below-weaken j k ((i, p) ∷ m) h b = (omega arith, Below-weaken j k m h b.1)

-- The numbers of a window with further packets.
Below-Carries :
    (t : Target) (a b : ℕ) (m : BTreeMap Packet) (ps : List (ℕ × Packet)) (buf : List ℕ)
    → Below b m
    → b ≤ a
    → Carries t a ps buf
    → Below (a + length ps) (m ++ ps)
Below-Carries t a b [] [] buf low h c = tt
Below-Carries t a b [] ((k, p) ∷ ps) buf low h (same, number, ty, (chunk, rest, w, l, split, c)) = (
  omega arith,
  subst (λ n. Below n ps) {x = a + 1 + length ps} {y = a + suc (length ps)} (omega arith)
      (Below-Carries t (a + 1) b [] ps rest tt (omega arith) c),
)
Below-Carries t a b ((k, p) ∷ m) ps buf low h c =
    (omega arith, Below-Carries t a b m ps buf low.1 h c)

module _ (n : Net)
    (taken : (i : ℕ) (p : Packet) (a : SocketAddr) → n.world.udp_send i p a ≡ none) where
  window_suspended :
      (k : ℕ) (addr : SocketAddr) (m : BTreeMap Packet) (sent : List Datagram)
      → k < length m
      → (poll_send_window n k addr m sent).0 ≡ pending
  unfolding poll_send_window
  window_suspended k addr [] sent h = elim h [ ]
  window_suspended zero addr (e ∷ m) sent h = refl
  window_suspended (suc k) addr ((j, p) ∷ m) sent h =
      rw (taken (length sent) p addr, poll_send_window) (window_suspended k addr m _ (omega arith))

  window_sent :
      (k : ℕ) (addr : SocketAddr) (m : BTreeMap Packet) (sent : List Datagram)
      → length m ≤ k
      → poll_send_window n k addr m sent ≡ (ready (ok tt), sent ++ datagrams addr m)
  unfolding poll_send_window
  window_sent k addr [] sent h = rw append-nil refl
  window_sent zero addr (e ∷ m) sent h = absurd (omega arith)
  window_sent (suc k) addr ((j, p) ∷ m) sent h =
      rw (taken (length sent) p addr, poll_send_window)
        (window_sent k addr m _ (omega arith)
          ∙ ap (λ l. (ready (ok tt), l)) (append_assoc sent _ (datagrams addr m)))

-- The peer with further packets in its window.
abbrev pub with_packets : UtpSocketState → List (ℕ × Packet) → UtpSocketState
with_packets peer packets = record peer {
  sent_window = peer.sent_window ++ packets;
  seq_nr = peer.seq_nr + length packets;
}

module _ (n : Net) (addr : SocketAddr) (one_peer : (m : Peers) → n.first_peer m ≡ some addr)
    (r : Readiness) (free : r.lock ≡ true) (buf : List ℕ) where
  chosen :
      (s : UtpSocket) (peer : UtpSocketState)
      → s.peers addr ≡ some peer
      → choose_peer n none s ≡ some (addr, peer)
  unfolding choose_peer
  chosen s peer known = rw (one_peer s.peers, choose_peer) (rw (known, choose_peer) refl)

  poll_lem :
      (s : UtpSocket) (peer : UtpSocketState)
      → s.peers addr ≡ some peer
      → peer.state ≢ closed
      → (q : Queued n s.id (length buf) buf peer)
      → poll_send_packets n r buf s ≡ (
          let w = poll_send_window n r.datagrams addr (peer.sent_window ++ q.packets) [] in
          (w.0, register_peer addr (with_packets peer q.packets) s, w.1))
  unfolding poll_send_packets
  poll_lem s peer known open_ q =
      rw (chosen s peer known, poll_send_packets)
        (rw (free, poll_send_packets)
          (rw (not_closed peer.state open_, poll_send_packets) (rw q.result refl)))

Sizes-pos : (ps : List (ℕ × Packet)) (k : ℕ) → Sizes ps k → 0 < k → 0 < length ps
Sizes-pos [] k s h = absurd (omega arith)
Sizes-pos (e ∷ ps) k s h = omega arith

-- A write that is suspended and then repeated: the two answers, and the peer in the end.
pub record WrittenTwice (n : Net) (s : UtpSocket) (addr : SocketAddr) (peer : UtpSocketState)
    (buf : List ℕ) (first second : Readiness) : Type 0 where
  pub suspended : (poll_write n first buf s).0 ≡ pending
  pub packets : List (ℕ × Packet)
  pub carries : Carries n.world.target peer.seq_nr packets (buf ++ buf)
  pub repeated : poll_write n second buf (poll_write n first buf s).1 ≡ (
    ready (ok (length buf)),
    register_peer addr (with_packets peer packets) (poll_write n first buf s).1,
    datagrams addr (peer.sent_window ++ packets),
  )

module _ (n : Net) (s : UtpSocket) (addr : SocketAddr) (peer : UtpSocketState) (buf : List ℕ)
    (first second : Readiness) where
  -- A write that the UDP socket suspends and that its caller repeats is sent twice. A stream with
  -- one peer, that is not closed, whose window lies below `seq_nr`, its datagrams taken where the
  -- socket is ready for them, and numbers that stay in the u16 range: `poll_write` of some bytes,
  -- where the UDP socket is ready for no more datagrams than stood in the window before, is
  -- pending; and when it is called with the same bytes again, as a caller does, and gets through,
  -- it answers that the bytes are written once, while the window has grown by packets that carry
  -- the bytes twice, one after the other.
  pub poll_write_repeats :
      ((m : Peers) → n.first_peer m ≡ some addr)
      → ((i : ℕ) (p : Packet) (a : SocketAddr) → n.world.udp_send i p a ≡ none)
      → s.peers addr ≡ some peer
      → peer.state ≢ closed
      → s.id < 2 ^ 16
      → peer.ack_nr < 2 ^ 16
      → peer.seq_nr + 2 * length buf < 65536
      → Below peer.seq_nr peer.sent_window
      → All IsByte buf
      → 0 < length buf
      → first.lock ≡ true
      → first.datagrams ≤ length peer.sent_window
      → second.lock ≡ true
      → length peer.sent_window + 2 * length buf ≤ second.datagrams
      → WrittenTwice n s addr peer buf first second
  unfolding poll_write register_peer
  poll_write_repeats one taken known open_ id_small ack_small room below b some_bytes free stops
        free' enough =
      let q =
        queued n s.id id_small (length buf) buf peer (omega arith) b (omega arith) ack_small
          below in
      let once = with_packets peer q.packets in
      let few = Sizes-length q.packets (length buf) q.sizes in
      let s' = register_peer addr once s in
      let q' =
        queued n s.id id_small (length buf) buf once (omega arith) b (omega arith) ack_small (
          Below-Carries n.world.target peer.seq_nr peer.seq_nr peer.sent_window q.packets buf below
            (omega arith) q.carries) in
      let few' = Sizes-length q'.packets (length buf) q'.sizes in
      let e = poll_lem n addr one first free buf s peer known open_ q in
      let e' = poll_lem n addr one second free' buf s' once (put-same addr once s.peers) open_ q' in
      let some_packet = Sizes-pos q.packets (length buf) q.sizes some_bytes in
      let long = length-append peer.sent_window q.packets in
      let longer = length-append once.sent_window q'.packets in
      let sock : (poll_write n first buf s).1 ≡ s' = ap (λ x. x.1) e in
      let packets = q.packets ++ q'.packets in
      let joined = append_assoc peer.sent_window q.packets q'.packets in
      let counted : peer.seq_nr + length q.packets + length q'.packets
          ≡ peer.seq_nr + length packets =
        omega (arith, length-append q.packets q'.packets) in
      let done =
        window_sent n taken second.datagrams addr (once.sent_window ++ q'.packets) []
          (omega arith) in
      record {
        suspended =
            rw (e, poll_write)
              (rw
                (window_suspended n taken first.datagrams addr (peer.sent_window ++ q.packets) []
                  (omega arith))
                refl);
        packets = packets;
        carries =
            Carries-append n.world.target peer.seq_nr q.packets q'.packets buf buf q.carries
              q'.carries;
        repeated = rw sock (
            rw (e', poll_write)
              (rw (done, poll_write)
                (λ i. (
                  ready (ok (length buf)),
                  register_peer addr (record peer { sent_window = joined i; seq_nr = counted i })
                      s',
                  datagrams addr (joined i),
                ))));
      }
