-- ===== src/Socket/Invariant/Outgoing.antt =====
-- src/socket.rs: `connect` and `send_packets` keep the invariant of a socket.
use rfs_utp.Common.{
  ℕ, ◌<◌, ◌≡◌, refl, sym, arith, List, [], ◌∷◌, length, ok, inl, inr, Option, none, some, All,
  All-append, All-take, All-drop, take, drop, Bool-cases, zero, suc,
}
use mathlib.Core.Path.{subst}
use rfs_utp.Common.Target.{Target, u16_mod}
use rfs_utp.Packet.Words.{IsByte}
use rfs_utp.Packet.Fields
use rfs_utp.Packet.Fields.{Packet}
use rfs_utp.Packet.Extensions.{try_from}
use rfs_utp.Packet.Parse.{IsWellFormed, try_from_accepts}
use rfs_utp.BTreeMap.{insert}
use rfs_utp.BTreeMap.Laws.{insert-IsSorted}
use rfs_utp.Socket.State.{SocketAddr, UtpSocketState, new, syn_sent}
use rfs_utp.Socket.OnOk.{Option-cases}
use rfs_utp.Socket.Reassembly.{insert-IsNumbered}
use rfs_utp.Socket.Peers.{
  Net, UtpSocket, register_peer, syn_packet, connect, queue_chunks, chunks, data_packet,
  choose_peer, send_to_peer, send_packets, is_closed,
}
use rfs_utp.Socket.PeerMap.{put-found}
use rfs_utp.Socket.Arrivals.{fill}
use rfs_utp.Socket.DataPacket.{packet-IsByte, packet-IsWellFormed}
use rfs_utp.Socket.SynPacket.{syn_packet-IsByte, syn_packet-IsWellFormed}
use rfs_utp.Socket.Invariant.Defs.{IsPacket, IsValid, IsSound}

pub register-IsSound :
    (t : Target) (addr : SocketAddr) (peer : UtpSocketState) (s : UtpSocket)
    → IsSound t s
    → IsValid t addr peer
    → IsSound t (register_peer addr peer s)
unfolding register_peer
register-IsSound t addr peer s h v = record {
  peers = λ a p e. elim (put-found addr peer s.peers a p e) [
    | inl (same, q) ↦ subst (λ x. IsValid t x p) (sym same) (subst (IsValid t addr) q v)
    | inr old ↦ h.peers a p old
  ];
  id_small = h.id_small;
}

-- What the parser accepts is a packet.
pub parsed-IsPacket :
    (buf : List ℕ) (p : Packet) → All IsByte buf → try_from buf ≡ ok p → IsPacket p
parsed-IsPacket buf p b e =
    let (same, (xs, pl, w)) = (try_from_accepts buf b).1 p e in
    record {
      bytes = subst (All IsByte) (sym same) b;
      xs = xs;
      pl = pl;
      well_formed = subst (λ q. IsWellFormed q xs pl) (sym same) w;
    }

pub fill-bytes : (buf d : List ℕ) → All IsByte buf → All IsByte d → All IsByte (fill buf d)
unfolding fill
fill-bytes buf d bb bd =
    All-append IsByte (take (length buf) d) _ (All-take IsByte (length buf) d bd)
      (All-drop IsByte (length (take (length buf) d)) buf bb)

module _ (n : Net) where
  abbrev t : Target
  t = n.world.target

  caller-IsValid :
      (id : ℕ) (addr : SocketAddr) (s : UtpSocket)
      → id < u16_mod
      → s.id < u16_mod
      → IsValid t addr (record (new id) {
        state = syn_sent;
        connected_to = some addr;
        sent_window =
            insert
              (Fields.seq_nr t (syn_packet n s.id (new id).seq_nr))
              (syn_packet n s.id (new id).seq_nr)
              (new id).sent_window;
      })
  unfolding new insert
  caller-IsValid id addr s small small' =
      let packet : IsPacket (syn_packet n s.id 1) = record {
        bytes = syn_packet-IsByte n s.id small';
        xs = [];
        pl = [];
        well_formed = syn_packet-IsWellFormed n s.id small';
      } in
      record {
        seq_small = omega arith;
        ack_small = omega arith;
        count_small = omega arith;
        last_small = omega arith;
        sender_small = small;
        window_sorted = (tt, tt);
        window = ((refl, packet), tt);
        early_sorted = tt;
        early = tt;
        buffered = tt;
        address = refl;
      }

  pub connect-IsSound :
      (id : ℕ) (addr : SocketAddr) (s : UtpSocket)
      → id < u16_mod
      → IsSound t s
      → IsSound t (connect n id addr s).socket
  unfolding connect
  connect-IsSound id addr s small h = elim (Option-cases (s.peers addr)) [
    | inr (p, e) ↦ rw (e, connect) h
    | inl e ↦
        let sound = register-IsSound t addr _ s h (caller-IsValid id addr s small h.id_small) in
        rw (e, connect)
          (elim (Option-cases (n.udp_connect addr)) [
            | inr (x, u) ↦ rw (u, connect) sound
            | inl u ↦
                rw (u, connect)
                  (elim (Option-cases (n.udp_send_connected (syn_packet n s.id (new id).seq_nr))) [
                    | inr (x, u') ↦ rw (u', connect) sound
                    | inl u' ↦ rw (u', connect) sound
                  ])
          ])
  ]

  chunks-bytes : (f : ℕ) (buf : List ℕ) → All IsByte buf → All (All IsByte) (chunks f buf)
  unfolding chunks
  chunks-bytes f [] b = tt
  chunks-bytes zero (x ∷ buf) b = tt
  chunks-bytes (suc f) (x ∷ buf) b = (
    All-take IsByte 6 (x ∷ buf) b,
    chunks-bytes f (drop 6 (x ∷ buf)) (All-drop IsByte 6 (x ∷ buf) b),
  )

  queue-IsValid :
      (id : ℕ) (addr : SocketAddr) (cs : List (List ℕ)) (peer : UtpSocketState)
      → id < u16_mod
      → All (All IsByte) cs
      → IsValid t addr peer
      → IsValid t addr (queue_chunks n id cs peer)
  unfolding queue_chunks
  queue-IsValid id addr [] peer small b v = v
  queue-IsValid id addr (c ∷ cs) peer small b v =
      let p = data_packet n id c peer in
      let k = Fields.seq_nr t p in
      let packet : IsPacket p = record {
        bytes = packet-IsByte n id c peer small v.seq_small v.ack_small b.0;
        xs = [];
        pl = c;
        well_formed = packet-IsWellFormed n id c peer small v.seq_small v.ack_small b.0;
      } in
      queue-IsValid id addr cs _ small b.1 (
        ground (
          arith,
          insert-IsSorted k p peer.sent_window,
          insert-IsNumbered IsPacket t k p peer.sent_window (refl, packet),
        ))

  choose-known :
      (addr : Option SocketAddr) (s : UtpSocket) (a : SocketAddr) (peer : UtpSocketState)
      → choose_peer n addr s ≡ some (a, peer)
      → s.peers a ≡ some peer
  unfolding choose_peer
  choose-known (some b) s a peer e = ground arith
  choose-known none s a peer e = ground arith

  pub send_packets-IsSound :
      (buf : List ℕ) (addr : Option SocketAddr) (s : UtpSocket)
      → All IsByte buf
      → IsSound t s
      → IsSound t (send_packets n buf addr s).socket
  unfolding send_packets send_to_peer
  send_packets-IsSound buf addr s b h = elim (Option-cases (choose_peer n addr s)) [
    | inl e ↦ rw (e, send_packets) h
    | inr ((a, peer), e) ↦
        rw (e, send_packets)
          (elim (Bool-cases (is_closed peer.state)) [
            | inl over ↦ rw over h
            | inr open_ ↦ rw open_ (
                register-IsSound t a _ s h (
                  queue-IsValid s.id a (chunks (length buf) buf) peer h.id_small
                    (chunks-bytes (length buf) buf b)
                    (h.peers a peer (choose-known addr s a peer e))))
          ])
  ]
