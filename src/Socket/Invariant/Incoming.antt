-- ===== src/Socket/Invariant/Incoming.antt =====
-- src/socket.rs: `recv_packets_from` keeps the invariant of a socket.
use rfs_utp.Common.{
  ℕ, refl, arith, List, [], ◌∷◌, ◌++◌, length, inl, inr, none, some, All, All-take, take, gives,
  fails, panics, hangs, seen, Bool-cases, ◌&&◌, not, ◌==◌,
}
use rfs_utp.Common.Target.{Target}
use rfs_utp.Packet.Words.{IsByte}
use rfs_utp.Packet.Fields
use rfs_utp.Packet.Fields.{Packet}
use rfs_utp.Packet.Extensions.{try_from}
use rfs_utp.Socket.State.{SocketAddr, UtpSocketState, Datagram, new}
use rfs_utp.Socket.Handle.{Handled, handle_packet}
use rfs_utp.Socket.OnOk.{OnOk, OnOk-bind, Option-cases}
use rfs_utp.Socket.OnOk.{Offer-cases}
use rfs_utp.Socket.Peers.{Net, UtpSocket}
use rfs_utp.Socket.Arrivals.{
  fill, entry, accept_buffer, respond, forward, finish, recv_packets_from,
}
use rfs_utp.Socket.Invariant.Defs.{IsPacket, IsDataPacket, IsValid, IsSound, u16_getters}
use rfs_utp.Socket.Invariant.Handler.{handler-IsValid}
use rfs_utp.Socket.Invariant.Outgoing.{register-IsSound, parsed-IsPacket, fill-bytes}

module _ (n : Net) where
  abbrev t : Target
  t = n.world.target

  forward-valid :
      (ps out : List Packet) → All (IsDataPacket t) ps → All (IsDataPacket t) (forward n ps out).1
  unfolding forward
  forward-valid [] out h = tt
  forward-valid (p ∷ ps) out h = elim (Offer-cases (n.channel (length out) p)) [
    | inl e ↦ rw (e, forward) (forward-valid ps (out ++ (p ∷ [])) h.1)
    | inr (inl e) ↦ rw (e, forward) h.1
    | inr (inr e) ↦ rw (e, forward) h.1
  ]

  finish-IsSound :
      (addr : SocketAddr) (peer : UtpSocketState) (sent : List Datagram) (s : UtpSocket)
      → IsSound t s
      → IsValid t addr peer
      → IsSound t (finish n addr peer sent s).socket
  unfolding finish
  finish-IsSound addr peer sent s h v =
      register-IsSound t addr _ s h
        (ground (arith, forward-valid peer.incoming_buffer [] v.buffered))

  respond-IsSound :
      (addr : SocketAddr) (r : Handled) (s : UtpSocket)
      → IsSound t s
      → IsValid t addr r.peer
      → IsSound t (respond n addr r s).socket
  unfolding respond
  respond-IsSound addr r s h v = elim (seen r.answer) [
    | gives (some rsp) e ↦
        rw (e, respond)
          (elim (Option-cases (n.world.udp_send (length r.sent) rsp addr)) [
            | inl u ↦ rw (u, respond) (finish-IsSound addr r.peer _ s h v)
            | inr (x, u) ↦ rw (u, respond) (register-IsSound t addr r.peer s h v)
          ])
    | gives none e ↦ rw (e, respond) (finish-IsSound addr r.peer r.sent s h v)
    | fails x e ↦ rw (e, respond) (finish-IsSound addr r.peer r.sent s h v)
    | panics e ↦ rw (e, respond) (finish-IsSound addr r.peer r.sent s h v)
    | hangs e ↦ rw (e, respond) (finish-IsSound addr r.peer r.sent s h v)
  ]

  -- The state that a packet meets: the peer of its address, or a new one.
  pub entry-IsValid :
      (addr : SocketAddr) (packet : Packet) (s : UtpSocket)
      → IsSound t s
      → IsPacket packet
      → IsValid t addr (entry n addr packet s)
  unfolding entry new
  entry-IsValid addr packet s h p = elim (Option-cases (s.peers addr)) [
    | inr (peer, e) ↦ rw (e, entry) (h.peers addr peer e)
    | inl e ↦
        rw (e, entry)
          (record {
            seq_small = omega arith;
            ack_small = omega arith;
            count_small = omega arith;
            last_small = omega arith;
            sender_small = (u16_getters t packet p.bytes).2;
            window_sorted = tt;
            window = tt;
            early_sorted = tt;
            early = tt;
            buffered = tt;
            address = refl;
          })
  ]

  accept_buffer-IsSound :
      (buf : List ℕ) (addr : SocketAddr) (peer : UtpSocketState) (s : UtpSocket)
      → All IsByte buf
      → IsSound t s
      → IsValid t addr peer
      → OnOk (λ o. IsSound t o.socket) (accept_buffer n buf addr peer s)
  unfolding accept_buffer
  accept_buffer-IsSound buf addr peer s b h v = elim (seen (try_from buf)) [
    | gives packet e ↦
        rw (e, accept_buffer)
          (OnOk-bind (λ r. IsValid t addr r.peer) (λ o. IsSound t o.socket)
            (handle_packet n.world s.id packet peer) _
            (handler-IsValid n.world s.id addr packet peer (parsed-IsPacket buf packet b e) v)
            (λ r v'. respond-IsSound addr r s h v'))
    | fails x e ↦ rw (e, accept_buffer) (register-IsSound t addr peer s h v)
    | panics e ↦ rw (e, accept_buffer) tt
    | hangs e ↦ rw (e, accept_buffer) tt
  ]

  -- Whatever datagram a sound socket receives, it is left sound.
  pub recv_packets_from-IsSound :
      (d : List ℕ) (addr : SocketAddr) (buf : List ℕ) (s : UtpSocket)
      → All IsByte d
      → All IsByte buf
      → IsSound t s
      → OnOk (λ r. IsSound t r.0.socket) (recv_packets_from n d addr buf s)
  unfolding recv_packets_from
  recv_packets_from-IsSound d addr buf s bd bb h =
      let front = take (length (take (length buf) d)) (fill buf d) in
      let whole = fill-bytes buf d bb bd in
      elim (seen (try_from front)) [
        | gives packet e ↦
            let p = parsed-IsPacket front packet (All-take IsByte _ (fill buf d) whole) e in
            let lost = (s.drop_packets && not (Fields.seq_nr t packet == 1)) && n.lost in
            rw (e, recv_packets_from)
              (elim (Bool-cases lost) [
                | inl l ↦ rw l h
                | inr l ↦ rw l (
                    OnOk-bind (λ o. IsSound t o.socket) (λ r. IsSound t r.0.socket)
                      (accept_buffer n (fill buf d) addr (entry n addr packet s) s) _
                      (accept_buffer-IsSound (fill buf d) addr (entry n addr packet s) s whole h
                        (entry-IsValid addr packet s h p))
                      (λ o q. q))
              ])
        | fails x e ↦ rw (e, recv_packets_from) h
        | panics e ↦ rw (e, recv_packets_from) tt
        | hangs e ↦ rw (e, recv_packets_from) tt
      ]
