-- ===== src/Socket/Invariant/Answers.antt =====
-- src/socket.rs: what `recv_packets_from` answers.
use rfs_utp.Common.{
  ◌≢◌, ◌++◌, ℕ, ◌≡◌, refl, List, [], ◌∷◌, length, take, ◌==◌, Bool-cases, inl, inr, Ends, gives,
  fails, panics, hangs, seen, ◌&&◌, not, none, some,
}
use rfs_utp.Packet.Header.{header_try_from}
use rfs_utp.Packet.Fields
use rfs_utp.Packet.Fields.{Packet}
use rfs_utp.Packet.Extensions.{try_from}
use rfs_utp.Socket.State.{SocketAddr, UtpSocketState, Datagram}
use rfs_utp.Socket.Handle.{Handled, handle_packet}
use rfs_utp.Socket.OnOk.{OnOk, OnOk-skip, OnOk-bind, Option-cases}
use rfs_utp.Socket.OnOk.{Offer-cases}
use rfs_utp.Socket.Peers.{offer_full, Net, UtpSocket}
use rfs_utp.Socket.Arrivals.{
  fill, entry, forward, finish, respond, accept_buffer, recv_packets_from,
}

module _ (n : Net) (read_on : (i : ℕ) (p : Packet) → n.channel i p ≢ offer_full) where
  forward-not_full : (ps out : List Packet) → (forward n ps out).0 ≢ offer_full
  unfolding forward
  forward-not_full [] out = λ q. cc
  forward-not_full (p ∷ ps) out = elim (Offer-cases (n.channel (length out) p)) [
    | inl e ↦ rw (e, forward) (forward-not_full ps (out ++ (p ∷ [])))
    | inr (inl e) ↦ rw (e, forward) (λ q. cc)
    | inr (inr e) ↦ absurd (read_on (length out) p e)
  ]

  finish-Ends :
      (addr : SocketAddr) (peer : UtpSocketState) (sent : List Datagram) (s : UtpSocket)
      → Ends (finish n addr peer sent s).answer
  unfolding finish
  finish-Ends addr peer sent s = elim (Offer-cases (forward n peer.incoming_buffer []).0) [
    | inl e ↦ rw (e, finish) (λ q. cc, λ q. cc)
    | inr (inl e) ↦ rw (e, finish) (λ q. cc, λ q. cc)
    | inr (inr e) ↦ absurd (forward-not_full peer.incoming_buffer [] e)
  ]

  respond-Ends :
      (addr : SocketAddr) (r : Handled) (s : UtpSocket) → Ends (respond n addr r s).answer
  unfolding respond
  respond-Ends addr r s = elim (seen r.answer) [
    | gives (some rsp) e ↦
        rw (e, respond)
          (elim (Option-cases (n.world.udp_send (length r.sent) rsp addr)) [
            | inl u ↦ rw (u, respond) (finish-Ends addr r.peer _ s)
            | inr (x, u) ↦ rw (u, respond) (λ q. cc, λ q. cc)
          ])
    | gives none e ↦ rw (e, respond) (finish-Ends addr r.peer r.sent s)
    | fails x e ↦ rw (e, respond) (finish-Ends addr r.peer r.sent s)
    | panics e ↦ rw (e, respond) (finish-Ends addr r.peer r.sent s)
    | hangs e ↦ rw (e, respond) (finish-Ends addr r.peer r.sent s)
  ]

  answer-Ends :
      (buf : List ℕ) (addr : SocketAddr) (peer : UtpSocketState) (s : UtpSocket)
      → OnOk (λ o. Ends o.answer) (accept_buffer n buf addr peer s)
  unfolding accept_buffer
  answer-Ends buf addr peer s = elim (seen (try_from buf)) [
    | gives packet e ↦
        rw (e, accept_buffer)
          (OnOk-skip (λ o. Ends o.answer) (handle_packet n.world s.id packet peer) _
            (λ r. respond-Ends addr r s))
    | fails x e ↦ rw (e, accept_buffer) (λ q. cc, λ q. cc)
    | panics e ↦ rw (e, accept_buffer) tt
    | hangs e ↦ rw (e, accept_buffer) tt
  ]

  -- What `recv_packets_from` gives: an answer or an error, and the buffer with the datagram in it.
  pub recv-OnOk :
      (d : List ℕ) (addr : SocketAddr) (buf : List ℕ) (s : UtpSocket)
      → OnOk (λ q. Ends q.0.answer × (q.1 ≡ fill buf d)) (recv_packets_from n d addr buf s)
  unfolding recv_packets_from
  recv-OnOk d addr buf s =
      elim (seen (try_from (take (length (take (length buf) d)) (fill buf d)))) [
        | gives packet e ↦
            let lost =
              (s.drop_packets && not (Fields.seq_nr n.world.target packet == 1)) && n.lost in
            rw (e, recv_packets_from)
              (elim (Bool-cases lost) [
                | inl l ↦ rw l ((λ q. cc, λ q. cc), refl)
                | inr l ↦ rw l (
                    OnOk-bind (λ o. Ends o.answer) (λ q. Ends q.0.answer × (q.1 ≡ fill buf d))
                      (accept_buffer n (fill buf d) addr (entry n addr packet s) s) _
                      (answer-Ends (fill buf d) addr (entry n addr packet s) s) (λ o q. (q, refl)))
              ])
        | fails x e ↦ rw (e, recv_packets_from) ((λ q. cc, λ q. cc), refl)
        | panics e ↦ rw (e, recv_packets_from) tt
        | hangs e ↦ rw (e, recv_packets_from) tt
      ]

  -- No byte at all is no packet.
  pub empty-Ends :
      (addr : SocketAddr) (buf : List ℕ) (s : UtpSocket) → Ends (recv_packets_from n [] addr buf s)
  unfolding recv_packets_from try_from header_try_from
  empty-Ends addr [] s = (λ q. cc, λ q. cc)
  empty-Ends addr (x ∷ buf) s = (λ q. cc, λ q. cc)
