-- ===== src/Socket/Over.antt =====
-- src/socket.rs: a connection that is closed or reset.
use rfs_utp.Common.{ℕ, ◌≡◌, refl, ap, ◌∙◌, arith, List, [], ◌∷◌, ok, ◌>>=◌, inl, inr, ◌⊎◌, All}
use rfs_utp.Common.Target.{Target}
use rfs_utp.Packet.Types.{PacketType, data_, fin, state, reset, syn, ack}
use rfs_utp.Packet.Fields
use rfs_utp.Packet.Fields.{Packet}
use rfs_utp.Socket.State.{
  SocketState, new_, connected, syn_sent, fin_sent, reset_received, closed, UtpSocketState, World,
}
use rfs_utp.Socket.Handle.{Handled, on_syn, on_reset, on_other, dispatch, handle_packet}
use rfs_utp.Socket.Delivery.{handle_all}

-- A connection that is over.
abbrev pub IsOver : UtpSocketState → Type 0
IsOver peer = (peer.state ≡ closed) ⊎ (peer.state ≡ reset_received)

-- A packet whose type is one of the six.
abbrev pub HasType : Target → Packet → Type 0
HasType t p = (ty : PacketType) × (Fields.get_type {E = ⊥} t p ≡ ok ty)

-- The peer at the end, with nothing but its state touched.
pub record Unmoved (w : World) (id : ℕ) (ps : List Packet) (peer : UtpSocketState) : Type 0 where
  pub last_state : SocketState
  pub result : handle_all w id ps peer ≡ ok (record peer { state = last_state })
  pub over : (last_state ≡ closed) ⊎ (last_state ≡ reset_received)

module _ (w : World) (id : ℕ) where
  over-dispatch :
      (s : SocketState) (ty : PacketType) (packet : Packet) (peer : UtpSocketState)
      → (s ≡ closed) ⊎ (s ≡ reset_received)
      → (h : Handled) × (dispatch w id s ty packet peer ≡ ok h)
        × ((h.peer ≡ peer) ⊎ (h.peer ≡ record peer { state = reset_received }))
  unfolding dispatch on_syn on_reset on_other
  over-dispatch new_ ty packet peer o = ground arith
  over-dispatch connected ty packet peer o = ground arith
  over-dispatch syn_sent ty packet peer o = ground arith
  over-dispatch fin_sent ty packet peer o = ground arith
  over-dispatch reset_received syn packet peer o = (_, refl, inl refl)
  over-dispatch reset_received reset packet peer o = (_, refl, inr refl)
  over-dispatch reset_received data_ packet peer o = (_, refl, inl refl)
  over-dispatch reset_received fin packet peer o = (_, refl, inl refl)
  over-dispatch reset_received state packet peer o = (_, refl, inl refl)
  over-dispatch reset_received ack packet peer o = (_, refl, inl refl)
  over-dispatch closed syn packet peer o = (_, refl, inl refl)
  over-dispatch closed reset packet peer o = (_, refl, inr refl)
  over-dispatch closed data_ packet peer o = (_, refl, inl refl)
  over-dispatch closed fin packet peer o = (_, refl, inl refl)
  over-dispatch closed state packet peer o = (_, refl, inl refl)
  over-dispatch closed ack packet peer o = (_, refl, inl refl)

  -- A connection that is closed or reset stays over: any packets with a valid type, handled one
  -- after the other, never panic and change nothing of the peer but its state, which stays closed
  -- or reset.
  pub over-Unmoved :
      (ps : List Packet) (peer : UtpSocketState)
      → All (HasType w.target) ps
      → IsOver peer
      → Unmoved w id ps peer
  unfolding handle_all handle_packet
  over-Unmoved [] peer d o = record { last_state = peer.state; result = refl; over = o }
  over-Unmoved (p ∷ ps) peer d o =
      let (ty, e) = d.0 in
      let (h, r, c) = over-dispatch peer.state ty p peer o in
      let q : handle_packet w id p peer ≡ ok h =
        ap (λ m. m >>= λ x. dispatch w id peer.state x p peer) e ∙ r in
      elim c [
        | inl same ↦
            let u = over-Unmoved ps peer d.1 o in
            record { last_state = u.last_state; result = rw q (rw same u.result); over = u.over }
        | inr moved ↦
            let u = over-Unmoved ps (record peer { state = reset_received }) d.1 (inr refl) in
            record { last_state = u.last_state; result = rw q (rw moved u.result); over = u.over }
      ]
