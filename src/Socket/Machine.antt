-- ===== src/Socket/Machine.antt =====
-- src/socket.rs: the state of a peer before and after `handle_packet`.
use rfs_utp.Common.{
  length, ℕ, ◌≡◌, refl, sym, ap, ◌∙◌, arith, List, [], ◌∷◌, ok, ◌>>=◌, ◌==◌, if◌then◌else◌, Option,
  Bool-cases, inl, inr,
}
use mathlib.Core.Path.{subst}
use rfs_utp.Common.Target.{add_u16}
use rfs_utp.Packet.Types.{PacketType, data_, fin, state, reset, syn, ack}
use rfs_utp.Packet.Fields
use rfs_utp.Packet.Fields.{Packet}
use rfs_utp.Packet.Sack.{set_sack}
use rfs_utp.Packet.Extensions
use rfs_utp.Packet.Extensions.{extensions}
use rfs_utp.BTreeMap.{get}
use rfs_utp.Socket.State.{
  SocketState, new_, connected, syn_sent, fin_sent, reset_received, closed, UtpSocketState, World,
  Datagram,
}
use rfs_utp.Socket.Reply.{prepare_reply}
use rfs_utp.Socket.Acks.{get_lost_seq_nr, split_extensions}
use rfs_utp.Socket.OnOk.{OnOk, OnOk-bind, OnOk-skip, OnOk-eq, Option-cases}
use rfs_utp.Socket.Handle.{
  Handled, note_ack, fast_retransmit, resend, on_first_syn, on_syn, on_syn_acked, on_ack, accept,
  receive, drain, on_data, on_state, on_fin, on_reset, on_other, dispatch, handle_packet,
}

-- The diagram of the connection.
abbrev pub next_state : SocketState → PacketType → SocketState
next_state s reset = reset_received
next_state new_ syn = connected
next_state syn_sent state = connected
next_state connected fin = closed
next_state fin_sent fin = closed
next_state s ty = s

module _ (w : World) (id : ℕ) where
  -- The handler leaves the peer in the state.
  abbrev In : SocketState → Handled → Type 0
  In s h = h.peer.state ≡ s

  note_ack-state :
      (n : ℕ) (peer : UtpSocketState) → OnOk (λ p. p.state ≡ peer.state) (note_ack w id n peer)
  unfolding note_ack add_u16
  note_ack-state n peer = ground arith

  resend-state :
      (lost : List ℕ) (r : Option Packet) (peer : UtpSocketState) (sent : List Datagram)
      → OnOk (In peer.state) (resend w id lost r peer sent)
  unfolding resend
  resend-state [] r peer sent = refl
  resend-state (k ∷ lost) r peer sent = elim (Option-cases (get k peer.sent_window)) [
    | inl n ↦ rw (n, OnOk) (resend-state lost r peer sent)
    | inr (p, n) ↦
        rw (n, OnOk)
          (elim (Option-cases peer.connected_to) [
            | inl c ↦ rw (c, OnOk) tt
            | inr (addr, c) ↦
                rw (c, OnOk)
                  (elim (Option-cases (w.udp_send (length sent) p addr)) [
                    | inl u ↦ rw (u, OnOk) (resend-state lost r peer _)
                    | inr (x, u) ↦ rw (u, OnOk) refl
                  ])
          ])
  ]

  get_lost-state :
      (packet : Packet) (peer : UtpSocketState)
      → OnOk (λ q. q.1.state ≡ peer.state) (get_lost_seq_nr w.target packet peer)
  unfolding get_lost_seq_nr
  get_lost-state packet peer =
      OnOk-skip (λ q. q.1.state ≡ peer.state)
        (Extensions.collect (length packet) (extensions packet)) _
        (λ xs.
          OnOk-skip (λ q. q.1.state ≡ peer.state)
            (split_extensions w.target (Fields.ack_nr w.target packet) peer.sent_window xs
              (record { acked = []; lost = [] }))
            _ (λ s. refl))

  on_ack-state :
      (packet : Packet) (peer : UtpSocketState) → OnOk (In peer.state) (on_ack w id packet peer)
  unfolding on_ack
  on_ack-state packet peer =
      OnOk-bind (λ p. p.state ≡ peer.state) (In peer.state)
        (note_ack w id (Fields.ack_nr w.target packet) peer) _ (note_ack-state _ peer)
        (λ p e.
          OnOk-skip (In peer.state) (fast_retransmit w id (Fields.ack_nr w.target packet) p) _ (λ r.
            OnOk-bind (λ q. q.1.state ≡ peer.state) (In peer.state)
              (get_lost_seq_nr w.target packet p) _
              (subst (λ s. OnOk (λ q. q.1.state ≡ s) (get_lost_seq_nr w.target packet p)) e
                (get_lost-state packet p))
              (λ q e'.
                subst (λ s. OnOk (In s) (resend w id q.0 r q.1 [])) e'
                  (resend-state q.0 r q.1 []))))

  accept-state :
      (packet : Packet) (peer : UtpSocketState)
      → OnOk (λ p. p.state ≡ peer.state) (accept w id packet peer)
  unfolding accept
  accept-state packet peer =
      OnOk-skip (λ p. p.state ≡ peer.state) (add_u16 w.target peer.seq_nr 1) _
        (λ m.
          OnOk-skip (λ p. p.state ≡ peer.state)
            (drain w id (Fields.seq_nr w.target packet) peer.out_of_order) _ (λ d. refl))

  receive-state :
      (packet : Packet) (peer : UtpSocketState)
      → OnOk (λ r. r.0.state ≡ peer.state) (receive w id packet peer)
  unfolding receive
  receive-state packet peer =
      OnOk-skip (λ r. r.0.state ≡ peer.state) (add_u16 w.target peer.last_acked 1) _
        (λ n. elim (Bool-cases (Fields.seq_nr w.target packet == n)) [
          | inl e ↦ rw e (
              OnOk-bind (λ p. p.state ≡ peer.state) (λ r. r.0.state ≡ peer.state)
                (accept w id packet peer) _ (accept-state packet peer) (λ p q. q))
          | inr e ↦ rw e (ground arith)
        ])

  on_data-state :
      (packet : Packet) (peer : UtpSocketState) → OnOk (In peer.state) (on_data w id packet peer)
  unfolding on_data
  on_data-state packet peer =
      OnOk-bind (λ r. r.0.state ≡ peer.state) (In peer.state) (receive w id packet peer) _
        (receive-state packet peer)
        (λ r e.
          OnOk-skip (In peer.state)
            (if length r.1 == 0
              then ok (prepare_reply w id packet ack r.0.seq_nr r.0.last_acked)
              else set_sack (prepare_reply w id packet ack r.0.seq_nr r.0.last_acked) r.1)
            _ (λ rsp. e))

  on_state-state :
      (packet : Packet) (peer : UtpSocketState) → OnOk (In peer.state) (on_state w id packet peer)
  unfolding on_state
  on_state-state packet peer = ground arith

  -- Every branch.
  dispatch-state :
      (s : SocketState) (ty : PacketType) (packet : Packet) (peer : UtpSocketState)
      → peer.state ≡ s
      → OnOk (In (next_state s ty)) (dispatch w id s ty packet peer)
  unfolding dispatch on_first_syn on_syn on_syn_acked on_fin on_reset on_other
  dispatch-state new_ data_ packet peer e = e
  dispatch-state new_ fin packet peer e = e
  dispatch-state new_ state packet peer e = e
  dispatch-state new_ reset packet peer e = refl
  dispatch-state new_ syn packet peer e = refl
  dispatch-state new_ ack packet peer e = e
  dispatch-state connected data_ packet peer e =
      subst (λ x. OnOk (In x) (on_data w id packet peer)) e (on_data-state packet peer)
  dispatch-state connected fin packet peer e = refl
  dispatch-state connected state packet peer e =
      subst (λ x. OnOk (In x) (on_state w id packet peer)) e (on_state-state packet peer)
  dispatch-state connected reset packet peer e = refl
  dispatch-state connected syn packet peer e = e
  dispatch-state connected ack packet peer e =
      subst (λ x. OnOk (In x) (on_ack w id packet peer)) e (on_ack-state packet peer)
  dispatch-state syn_sent data_ packet peer e = e
  dispatch-state syn_sent fin packet peer e = e
  dispatch-state syn_sent state packet peer e = refl
  dispatch-state syn_sent reset packet peer e = refl
  dispatch-state syn_sent syn packet peer e = e
  dispatch-state syn_sent ack packet peer e = e
  dispatch-state fin_sent data_ packet peer e =
      subst (λ x. OnOk (In x) (on_data w id packet peer)) e (on_data-state packet peer)
  dispatch-state fin_sent fin packet peer e = refl
  dispatch-state fin_sent state packet peer e = e
  dispatch-state fin_sent reset packet peer e = refl
  dispatch-state fin_sent syn packet peer e = e
  dispatch-state fin_sent ack packet peer e =
      subst (λ x. OnOk (In x) (on_ack w id packet peer)) e (on_ack-state packet peer)
  dispatch-state reset_received data_ packet peer e = e
  dispatch-state reset_received fin packet peer e = e
  dispatch-state reset_received state packet peer e = e
  dispatch-state reset_received reset packet peer e = refl
  dispatch-state reset_received syn packet peer e = e
  dispatch-state reset_received ack packet peer e = e
  dispatch-state closed data_ packet peer e = e
  dispatch-state closed fin packet peer e = e
  dispatch-state closed state packet peer e = e
  dispatch-state closed reset packet peer e = refl
  dispatch-state closed syn packet peer e = e
  dispatch-state closed ack packet peer e = e

  -- Whatever packet a peer takes, of whatever type, where the handler gives an answer or an error
  -- the peer is left in the state that the diagram of the connection leads to by that type.
  pub handle_packet-state :
      (packet : Packet) (peer : UtpSocketState) (ty : PacketType) (h : Handled)
      → Fields.get_type {E = ⊥} w.target packet ≡ ok ty
      → handle_packet w id packet peer ≡ ok h
      → h.peer.state ≡ next_state peer.state ty
  unfolding handle_packet
  handle_packet-state packet peer ty h e r =
      OnOk-eq (In (next_state peer.state ty)) (dispatch w id peer.state ty packet peer) h
        (dispatch-state peer.state ty packet peer refl)
        (ap (λ m. m >>= λ x. dispatch w id peer.state x packet peer) (sym e) ∙ r)
