-- ===== src/Socket/Invariant/Safety.antt =====
-- src/socket.rs: where overflow is not checked no datagram makes a socket panic or loop for ever,
-- but for a State packet.
use rfs_utp.Common.{
  ℕ, ◌%◌, ◌^◌, ◌<◌, ◌≡◌, ◌≢◌, refl, sym, ap, ◌∙◌, List, [], ◌∷◌, length, take, ok, ltb, ◌==◌, false,
  Bool-cases, inl, inr, All, Ends, >>=-Ends, gives, fails, panics, hangs, seen, ◌&&◌, not, All-take,
}
use rfs_utp.Common.Target.{Target, add_u16, u16_mod}
use rfs_utp.Packet.Types.{state}
use rfs_utp.Packet.Words.{IsByte}
use rfs_utp.Packet.Fields
use rfs_utp.Packet.Fields.{Packet}
use rfs_utp.Packet.Extensions.{try_from}
use rfs_utp.Packet.Parse.{try_from_accepts}
use rfs_utp.BTreeMap.{BTreeMap}
use rfs_utp.Socket.State.{SocketAddr, UtpSocketState, World}
use rfs_utp.Socket.Handle.{
  drain, accept, receive, on_data, on_first_syn, on_syn, on_syn_acked, on_fin, on_reset, on_other,
  handle_packet,
}
use rfs_utp.Socket.OnOk.{OnOk, OnOk-eq, OnOk-skip}
use rfs_utp.Socket.Arms.{dispatch-arms}
use rfs_utp.Socket.SackBits.{build_selective_ack_bits}
use rfs_utp.Socket.Delivery.{reply-sack}
use rfs_utp.Socket.Peers.{Net, UtpSocket}
use rfs_utp.Socket.Arrivals.{fill, entry, accept_buffer, recv_packets_from}
use rfs_utp.Socket.Invariant.Incoming.{entry-IsValid}
use rfs_utp.Socket.Invariant.Outgoing.{parsed-IsPacket, fill-bytes}
use rfs_utp.Socket.Invariant.Reach.{Reach, Reach-IsSound}
use rfs_utp.Socket.Invariant.AckSafety.{get_type-Ends, add-Ends, on_ack-Ends}
use rfs_utp.Socket.Invariant.Defs.{IsPacket, IsDataPacket, IsValid}
use rfs_utp.Socket.Invariant.Handler.{receive-IsValid}

module _ (w : World) (id : ℕ) (unchecked : w.target.overflow_checks ≡ false) where
  abbrev t : Target
  t = w.target

  drain-Ends : (last : ℕ) (m : BTreeMap Packet) → Ends (drain w id last m)
  unfolding drain
  drain-Ends last [] = (λ e. cc, λ e. cc)
  drain-Ends last ((seq, p) ∷ m) =
      >>=-Ends (add_u16 t last 1) _ (add-Ends w id unchecked last 1) (λ next _.
        elim (Bool-cases (seq == next)) [
          | inl e ↦
              rw e (>>=-Ends (drain w id seq m) _ (drain-Ends seq m) (λ r _. (λ x. cc, λ x. cc)))
          | inr e ↦ rw e (λ x. cc, λ x. cc)
        ])

  accept-Ends : (packet : Packet) (peer : UtpSocketState) → Ends (accept w id packet peer)
  unfolding accept
  accept-Ends packet peer =
      >>=-Ends (add_u16 t peer.seq_nr 1) _ (add-Ends w id unchecked peer.seq_nr 1) (λ c _.
        >>=-Ends (drain w id (Fields.seq_nr t packet) peer.out_of_order) _
          (drain-Ends (Fields.seq_nr t packet) peer.out_of_order) (λ r _. (λ x. cc, λ x. cc)))

  receive-Ends : (packet : Packet) (peer : UtpSocketState) → Ends (receive w id packet peer)
  unfolding receive
  receive-Ends packet peer =
      let seq = Fields.seq_nr t packet in
      >>=-Ends (add_u16 t peer.last_acked 1) _ (add-Ends w id unchecked peer.last_acked 1) (λ n _.
        elim (Bool-cases (seq == n)) [
          | inl e ↦ rw e (
              >>=-Ends (accept w id packet peer) _ (accept-Ends packet peer)
                (λ q _. (λ x. cc, λ x. cc)))
          | inr e ↦ rw e (elim (Bool-cases (ltb peer.last_acked seq)) [
            | inl ahead ↦ rw ahead (λ x. cc, λ x. cc)
            | inr again ↦ rw again (λ x. cc, λ x. cc)
          ])
        ])

  -- The selective ACK of an answer is padded.
  receive-padded :
      (packet : Packet) (peer : UtpSocketState)
      → OnOk (λ r. length r.1 % 4 ≡ 0) (receive w id packet peer)
  unfolding receive
  receive-padded packet peer =
      let seq = Fields.seq_nr t packet in
      let Good = λ (r : UtpSocketState × List ℕ). length r.1 % 4 ≡ 0 in
      OnOk-skip Good (add_u16 t peer.last_acked 1) _ (λ n. elim (Bool-cases (seq == n)) [
        | inl e ↦ rw e (OnOk-skip Good (accept w id packet peer) _ (λ q. refl))
        | inr e ↦ rw e (elim (Bool-cases (ltb peer.last_acked seq)) [
          | inl ahead ↦ rw ahead (build_selective_ack_bits _).1
          | inr again ↦ rw again refl
        ])
      ])

  module _ (now_small : w.now < 2 ^ 32) (id_small : id < u16_mod) where
    on_data-Ends :
        (addr : SocketAddr) (packet : Packet) (peer : UtpSocketState)
        → IsDataPacket t packet
        → IsValid t addr peer
        → Ends (on_data w id packet peer)
    unfolding on_data
    on_data-Ends addr packet peer p v =
        >>=-Ends (receive w id packet peer) _ (receive-Ends packet peer) (λ r e.
          let v' =
            OnOk-eq (λ x. IsValid t addr x.0) (receive w id packet peer) r
              (receive-IsValid w id addr packet peer p v) e in
          let m =
            OnOk-eq (λ x. length x.1 % 4 ≡ 0) (receive w id packet peer) r
              (receive-padded packet peer) e in
          let (rsp, q) =
            reply-sack w id now_small id_small packet r.0.seq_nr r.0.last_acked r.1 v'.seq_small
              v'.last_small m in
          rw q (λ x. cc, λ x. cc))

    handler-Ends :
        (addr : SocketAddr) (packet : Packet) (peer : UtpSocketState)
        → IsPacket packet
        → IsValid t addr peer
        → Fields.get_type {E = ⊥} t packet ≢ ok state
        → Ends (handle_packet w id packet peer)
    unfolding handle_packet on_first_syn on_syn on_syn_acked on_fin on_reset on_other
    handler-Ends addr packet peer p v other =
        >>=-Ends (Fields.get_type t packet) _ (get_type-Ends t packet p.xs p.pl p.well_formed)
          (λ ty e. dispatch-arms Ends w id peer.state ty packet peer (record {
            first_syn_arm = (λ x. cc, λ x. cc);
            syn_arm = (λ x. cc, λ x. cc);
            syn_acked_arm = (λ x. cc, λ x. cc);
            ack_arm = on_ack-Ends w id unchecked addr packet peer p v;
            data_arm =
                λ d. on_data-Ends addr packet peer (record { packet = p; is_data = e ∙ ap ok d }) v;
            state_arm = λ _ s. absurd (other (e ∙ ap ok s));
            fin_arm = (λ x. cc, λ x. cc);
            reset_arm = (λ x. cc, λ x. cc);
            other_arm = (λ x. cc, λ x. cc);
          }))

-- No datagram makes a socket panic or loop for ever, in a build without overflow checks: from a
-- socket that is reached from `bind` by its operations, with the clock in its range, whatever bytes
-- arrive from whatever address, into a buffer that holds whatever bytes, `recv_packets_from` comes
-- to an outcome, unless the buffer then holds a State packet. The outcome may be that it waits for
-- a channel that stays full.
pub recv_packets_from-Ends :
    (n : Net) (d : List ℕ) (addr : SocketAddr) (buf : List ℕ) (s : UtpSocket)
    → Reach n.world.target s
    → n.world.target.overflow_checks ≡ false
    → n.world.now < 2 ^ 32
    → All IsByte d
    → All IsByte buf
    → Fields.get_type {E = ⊥} n.world.target (fill buf d) ≢ ok state
    → Ends (recv_packets_from n d addr buf s)
unfolding recv_packets_from accept_buffer
recv_packets_from-Ends n d addr buf s r unchecked now_small bd bb other =
    let t = n.world.target in
    let h = Reach-IsSound r in
    let front = take (length (take (length buf) d)) (fill buf d) in
    let whole = fill-bytes buf d bb bd in
    let front_bytes = All-take IsByte (length (take (length buf) d)) (fill buf d) whole in
    elim (seen (try_from front)) [
      | fails x e ↦ rw (e, recv_packets_from) (λ q. cc, λ q. cc)
      | panics e ↦ absurd ((try_from_accepts front front_bytes).2.0 e)
      | hangs e ↦ absurd ((try_from_accepts front front_bytes).2.1 e)
      | gives packet e ↦
          let p = parsed-IsPacket front packet front_bytes e in
          let peer = entry n addr packet s in
          let v = entry-IsValid n addr packet s h p in
          let lost = (s.drop_packets && not (Fields.seq_nr t packet == 1)) && n.lost in
          rw (e, recv_packets_from)
            (elim (Bool-cases lost) [
              | inl l ↦ rw l (λ q. cc, λ q. cc)
              | inr l ↦ rw l (
                  >>=-Ends (accept_buffer n (fill buf d) addr peer s) _
                    (elim (seen (try_from (fill buf d))) [
                      | fails x e' ↦ rw (e', accept_buffer) (λ q. cc, λ q. cc)
                      | panics e' ↦ absurd ((try_from_accepts (fill buf d) whole).2.0 e')
                      | hangs e' ↦ absurd ((try_from_accepts (fill buf d) whole).2.1 e')
                      | gives packet' e' ↦
                          let same = ((try_from_accepts (fill buf d) whole).1 packet' e').0 in
                          rw (e', accept_buffer)
                            (>>=-Ends (handle_packet n.world s.id packet' peer) _
                              (handler-Ends n.world s.id unchecked now_small h.id_small addr packet'
                                peer (parsed-IsPacket (fill buf d) packet' whole e') v
                                (λ x. other (ap (Fields.get_type {E = ⊥} t) (sym same) ∙ x)))
                              (λ o _. (λ q. cc, λ q. cc)))
                    ])
                    (λ o _. (λ q. cc, λ q. cc)))
            ])
    ]
