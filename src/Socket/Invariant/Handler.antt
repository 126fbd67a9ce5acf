-- ===== src/Socket/Invariant/Handler.antt =====
-- src/socket.rs: `handle_packet` keeps the invariant of a peer.
use rfs_utp.Common.{
  ℕ, ◌<◌, ◌≡◌, refl, ap, ◌∙◌, arith, List, [], ◌∷◌, length, ok, ◌>>=◌, ltb, ◌==◌, Bool-cases, inl,
  inr, if◌then◌else◌, All, All-append,
}
use rfs_utp.Common.Target.{Target, add_u16, u16_mod}
use rfs_utp.Packet.Types.{PacketType, ack}
use rfs_utp.Packet.Fields
use rfs_utp.Packet.Fields.{Packet}
use rfs_utp.Packet.Sack.{set_sack}
use rfs_utp.BTreeMap.{BTreeMap}
use rfs_utp.BTreeMap.Laws.{insert-IsSorted, remove-IsSorted, remove_all-IsSorted}
use rfs_utp.Socket.State.{SocketAddr, UtpSocketState, World}
use rfs_utp.Socket.Reply.{prepare_reply}
use rfs_utp.Socket.Handle.{
  Handled, map_fst, map_snd, on_first_syn, on_syn, on_syn_acked, accept, receive, drain, on_data,
  on_state, on_fin, on_reset, on_other, handle_packet,
}
use rfs_utp.Socket.OnOk.{OnOk, OnOk-bind, OnOk-skip}
use rfs_utp.Socket.Arms.{EachArm, dispatch-arms}
use rfs_utp.Socket.Reassembly.{IsNumbered, insert-IsNumbered}
use rfs_utp.Socket.Invariant.Defs.{
  IsPacket, IsDataPacket, IsValid, remove-IsNumbered, remove_all-IsNumbered, u16_getters,
  add_u16-lt,
}
use rfs_utp.Socket.Invariant.AckHandler.{OnOk-self, on_ack-valid}

module _ (w : World) (id : ℕ) (addr : SocketAddr) where
  abbrev t : Target
  t = w.target

  -- The handler leaves a valid peer.
  abbrev Keeps : Handled → Type 0
  Keeps h = IsValid t addr h.peer

  -- What is taken out of the buffer is what was put in.
  drain-valid :
      (last : ℕ) (m : BTreeMap Packet)
      → last < u16_mod
      → IsNumbered (IsDataPacket t) t m
      → OnOk (λ r. All (IsDataPacket t) (map_snd r.0) × (r.1 < u16_mod)) (drain w id last m)
  unfolding drain
  drain-valid last [] small n = (tt, small)
  drain-valid last ((seq, p) ∷ m) small n =
      let Good =
        λ (r : List (ℕ × Packet) × ℕ). All (IsDataPacket t) (map_snd r.0) × (r.1 < u16_mod) in
      let here : seq < u16_mod = omega (arith, u16_getters t p n.0.1.packet.bytes, n.0.0) in
      OnOk-skip Good (add_u16 t last 1) _ (λ next_nr. elim (Bool-cases (seq == next_nr)) [
        | inl e ↦ rw e (
            OnOk-bind Good Good (drain w id seq m) _ (drain-valid seq m here n.1)
              (λ r h. ((n.0.1, h.0), h.1)))
        | inr e ↦ rw e (tt, small)
      ])

  accept-IsValid :
      (packet : Packet) (peer : UtpSocketState)
      → IsDataPacket t packet
      → IsValid t addr peer
      → OnOk (IsValid t addr) (accept w id packet peer)
  unfolding accept
  accept-IsValid packet peer p v =
      let seq = Fields.seq_nr t packet in
      let small = (u16_getters t packet p.packet.bytes).0 in
      OnOk-bind (λ c. c < u16_mod) (IsValid t addr) (add_u16 t peer.seq_nr 1) _
        (OnOk-self (λ c. c < u16_mod) (add_u16 t peer.seq_nr 1) (add_u16-lt t peer.seq_nr 1))
        (λ c h.
          OnOk-bind (λ r. All (IsDataPacket t) (map_snd r.0) × (r.1 < u16_mod)) (IsValid t addr)
            (drain w id seq peer.out_of_order) _ (drain-valid seq peer.out_of_order small v.early)
            (λ r d.
              let more =
                All-append (IsDataPacket t) peer.incoming_buffer (packet ∷ map_snd r.0) v.buffered
                  (p, d.0) in
              ground (
                arith,
                more,
                d,
                remove_all-IsSorted (map_fst r.0) peer.out_of_order,
                remove_all-IsNumbered (IsDataPacket t) t (map_fst r.0) peer.out_of_order,
              )))

  pub receive-IsValid :
      (packet : Packet) (peer : UtpSocketState)
      → IsDataPacket t packet
      → IsValid t addr peer
      → OnOk (λ r. IsValid t addr r.0) (receive w id packet peer)
  unfolding receive
  receive-IsValid packet peer p v =
      let seq = Fields.seq_nr t packet in
      let Good = λ (r : UtpSocketState × List ℕ). IsValid t addr r.0 in
      OnOk-skip Good (add_u16 t peer.last_acked 1) _ (λ n. elim (Bool-cases (seq == n)) [
        | inl e ↦ rw e (
            OnOk-bind (IsValid t addr) Good (accept w id packet peer) _
              (accept-IsValid packet peer p v) (λ q h. h))
        | inr e ↦ rw e (elim (Bool-cases (ltb peer.last_acked seq)) [
          | inl ahead ↦ rw ahead (
              ground (
                arith,
                insert-IsSorted seq packet peer.out_of_order,
                insert-IsNumbered (IsDataPacket t) t seq packet peer.out_of_order (refl, p),
              ))
          | inr again ↦ rw again v
        ])
      ])

  on_data-valid :
      (packet : Packet) (peer : UtpSocketState)
      → IsDataPacket t packet
      → IsValid t addr peer
      → OnOk Keeps (on_data w id packet peer)
  unfolding on_data
  on_data-valid packet peer p v =
      OnOk-bind (λ r. IsValid t addr r.0) Keeps (receive w id packet peer) _
        (receive-IsValid packet peer p v)
        (λ r h.
          OnOk-skip Keeps
            (if length r.1 == 0
              then ok (prepare_reply w id packet ack r.0.seq_nr r.0.last_acked)
              else set_sack (prepare_reply w id packet ack r.0.seq_nr r.0.last_acked) r.1)
            _ (λ rsp. h))

  on_state-valid :
      (packet : Packet) (peer : UtpSocketState)
      → IsPacket packet
      → IsValid t addr peer
      → OnOk Keeps (on_state w id packet peer)
  unfolding on_state
  on_state-valid packet peer p v =
      let n = Fields.ack_nr t packet in
      let small = (u16_getters t packet p.bytes).1 in
      let count =
        OnOk-self (λ c. c < u16_mod) (add_u16 t peer.duplicate_ack_count 1)
          (add_u16-lt t peer.duplicate_ack_count 1) in
      OnOk-bind (IsValid t addr) Keeps
        (if n == peer.last_acked
          then (add_u16 t peer.duplicate_ack_count 1 >>= λ c.
              ok (record peer { duplicate_ack_count = c }))
          else ok (record peer {
            last_acked = n;
            last_acked_timestamp = w.now;
            duplicate_ack_count = 1;
          }))
        _
        (elim (Bool-cases (n == peer.last_acked)) [
          | inl e ↦ rw e (
              OnOk-bind (λ c. c < u16_mod) (IsValid t addr) (add_u16 t peer.duplicate_ack_count 1) _
                count (λ c h. ground arith))
          | inr e ↦ rw e (ground arith)
        ])
        (λ peer' v'. ground arith)

  -- Every arm of the `match`.
  each-valid :
      (packet : Packet) (peer : UtpSocketState) (ty : PacketType)
      → Fields.get_type {E = ⊥} t packet ≡ ok ty
      → IsPacket packet
      → IsValid t addr peer
      → EachArm (OnOk Keeps) w id peer.state ty packet peer
  unfolding on_first_syn on_syn on_syn_acked on_fin on_reset on_other
  each-valid packet peer ty e p v =
      let (seq, ack_, c) = u16_getters t packet p.bytes in
      record {
        first_syn_arm = ground (arith, seq);
        syn_arm = v;
        syn_acked_arm = ground (
          arith,
          seq,
          ack_,
          remove-IsSorted (Fields.seq_nr t packet) peer.sent_window,
          remove-IsNumbered IsPacket t (Fields.seq_nr t packet) peer.sent_window,
        );
        ack_arm = on_ack-valid w id addr packet peer p v;
        data_arm = λ d. on_data-valid packet peer (record { packet = p; is_data = e ∙ ap ok d }) v;
        state_arm = λ _ _. on_state-valid packet peer p v;
        fin_arm = ground arith;
        reset_arm = ground arith;
        other_arm = v;
      }

  -- Whatever well formed packet a valid peer takes, it is left valid.
  pub handler-IsValid :
      (packet : Packet) (peer : UtpSocketState)
      → IsPacket packet
      → IsValid t addr peer
      → OnOk (λ h. IsValid t addr h.peer) (handle_packet w id packet peer)
  unfolding handle_packet
  handler-IsValid packet peer p v =
      OnOk-bind (λ ty. Fields.get_type {E = ⊥} t packet ≡ ok ty) Keeps (Fields.get_type t packet) _
        (OnOk-self (λ ty. Fields.get_type {E = ⊥} t packet ≡ ok ty) (Fields.get_type t packet)
          (λ ty e. e))
        (λ ty e.
          dispatch-arms (OnOk Keeps) w id peer.state ty packet peer
            (each-valid packet peer ty e p v))
