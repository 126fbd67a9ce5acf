-- ===== src/Socket/Invariant/AckHandler.antt =====
-- src/socket.rs: the arm of an Ack keeps the invariant of a peer.
use rfs_utp.Common.{
  ℕ, ◌<◌, ◌≡◌, refl, arith, List, [], ◌∷◌, length, ok, err, panic, hang, ◌==◌, Bool-cases, inl, inr,
  Option,
}
use rfs_utp.Common.Target.{Target, add_u16, u16_mod}
use rfs_utp.Packet.Fields
use rfs_utp.Packet.Fields.{Packet}
use rfs_utp.Packet.Extensions
use rfs_utp.Packet.Extensions.{extensions}
use rfs_utp.BTreeMap.{get}
use rfs_utp.BTreeMap.Laws.{remove-IsSorted, remove_all-IsSorted}
use rfs_utp.Socket.State.{SocketAddr, UtpSocketState, World, Datagram}
use rfs_utp.Socket.Acks.{get_lost_seq_nr, split_extensions}
use rfs_utp.Socket.Handle.{Handled, Run, note_ack, fast_retransmit, resend, on_ack}
use rfs_utp.Socket.OnOk.{OnOk, OnOk-bind, OnOk-skip, Option-cases}
use rfs_utp.Socket.Invariant.Defs.{
  IsPacket, IsValid, remove-IsNumbered, remove_all-IsNumbered, u16_getters, add_u16-lt,
}

-- A run that gives a value has given it as that value.
pub OnOk-self : {A : Type 0} (P : A → Type 0) (m : Run A) → ((a : A) → m ≡ ok a → P a) → OnOk P m
OnOk-self P (ok a) k = k a refl
OnOk-self P (err e) k = tt
OnOk-self P panic k = tt
OnOk-self P hang k = tt

module _ (w : World) (id : ℕ) (addr : SocketAddr) where
  abbrev t : Target
  t = w.target

  -- The handler leaves a valid peer.
  abbrev Keeps : Handled → Type 0
  Keeps h = IsValid t addr h.peer

  pub note_ack-IsValid :
      (n : ℕ) (peer : UtpSocketState)
      → n < u16_mod
      → IsValid t addr peer
      → OnOk (IsValid t addr) (note_ack w id n peer)
  unfolding note_ack
  note_ack-IsValid n peer small v = elim (Bool-cases (n == peer.last_acked)) [
    | inl e ↦ rw e (
        OnOk-bind (λ c. c < u16_mod) (IsValid t addr) (add_u16 t peer.duplicate_ack_count 1) _
          (OnOk-self (λ c. c < u16_mod) (add_u16 t peer.duplicate_ack_count 1)
            (add_u16-lt t peer.duplicate_ack_count 1))
          (λ c h. ground arith))
    | inr e ↦ rw e (
        OnOk-skip (IsValid t addr) (add_u16 t peer.last_acked 1) _ (λ c.
          elim (Bool-cases (n == c)) [
            | inl e' ↦ rw e' (
                ground (
                  arith,
                  remove-IsSorted n peer.sent_window,
                  remove-IsNumbered IsPacket t n peer.sent_window,
                ))
            | inr e' ↦ rw e' v
          ]))
  ]

  resend-valid :
      (lost : List ℕ) (r : Option Packet) (peer : UtpSocketState) (sent : List Datagram)
      → IsValid t addr peer
      → OnOk Keeps (resend w id lost r peer sent)
  unfolding resend
  resend-valid [] r peer sent v = v
  resend-valid (k ∷ lost) r peer sent v = elim (Option-cases (get k peer.sent_window)) [
    | inl n ↦ rw (n, OnOk) (resend-valid lost r peer sent v)
    | inr (p, n) ↦
        rw (n, OnOk)
          (rw (v.address, OnOk)
            (elim (Option-cases (w.udp_send (length sent) p addr)) [
              | inl u ↦ rw (u, OnOk) (resend-valid lost r peer _ v)
              | inr (x, u) ↦ rw (u, OnOk) v
            ]))
  ]

  pub get_lost-IsValid :
      (packet : Packet) (peer : UtpSocketState)
      → IsValid t addr peer
      → OnOk (λ q. IsValid t addr q.1) (get_lost_seq_nr t packet peer)
  unfolding get_lost_seq_nr
  get_lost-IsValid packet peer v =
      let Good = λ (q : List ℕ × UtpSocketState). IsValid t addr q.1 in
      OnOk-skip Good (Extensions.collect (length packet) (extensions packet)) _ (λ xs.
        OnOk-skip Good
          (split_extensions t (Fields.ack_nr t packet) peer.sent_window xs
            (record { acked = []; lost = [] }))
          _
          (λ s. ground (
            arith,
            remove_all-IsSorted s.acked peer.sent_window,
            remove_all-IsNumbered IsPacket t s.acked peer.sent_window,
          )))

  pub on_ack-valid :
      (packet : Packet) (peer : UtpSocketState)
      → IsPacket packet
      → IsValid t addr peer
      → OnOk Keeps (on_ack w id packet peer)
  unfolding on_ack
  on_ack-valid packet peer p v =
      let n = Fields.ack_nr t packet in
      let small = (u16_getters t packet p.bytes).1 in
      OnOk-bind (IsValid t addr) Keeps (note_ack w id n peer) _ (note_ack-IsValid n peer small v)
        (λ noted v'. OnOk-skip Keeps (fast_retransmit w id n noted) _ (λ r.
          OnOk-bind (λ q. IsValid t addr q.1) Keeps (get_lost_seq_nr t packet noted) _
            (get_lost-IsValid packet noted v') (λ q v''. resend-valid q.0 r q.1 [] v'')))
