-- ===== src/Socket/Invariant/AckSafety.antt =====
-- src/socket.rs: the arm of an Ack ends at a valid peer, where overflow is not checked.
use rfs_utp.Common.{
  ℕ, suc, ◌+◌, ◌*◌, ◌%◌, ◌≡◌, arith, List, [], ◌∷◌, ◌++◌, length, ok, ◌>>=◌, Bool, false,
  Bool-cases, inl, inr, if◌then◌else◌, Option, none, some, All, Ends, >>=-Ends, All-drop,
}
use mathlib.Core.Path.{subst}
use rfs_utp.Common.Target.{Target, add_u16}
use rfs_utp.Packet.Types.{ExtensionType, packet_type_from_u8, is_selective_ack}
use rfs_utp.Packet.Words.{IsByte}
use rfs_utp.Packet.Header
use rfs_utp.Packet.Header.{cast}
use rfs_utp.Packet.Fields
use rfs_utp.Packet.Fields.{Packet}
use rfs_utp.Packet.Extensions.{Extension}
use rfs_utp.Packet.Chain.{Chain, end, link}
use rfs_utp.Packet.Parse.{IsWellFormed}
use rfs_utp.Packet.Reading.{reads_chain}
use rfs_utp.BitIterator.Defs as Bits
use rfs_utp.BitIterator.Defs.{from_bytes}
use rfs_utp.BitIterator.Bits.{bits_from, collect-from_bytes}
use rfs_utp.BTreeMap.{BTreeMap, get, last_key_value}
use rfs_utp.Socket.State.{SocketAddr, UtpSocketState, World, Datagram}
use rfs_utp.Socket.Acks.{Split, split_bits, split_extensions, get_lost_seq_nr}
use rfs_utp.Socket.Handle.{note_ack, fast_retransmit, resend, on_ack}
use rfs_utp.Socket.OnOk.{Option-cases, OnOk-eq}
use rfs_utp.Socket.Invariant.Defs.{IsPacket, IsValid, u16_getters}
use rfs_utp.Socket.Invariant.AckHandler.{note_ack-IsValid, get_lost-IsValid}

-- A byte vector of an extension in bytes has bytes.
Chain-bytes :
    {ty : ExtensionType} {bs : List ℕ} {xs : List Extension} {pl : List ℕ}
    → Chain ty bs xs pl
    → All IsByte bs
    → All (λ x. All IsByte x.bytes) xs
Chain-bytes (end bs x) b = tt
Chain-bytes (link following bytes rest x e pos mul c) b =
    let (f, (l, both)) = subst (All IsByte) e b in
    let (here, later) = All-split bytes rest both in (here, Chain-bytes c later)
  where
    All-split : (xs ys : List ℕ) → All IsByte (xs ++ ys) → All IsByte xs × All IsByte ys
    All-split [] ys h = (tt, h)
    All-split (x ∷ xs) ys h = let (a, c) = All-split xs ys h.1 in ((h.0, a), c)

-- A well formed packet has a type.
pub get_type-Ends :
    (t : Target) (p : Packet) (xs : List Extension) (pl : List ℕ)
    → IsWellFormed p xs pl
    → Ends (Fields.get_type {E = ⊥} t p)
unfolding Fields.get_type Header.get_type cast packet_type_from_u8
get_type-Ends t p xs pl w = (λ e. ground (arith, w.known_type), λ e. ground (arith, w.known_type))

module _ (w : World) (id : ℕ) (unchecked : w.target.overflow_checks ≡ false) where
  abbrev t : Target
  t = w.target

  pub add-Ends : (a b : ℕ) → Ends (add_u16 {E = ⊥} t a b)
  unfolding add_u16
  add-Ends a b = (λ e. ground arith, λ e. ground arith)

  note_ack-Ends : (n : ℕ) (peer : UtpSocketState) → Ends (note_ack w id n peer)
  unfolding note_ack add_u16
  note_ack-Ends n peer = (λ e. ground arith, λ e. ground arith)

  fast_retransmit-Ends : (n : ℕ) (peer : UtpSocketState) → Ends (fast_retransmit w id n peer)
  unfolding fast_retransmit add_u16
  fast_retransmit-Ends n peer = (λ e. ground arith, λ e. ground arith)

  split_bits-Ends :
      (a limit idx : ℕ) (bits : List Bool) (s : Split)
      → Ends (split_bits {E = ⊥} t a limit idx bits s)
  unfolding split_bits
  split_bits-Ends a limit idx [] s = (λ e. cc, λ e. cc)
  split_bits-Ends a limit idx (b ∷ bits) s = >>=-Ends (add_u16 t a 1) _ (add-Ends a 1) (λ next _.
      >>=-Ends (add_u16 t next (idx % 65536)) _ (add-Ends next (idx % 65536))
        (λ seq _. split_bits-Ends a limit (idx + 1) bits _))

  split_extensions-Ends :
      (a : ℕ) (sent : BTreeMap Packet) (xs : List Extension) (s : Split)
      → All (λ x. All IsByte x.bytes) xs
      → Ends (split_extensions {E = ⊥} t a sent xs s)
  unfolding split_extensions
  split_extensions-Ends a sent [] s b = (λ e. cc, λ e. cc)
  split_extensions-Ends a sent (x ∷ xs) s b =
      >>=-Ends
        (if is_selective_ack x.ty
          then elim (last_key_value sent) [
            | none ↦ ok s
            | some (last_seq_nr, _) ↦
                (Bits.collect (suc (length x.bytes * 8)) (from_bytes x.bytes) >>= λ bits.
                split_bits t a last_seq_nr 0 bits s)
          ]
          else ok s)
        _
        (elim (Bool-cases (is_selective_ack x.ty)) [
          | inr other ↦ rw other (λ e. cc, λ e. cc)
          | inl one ↦ rw one (elim (Option-cases (last_key_value sent)) [
            | inl n ↦ rw n (λ e. cc, λ e. cc)
            | inr ((limit, p), n) ↦ rw n (
                rw (collect-from_bytes {E = ⊥} x.bytes b.0)
                  (split_bits-Ends a limit 0 (bits_from x.bytes 0 (length x.bytes * 8)) s))
          ])
        ])
        (λ s' _. split_extensions-Ends a sent xs s' b.1)

  get_lost-Ends :
      (packet : Packet) (peer : UtpSocketState)
      → IsPacket packet
      → Ends (get_lost_seq_nr {E = ⊥} t packet peer)
  unfolding get_lost_seq_nr
  get_lost-Ends packet peer p = rw ((reads_chain {E = ⊥} packet p.xs p.pl p.well_formed).1) (
      >>=-Ends
        (split_extensions t (Fields.ack_nr t packet) peer.sent_window p.xs
          (record { acked = []; lost = [] }))
        _
        (split_extensions-Ends (Fields.ack_nr t packet) peer.sent_window p.xs _
          (Chain-bytes p.well_formed.chain (All-drop IsByte 20 packet p.bytes)))
        (λ s _. (λ e. cc, λ e. cc)))

  resend-Ends :
      (addr : SocketAddr) (lost : List ℕ) (r : Option Packet) (peer : UtpSocketState)
      (sent : List Datagram)
      → peer.connected_to ≡ some addr
      → Ends (resend w id lost r peer sent)
  unfolding resend
  resend-Ends addr [] r peer sent a = (λ e. cc, λ e. cc)
  resend-Ends addr (k ∷ lost) r peer sent a = elim (Option-cases (get k peer.sent_window)) [
    | inl n ↦ rw (n, resend) (resend-Ends addr lost r peer sent a)
    | inr (p, n) ↦
        rw (n, resend)
          (rw (a, resend)
            (elim (Option-cases (w.udp_send (length sent) p addr)) [
              | inl u ↦ rw (u, resend) (resend-Ends addr lost r peer _ a)
              | inr (x, u) ↦ rw (u, resend) (λ e. cc, λ e. cc)
            ]))
  ]

  pub on_ack-Ends :
      (addr : SocketAddr) (packet : Packet) (peer : UtpSocketState)
      → IsPacket packet
      → IsValid t addr peer
      → Ends (on_ack w id packet peer)
  unfolding on_ack
  on_ack-Ends addr packet peer p v =
      let n = Fields.ack_nr t packet in
      let small = (u16_getters t packet p.bytes).1 in
      >>=-Ends (note_ack w id n peer) _ (note_ack-Ends n peer) (λ noted e.
        let v' =
          OnOk-eq (IsValid t addr) (note_ack w id n peer) noted
            (note_ack-IsValid w id addr n peer small v) e in
        >>=-Ends (fast_retransmit w id n noted) _ (fast_retransmit-Ends n noted) (λ r _.
          >>=-Ends (get_lost_seq_nr t packet noted) _ (get_lost-Ends packet noted p) (λ q e'.
            let v'' =
              OnOk-eq (λ x. IsValid t addr x.1) (get_lost_seq_nr t packet noted) q
                (get_lost-IsValid w id addr packet noted v') e' in
            resend-Ends addr q.0 r q.1 [] v''.address)))
