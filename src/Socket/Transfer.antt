-- ===== src/Socket/Transfer.antt =====
-- src/socket.rs: the packets of `send_packets` through the `handle_packet` of the other side.
use rfs_utp.Common.{
  ℕ, ◌+◌, ◌^◌, ◌<◌, ◌≤◌, ◌≡◌, refl, sym, ap, ◌∙◌, arith, List, [], ◌∷◌, ◌++◌, length, ok, ◌>>=◌,
  true, false, ◌||◌, some, All,
}
use mathlib.Core.Path.{subst, ap₂}
use native.Mathlib.Decide.{ℕ_discrete, dec_lt}
use rfs_utp.Common.Target.{Target}
use rfs_utp.Packet.Types.{data_}
use rfs_utp.Packet.Fields
use rfs_utp.Packet.Fields.{Packet}
use rfs_utp.Packet.Extensions.{payload}
use rfs_utp.Packet.Reading.{reads_chain}
use rfs_utp.BTreeMap.{BTreeMap, get}
use rfs_utp.Socket.State.{World, UtpSocketState}
use rfs_utp.Socket.Handle.{Run, map_snd}
use rfs_utp.Socket.Reassembly.{CountsFrom, arrived}
use rfs_utp.Socket.Delivery.{IsOpen, IsData, handle_all, carries, Delivered, stream-Delivered}
use rfs_utp.Socket.Queueing.{Carries}

-- The payloads of packets, one after the other.
abbrev pub unpack : List Packet → Run (List ℕ)
unpack [] = ok []
unpack (p ∷ ps) = payload p >>= λ chunk. unpack ps >>= λ rest. ok (chunk ++ rest)

-- A copy of one of the packets.
abbrev pub IsCopy : Target → BTreeMap Packet → Packet → Type 0
IsCopy t packets p = get (Fields.seq_nr t p) packets ≡ some p

pub some-injective {ℓ} : {A : Type ℓ} (x y : A) → some x ≡ some y → x ≡ y
some-injective x y e = cc

-- What a packet of the list has.
pub found :
    (t : Target) (a k : ℕ) (m : BTreeMap Packet) (buf : List ℕ) (p : Packet)
    → Carries t a m buf
    → get k m ≡ some p
    → (a ≤ k) × (k < a + length m) × (Fields.get_type {E = ⊥} t p ≡ ok data_)
unfolding get
found t a k [] buf p c e = cc
found t a k ((j, q) ∷ m) buf p (same, number, ty, (chunk, rest, w, l, split, c)) e =
    elim (ℕ_discrete j k) [
      | yes h ↦
          let here : some q ≡ some p = sym (ground arith) ∙ e in
          (
            omega arith,
            omega arith,
            subst (λ x. Fields.get_type {E = ⊥} t x ≡ ok data_) (some-injective q p here) ty,
          )
      | no h ↦
          let there : get k m ≡ some p = ground arith in
          let (low, high, t') = found t (a + 1) k m rest p c there in (omega arith, omega arith, t')
    ]

pub unpack-Carries :
    (t : Target) (a : ℕ) (m : BTreeMap Packet) (buf : List ℕ)
    → Carries t a m buf
    → unpack (map_snd m) ≡ ok buf
unpack-Carries t a [] buf c = ap ok (sym c)
unpack-Carries t a ((j, q) ∷ m) buf (same, number, ty, (chunk, rest, w, l, split, c)) =
    rw ((reads_chain {E = ⊥} q [] chunk w).0)
      (rw (unpack-Carries t (a + 1) m rest c) (ap ok (sym split)))

module _ (t : Target) (all : BTreeMap Packet) where
  -- Copies with consecutive numbers end where the packets end.
  copies_bounded :
      (a b : ℕ) (buf : List ℕ) (ds : List Packet)
      → Carries t a all buf
      → CountsFrom (IsCopy t all) t b ds
      → b ≤ a + length all
      → b + length ds ≤ a + length all
  copies_bounded a b buf [] c d h = omega arith
  copies_bounded a b buf (p ∷ ds) c ((n, copy), d) h =
      let (low, high, ty) = found t a (Fields.seq_nr t p) all buf p c copy in
      let rest = copies_bounded a (b + 1) buf ds c d (omega arith) in omega arith

  -- As many copies as there are packets, from the first number on, are the packets.
  copies_all :
      (a : ℕ) (buf : List ℕ) (ds : List Packet) (m : BTreeMap Packet)
      → Carries t a m buf
      → CountsFrom (IsCopy t all) t a ds
      → ((k : ℕ) → a ≤ k → get k all ≡ get k m)
      → length ds ≡ length m
      → ds ≡ map_snd m
  unfolding get
  copies_all a buf [] [] c d same l = refl
  copies_all a buf [] (e ∷ m) c d same l = absurd (omega arith)
  copies_all a buf (p ∷ ds) [] c d same l = absurd (omega arith)
  copies_all a buf (p ∷ ds) ((j, q) ∷ m) (key, number, ty, (chunk, rest, w, l', split, c))
        ((n, copy), d) same l =
      let here : some q ≡ some p =
        sym (ground (arith, key)) ∙ sym (same a (omega arith)) ∙ rw n at copy in
      let later : (k : ℕ) → a + 1 ≤ k → get k all ≡ get k m =
        λ k h. same k (omega arith) ∙ ground (arith, key) in
      ap₂ ◌∷◌ (sym (some-injective q p here)) (copies_all (a + 1) rest ds m c d later (omega arith))

-- The receiver after a transfer.
pub record Transferred (w : World) (id : ℕ) (packets : BTreeMap Packet) (buf : List ℕ)
    (ps : List Packet) (peer : UtpSocketState) : Type 0 where
  pub after : UtpSocketState
  pub result : handle_all w id ps peer ≡ ok after
  pub buffer : after.incoming_buffer ≡ map_snd packets
  pub bytes : unpack after.incoming_buffer ≡ ok buf
  pub acknowledged : after.last_acked ≡ peer.last_acked + length packets

IsData-copies :
    (t : Target) (a : ℕ) (packets : BTreeMap Packet) (buf : List ℕ) (ps : List Packet)
    → Carries t a packets buf
    → a + length packets < 65536
    → All (IsCopy t packets) ps
    → All (IsData t) ps
IsData-copies t a packets buf [] c room h = tt
IsData-copies t a packets buf (p ∷ ps) c room h =
    let (low, high, ty) = found t a (Fields.seq_nr t p) packets buf p c h.0 in
    ((ty, omega arith), IsData-copies t a packets buf ps c room h.1)

-- Copies that start at the first packet and stop where no further one has arrived are all of the
-- packets, where each packet has arrived.
pub complete_copies :
    (t : Target) (packets : BTreeMap Packet) (buf : List ℕ) (a last : ℕ) (ps ds : List Packet)
    → Carries t (a + 1) packets buf
    → CountsFrom (IsCopy t packets) t (a + 1) ds
    → last ≡ a + length ds
    → carries t (last + 1) ps ≡ false
    → ((k : ℕ) → a < k → k ≤ a + length packets → carries t k ps ≡ true)
    → (ds ≡ map_snd packets) × (length ds ≡ length packets)
complete_copies t packets buf a last ps ds c d l gap complete =
    let bounded = copies_bounded t packets (a + 1) (a + 1) buf ds c d (omega arith) in
    let enough : length packets ≤ length ds = elim (dec_lt (length ds) (length packets)) [
      | yes short ↦ absurd (ground (arith, gap, complete (last + 1) (omega arith) (omega arith)))
      | no h ↦ omega arith
    ] in
    let same : length ds ≡ length packets = omega arith in
    (copies_all t packets (a + 1) buf ds packets c d (λ k h. refl) same, same)

module _ (w : World) (id : ℕ) (packets : BTreeMap Packet) (buf : List ℕ) (ps : List Packet)
    (peer : UtpSocketState) (c : Carries w.target (peer.last_acked + 1) packets buf) where
  -- What is delivered of copies that leave no number out.
  Delivered-all :
      (d : Delivered (IsCopy w.target packets) w id ps peer)
      → ((k : ℕ)
          → peer.last_acked < k
          → k ≤ peer.last_acked + length packets
          → carries w.target k ps ≡ true)
      → peer.incoming_buffer ≡ []
      → Transferred w id packets buf ps peer
  Delivered-all d complete empty =
      let gap : (carries w.target (d.after.last_acked + 1) ps
            || arrived peer (d.after.last_acked + 1))
          ≡ false =
        sym (d.arrivals (d.after.last_acked + 1)) ∙ d.first_gap in
      let (all, count) =
        complete_copies w.target packets buf peer.last_acked d.after.last_acked ps d.delivered c
          d.in_order d.advances (ground (arith, gap)) complete in
      let buffer : d.after.incoming_buffer ≡ map_snd packets =
        d.buffer ∙ ap (λ b. b ++ d.delivered) empty ∙ all in
      record {
        after = d.after;
        result = d.result;
        buffer = buffer;
        bytes = ap unpack buffer ∙ unpack-Carries w.target (peer.last_acked + 1) packets buf c;
        acknowledged = omega (arith, d.advances, count);
      }

  -- Data that packets carry, as `send_packets` makes them, arrives whole: where an open peer with
  -- empty buffers expects the first of them, and every packet that it handles is a copy of one of
  -- them, in any order and with any repetitions, and each arrives at least once, with numbers and
  -- a count that stay in the u16 range, the handler never panics, the incoming buffer holds
  -- exactly the packets in their order, their payloads one after the other are the data, and
  -- `last_acked` is the last number.
  pub transfer_complete :
      w.now < 2 ^ 32
      → id < 2 ^ 16
      → IsOpen peer
      → peer.out_of_order ≡ []
      → peer.incoming_buffer ≡ []
      → peer.last_acked + 1 + length packets < 65536
      → peer.seq_nr + length ps < 65536
      → All (IsCopy w.target packets) ps
      → ((k : ℕ)
          → peer.last_acked < k
          → k ≤ peer.last_acked + length packets
          → carries w.target k ps ≡ true)
      → Transferred w id packets buf ps peer
  transfer_complete now_small id_small open_ no_early empty room count copies complete =
      Delivered-all
        (stream-Delivered (IsCopy w.target packets) w id now_small id_small ps peer
          (IsData-copies w.target (peer.last_acked + 1) packets buf ps c room copies) copies open_
          (record {
            sorted = rw no_early tt;
            ahead = rw no_early tt;
            below = rw no_early tt;
            numbered = rw no_early tt;
            bounded = omega arith;
          })
          count)
        complete empty
