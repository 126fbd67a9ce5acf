-- ===== src/Socket/Exchange.antt =====
-- src/socket.rs: a selective ACK from the receiver's buffer to the sender's window.
use rfs_utp.Common.{
  ℕ, ◌+◌, ◌-◌, ◌*◌, ◌%◌, ◌^◌, ◌<◌, ◌≤◌, ◌≡◌, refl, sym, ap, ◌∙◌, arith, List, [], ◌∷◌, length, take,
  set, Result, ok, ltb, leb, ◌==◌, Bool, true, false, not, ◌&&◌, none, some, All, if◌then◌else◌,
  All-take, All-set, All-append,
}
use native.Mathlib.Decide.{dec_le, dec_lt}
use rfs_utp.Common.Target.{Target}
use rfs_utp.Packet.Types.{ack, selective_ack}
use rfs_utp.Packet.Words.{IsByte}
use rfs_utp.Packet.Fields
use rfs_utp.Packet.Fields.{Packet}
use rfs_utp.Packet.Wire.{fields, getters_wire}
use rfs_utp.Packet.Chain.{Chain-nil}
use rfs_utp.Packet.Parse.{IsWellFormed}
use rfs_utp.Packet.Sack.{set_sack}
use rfs_utp.Packet.SetSack.{set_sack-first, set_sack_lem}
use rfs_utp.BitIterator.Bits.{bit_at, bit_at-beyond}
use rfs_utp.BTreeMap.{get, insert, last_key_value, IsSorted, remove_all}
use rfs_utp.BTreeMap.Laws.{get-insert}
use rfs_utp.Socket.State.{World, UtpSocketState}
use rfs_utp.Socket.Reply.{prepare_reply}
use rfs_utp.Socket.Acks.{build_selective_ack, get_lost_seq_nr}
use rfs_utp.Socket.SynPacket.{get_type_lem}
use rfs_utp.Socket.Handle.{handle_packet, on_data}
use rfs_utp.Socket.SackBits.{has, build_selective_ack_bits}
use rfs_utp.Socket.ReplyFields.{reply_fields, reply-IsByte, reply-IsWellFormed}
use rfs_utp.Socket.Reassembly.{IsReceiving, receive-ahead}
use rfs_utp.Socket.Delivery.{IsOpen, IsData, handle-on_data}
use rfs_utp.Socket.Split.{member, Lost, Lost-of, get-remove_all}

-- A reply with a selective ACK, as the sender reads it.
record SackReply (w : World) (id : ℕ) (packet : Packet) (seq_nr ack_nr : ℕ) (sack : List ℕ)
    : Type 0 where
  rsp : Packet
  result : set_sack {E = ⊥} (prepare_reply w id packet ack seq_nr ack_nr) sack ≡ ok rsp
  well_formed : IsWellFormed rsp (record { ty = selective_ack; bytes = sack } ∷ []) []
  number : (t : Target) → Fields.ack_nr t rsp ≡ ack_nr
  is_ack : (t : Target) → Fields.get_type {E = ⊥} t rsp ≡ ok ack

ok-injective {ℓ κ} :
    {E : Type ℓ} {A : Type κ} (x y : A) → ◌≡◌ {A = Result E A} (ok x) (ok y) → x ≡ y
ok-injective x y e = cc

sack_reply :
    (w : World) (id : ℕ) (packet : Packet) (seq_nr ack_nr : ℕ) (sack : List ℕ)
    → w.now < 2 ^ 32
    → id < 2 ^ 16
    → seq_nr < 2 ^ 16
    → ack_nr < 2 ^ 16
    → 4 ≤ length sack
    → length sack % 4 ≡ 0
    → length sack < 256
    → All IsByte sack
    → SackReply w id packet seq_nr ack_nr sack
unfolding fields
sack_reply w id packet seq_nr ack_nr sack hw hi hs ha four mul small b =
    let plain = prepare_reply w id packet ack seq_nr ack_nr in
    let f = reply-IsWellFormed w id packet ack seq_nr ack_nr hw hi hs ha in
    let s = set_sack_lem ⊥ plain [] [] sack f four mul small in
    let e =
      ok-injective {E = ⊥} _ _
        (sym s.result ∙ set_sack-first ⊥ plain [] [] sack f four mul (Chain-nil f.chain).0) in
    let bytes : All IsByte s.packet = rw e (
      All-append IsByte (take 20 (set plain 1 1)) _
        (All-take IsByte 20 (set plain 1 1) (
          All-set IsByte plain 1 1 (reply-IsByte w id packet ack seq_nr ack_nr hw hi hs ha)
            (omega arith)))
        (omega arith, (omega arith, All-append IsByte sack [] b tt))) in
    let h = (reply_fields w id packet ack seq_nr ack_nr hw hi hs ha).0 in
    record {
      rsp = s.packet;
      result = s.result;
      well_formed = s.well_formed;
      number = λ t.
          (getters_wire t s.packet bytes).1 ∙ ap (λ x. x.ack_nr) s.header ∙ ap (λ x. x.ack_nr) h;
      is_ack =
          λ t. get_type_lem t s.packet ack (ap (λ x. x.type_ver) s.header ∙ ap (λ x. x.type_ver) h);
    }

-- The peer with the packet in its buffer.
abbrev pub buffered : World → Packet → UtpSocketState → UtpSocketState
buffered w packet peer = record peer {
  out_of_order = insert (Fields.seq_nr w.target packet) packet peer.out_of_order;
}

-- The answer to a packet ahead of the next one, and what its sender makes of it.
pub record Exchanged (w : World) (id : ℕ) (packet : Packet) (peer : UtpSocketState) (t : Target)
    (sender : UtpSocketState) (limit : ℕ) : Type 0 where
  pub rsp : Packet
  pub answer :
      handle_packet w id packet peer
      ≡ ok (record { answer = ok (some rsp); peer = buffered w packet peer; sent = [] })
  pub number : (t' : Target) → Fields.ack_nr t' rsp ≡ peer.last_acked
  pub is_ack : (t' : Target) → Fields.get_type {E = ⊥} t' rsp ≡ ok ack
  pub lost : List ℕ
  pub sender' : UtpSocketState
  pub others : sender' ≡ record sender { sent_window = sender'.sent_window }
  pub reading : get_lost_seq_nr {E = ⊥} t rsp sender ≡ ok (lost, sender')
  pub lost_iff :
      (k : ℕ)
      → member k lost ≡ (
          (ltb peer.last_acked k
            && ltb k
                (peer.last_acked + 1 + length (build_selective_ack (buffered w packet peer)) * 8))
          && (ltb k limit && not (has k (buffered w packet peer).out_of_order)))
  pub window_iff :
      (k : ℕ)
      → get k sender'.sent_window ≡ (
          if (ltb peer.last_acked k && ltb k limit) && has k (buffered w packet peer).out_of_order
          then none
          else get k sender.sent_window)

module _ (w : World) (id : ℕ) (packet : Packet) (peer : UtpSocketState) (t : Target)
    (sender : UtpSocketState) (limit : ℕ) (last : Packet) (now_small : w.now < 2 ^ 32)
    (id_small : id < 2 ^ 16) (live : IsOpen peer) (P : Packet → Type 0)
    (r : IsReceiving P w.target peer) (d : IsData w.target packet) (room : peer.seq_nr < 65535)
    (ahead : peer.last_acked + 1 < Fields.seq_nr w.target packet)
    (small : length (build_selective_ack (buffered w packet peer)) < 256)
    (fits : peer.last_acked + 1 + length (build_selective_ack (buffered w packet peer)) * 8 ≤ 65536)
    (sorted : IsSorted sender.sent_window)
    (window : last_key_value sender.sent_window ≡ some (limit, last)) where
  abbrev after : UtpSocketState
  after = buffered w packet peer

  abbrev sack : List ℕ
  sack = build_selective_ack after

  has_packet : has (Fields.seq_nr w.target packet) after.out_of_order ≡ true
  has_packet =
      let seq = Fields.seq_nr w.target packet in
      ground (arith, get-insert seq seq packet peer.out_of_order)

  -- A bit is set for the packet itself, so the selective ACK is not empty.
  sack_length : 4 ≤ length sack
  sack_length =
      let (bits, m, b) = build_selective_ack_bits after in
      let i : ℕ = Fields.seq_nr w.target packet - (peer.last_acked + 1) in
      let e : peer.last_acked + 1 + i ≡ Fields.seq_nr w.target packet = omega arith in
      let one : bit_at sack i ≡ true = bits i ∙ rw e has_packet in
      elim (dec_le 4 (length sack)) [
        | yes h ↦ h
        | no h ↦ cc (one, bit_at-beyond sack i (omega arith))
      ]

  answered : SackReply w id packet peer.seq_nr peer.last_acked sack
  answered =
      let (bits, m, b) = build_selective_ack_bits after in
      sack_reply w id packet peer.seq_nr peer.last_acked sack now_small id_small (omega arith)
        (omega (arith, r.bounded)) sack_length m small b

  on_data-ahead :
      on_data w id packet peer
      ≡ ok (record { answer = ok (some answered.rsp); peer = after; sent = [] })
  unfolding on_data
  on_data-ahead =
      let nonempty : (length sack == 0) ≡ false = ground (arith, sack_length) in
      rw (receive-ahead w id packet peer r.bounded ahead) (rw nonempty (rw answered.result))

  -- The bit of a number is what the buffer says of it.
  bit_of :
      (k : ℕ)
      → peer.last_acked < k
      → bit_at sack (k - (peer.last_acked + 1)) ≡ has k after.out_of_order
  bit_of k h =
      let e : peer.last_acked + 1 + (k - (peer.last_acked + 1)) ≡ k = omega arith in
      (build_selective_ack_bits after).0 (k - (peer.last_acked + 1)) ∙ rw e

  reading_of : Lost t answered.rsp sender peer.last_acked limit sack
  reading_of =
      let (bits, m, b) = build_selective_ack_bits after in
      let n = answered.number t in
      rw n at
        (Lost-of t answered.rsp sender limit last sack [] answered.well_formed b window (rw n fits))

  agree :
      (k : ℕ) (b : Bool)
      → ((leb (peer.last_acked + 1) k && ltb k (peer.last_acked + 1 + length sack * 8))
          && (ltb k limit
              && (if b
                  then bit_at sack (k - (peer.last_acked + 1))
                  else not (bit_at sack (k - (peer.last_acked + 1))))))
        ≡ ((ltb peer.last_acked k && ltb k (peer.last_acked + 1 + length sack * 8))
            && (ltb k limit
                && (if b then has k after.out_of_order else not (has k after.out_of_order))))
  agree k b = elim (dec_lt peer.last_acked k) [
    | yes h ↦ rw (bit_of k h) (ground arith)
    | no h ↦ ground arith
  ]

  -- A number in the buffer has a bit, so the length of the selective ACK is no limit.
  has-below :
      (k : ℕ)
      → (has k after.out_of_order) ≡ true
      → peer.last_acked < k
      → k < peer.last_acked + 1 + length sack * 8
  has-below k h lt = elim (dec_lt k (peer.last_acked + 1 + length sack * 8)) [
    | yes b ↦ b
    | no b ↦ cc (bit_of k lt, h, bit_at-beyond sack (k - (peer.last_acked + 1)) (omega arith))
  ]

  -- A data packet ahead of the next one reaches an open peer, and the answer reaches the sender of
  -- the data, where the numbers stay in the u16 range, the selective ACK is shorter than 256 bytes,
  -- and the sender's window is sorted and not empty: the receiver buffers the packet and answers
  -- with a selective ACK; the sender finds lost exactly the numbers above the receiver's
  -- `last_acked`, within the bits sent and below the last key of its window, that the receiver's
  -- buffer does not hold; and it removes from its window exactly the numbers above `last_acked` and
  -- below its last key that the buffer holds. The two sides may have different byte orders.
  pub sack_exchange : Exchanged w id packet peer t sender limit
  sack_exchange =
      let l = reading_of in
      record {
        rsp = answered.rsp;
        answer = handle-on_data w id now_small id_small packet peer live d.0 ∙ on_data-ahead;
        number = answered.number;
        is_ack = answered.is_ack;
        lost = l.lost;
        sender' = record sender { sent_window = remove_all l.acked sender.sent_window };
        others = refl;
        reading = l.result;
        lost_iff = λ k. l.lost_iff k ∙ agree k false;
        window_iff = λ k.
            get-remove_all l.acked k sender.sent_window sorted
            ∙ ap (λ (b : Bool). if b then none else get k sender.sent_window)
                (l.acked_iff k ∙ agree k true ∙ ground (arith, has-below k));
      }
