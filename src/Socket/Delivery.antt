-- ===== src/Socket/Delivery.antt =====
-- src/socket.rs: a stream of data packets through `handle_packet`.
use rfs_utp.Common.{
  ℕ, suc, ◌+◌, ◌%◌, ◌^◌, ◌<◌, ◌≡◌, refl, sym, ap, ◌∙◌, arith, List, [], ◌∷◌, ◌++◌, length, ok, ◌==◌,
  Bool, true, false, ◌||◌, some, ◌⊎◌, All, ◌>>=◌, if◌then◌else◌, length-append, take, set,
}
use mathlib.Core.Path.{subst}
use mathlib.Core.List.{append_assoc, append-nil}
use rfs_utp.Common.Target.{Target}
use rfs_utp.Packet.Types.{data_, ack}
use rfs_utp.Packet.Fields
use rfs_utp.Packet.Fields.{Packet}
use rfs_utp.Packet.Chain.{Chain-nil}
use rfs_utp.Packet.Sack.{set_sack}
use rfs_utp.Packet.SetSack.{set_sack-first}
use rfs_utp.BTreeMap.Laws.{get-Above}
use rfs_utp.Socket.State.{World, UtpSocketState, connected, fin_sent}
use rfs_utp.Socket.Reply.{prepare_reply}
use rfs_utp.Socket.Handle.{Run, on_data, dispatch, handle_packet}
use rfs_utp.Socket.ReplyFields.{reply-IsWellFormed}
use rfs_utp.Socket.Reassembly.{CountsFrom, IsReceiving, arrived, Received, received}

-- A state in which data packets are taken.
abbrev pub IsOpen : UtpSocketState → Type 0
IsOpen peer = (peer.state ≡ connected) ⊎ (peer.state ≡ fin_sent)

-- A data packet whose number is not the last one of the u16 range.
abbrev pub IsData : Target → Packet → Type 0
IsData t p = (Fields.get_type {E = ⊥} t p ≡ ok data_) × (Fields.seq_nr t p < 65535)

-- The state after packets that are handled one after the other.
unfoldable pub handle_all : World → ℕ → List Packet → UtpSocketState → Run UtpSocketState
handle_all w id [] peer = ok peer
handle_all w id (p ∷ ps) peer = handle_packet w id p peer >>= λ h. handle_all w id ps h.peer

-- Whether one of the packets has the number.
abbrev pub carries : Target → ℕ → List Packet → Bool
carries t k [] = false
carries t k (p ∷ ps) = k == Fields.seq_nr t p || carries t k ps

module _ (w : World) (id : ℕ) (now_small : w.now < 2 ^ 32) (id_small : id < 2 ^ 16) where
  -- The reply takes the selective ACK, whatever its length.
  pub reply-sack :
      (packet : Packet) (seq_nr ack_nr : ℕ) (sack : List ℕ)
      → seq_nr < 2 ^ 16
      → ack_nr < 2 ^ 16
      → length sack % 4 ≡ 0
      → (rsp : Packet) × ((if length sack == 0
            then ok (prepare_reply w id packet ack seq_nr ack_nr)
            else set_sack {E = ⊥} (prepare_reply w id packet ack seq_nr ack_nr) sack)
          ≡ ok rsp)
  reply-sack packet seq_nr ack_nr [] hs ha m = (prepare_reply w id packet ack seq_nr ack_nr, refl)
  reply-sack packet seq_nr ack_nr (b ∷ sack) hs ha m =
      let f = reply-IsWellFormed w id packet ack seq_nr ack_nr now_small id_small hs ha in
      let z : (length (b ∷ sack) == 0) ≡ false = ground arith in
      (
        take 20 (set (prepare_reply w id packet ack seq_nr ack_nr) 1 1)
            ++ (0 ∷ length (b ∷ sack) % 256 ∷ ((b ∷ sack) ++ [])),
        rw z (
            set_sack-first ⊥ (prepare_reply w id packet ack seq_nr ack_nr) [] [] (b ∷ sack) f
              (omega arith) m (Chain-nil f.chain).0),
      )

  pub on_data_lem :
      (P : Packet → Type 0) (packet : Packet) (peer : UtpSocketState)
      → peer.seq_nr < 65535
      → (r : Received P w id packet peer)
      → (rsp : Packet) × (on_data w id packet peer
          ≡ ok (record { answer = ok (some rsp); peer = r.after; sent = [] }))
  unfolding on_data
  on_data_lem P packet peer room r =
      let (rsp, q) =
        reply-sack packet r.after.seq_nr r.after.last_acked r.sack (omega (arith, r.number))
          (omega (arith, r.receiving.bounded)) r.sack_padded in
      (rsp, rw r.result (rw q))

  pub handle-on_data :
      (packet : Packet) (peer : UtpSocketState)
      → IsOpen peer
      → Fields.get_type {E = ⊥} w.target packet ≡ ok data_
      → handle_packet w id packet peer ≡ on_data w id packet peer
  unfolding handle_packet dispatch
  handle-on_data packet peer live ty = ground arith

pub CountsFrom-append :
    (P : Packet → Type 0) (t : Target) (a : ℕ) (ps qs : List Packet)
    → CountsFrom P t a ps
    → CountsFrom P t (a + length ps) qs
    → CountsFrom P t a (ps ++ qs)
CountsFrom-append P t a [] qs c d = subst (λ k. CountsFrom P t k qs) (omega arith) d
CountsFrom-append P t a (p ∷ ps) qs c d = (
  c.0,
  CountsFrom-append P t (a + 1) ps qs c.1 (
      subst (λ k. CountsFrom P t k qs) {x = a + suc (length ps)} {y = a + 1 + length ps}
        (omega arith) d),
)

-- What a stream of data packets does to a peer.
pub record Delivered (P : Packet → Type 0) (w : World) (id : ℕ) (ps : List Packet)
    (peer : UtpSocketState) : Type 0 where
  pub after : UtpSocketState
  pub result : handle_all w id ps peer ≡ ok after
  pub receiving : IsReceiving P w.target after
  pub arrivals : (k : ℕ) → arrived after k ≡ (carries w.target k ps || arrived peer k)
  pub delivered : List Packet
  pub buffer : after.incoming_buffer ≡ peer.incoming_buffer ++ delivered
  pub in_order : CountsFrom P w.target (peer.last_acked + 1) delivered
  pub advances : after.last_acked ≡ peer.last_acked + length delivered
  pub first_gap : arrived after (after.last_acked + 1) ≡ false

pub gap_after :
    (P : Packet → Type 0) (t : Target) (peer : UtpSocketState)
    → IsReceiving P t peer
    → arrived peer (peer.last_acked + 1) ≡ false
gap_after P t peer r = ground (arith, get-Above (peer.last_acked + 1) peer.out_of_order r.ahead)

pub or_assoc : (a b c : Bool) → (a || (b || c)) ≡ ((b || a) || c)
or_assoc true true c = refl
or_assoc true false c = refl
or_assoc false true c = refl
or_assoc false false c = refl

module _ (P : Packet → Type 0) (w : World) (id : ℕ) (now_small : w.now < 2 ^ 32)
    (id_small : id < 2 ^ 16) where
  -- Any stream of data packets, in any order and with any repetitions, handled by an open peer
  -- that can receive, with numbers and a count that stay in the u16 range: the handler never
  -- panics; the set of arrived numbers grows by exactly the numbers of the stream; the packets put
  -- in the incoming buffer have the consecutive numbers behind `last_acked`, which moves to the
  -- last of them, and any property that the packets of the stream and the buffered ones share; and
  -- the number after it has not arrived, so nothing deliverable is held back.
  pub stream-Delivered :
      (ps : List Packet) (peer : UtpSocketState)
      → All (IsData w.target) ps
      → All P ps
      → IsOpen peer
      → IsReceiving P w.target peer
      → peer.seq_nr + length ps < 65536
      → Delivered P w id ps peer
  unfolding handle_all
  stream-Delivered [] peer d h o r room = record {
    after = peer;
    result = refl;
    receiving = r;
    arrivals = λ k. refl;
    delivered = [];
    buffer = sym (append-nil peer.incoming_buffer);
    in_order = tt;
    advances = omega arith;
    first_gap = gap_after P w.target peer r;
  }
  stream-Delivered (p ∷ ps) peer d h o r room =
      let one = received w id p peer P r h.0 d.0.1 (omega arith) in
      let (rsp, q) = on_data_lem w id now_small id_small P p peer (omega arith) one in
      let q' = handle-on_data w id now_small id_small p peer o d.0.0 ∙ q in
      let all =
        stream-Delivered ps one.after d.1 h.1 (ground (arith, one.same_state)) one.receiving
          (omega (arith, one.number)) in
      record {
        after = all.after;
        result = rw q' all.result;
        receiving = all.receiving;
        arrivals = λ k.
            all.arrivals k
            ∙ ap (λ b. carries w.target k ps || b) (one.arrivals k)
            ∙ or_assoc (carries w.target k ps) (k == Fields.seq_nr w.target p) (arrived peer k);
        delivered = one.delivered ++ all.delivered;
        buffer =
            all.buffer
            ∙ ap (λ b. b ++ all.delivered) one.buffer
            ∙ append_assoc peer.incoming_buffer one.delivered all.delivered;
        in_order =
            CountsFrom-append P w.target (peer.last_acked + 1) one.delivered all.delivered
              one.in_order
              (subst (λ k. CountsFrom P w.target k all.delivered) {x = one.after.last_acked + 1}
                (omega (arith, one.advances)) all.in_order);
        advances =
            omega (arith, one.advances, all.advances, length-append one.delivered all.delivered);
        first_gap = all.first_gap;
      }
