-- ===== src/Socket/Reassembly.antt =====
-- src/socket.rs: the state after a data packet, against the set of the numbers that have arrived.
use rfs_utp.Common.{
  inl, inr, ltb, ◌==◌, Bool-cases, ℕ, suc, ◌+◌, ◌%◌, ◌<◌, ◌≤◌, ◌≡◌, refl, sym, ap, ◌∙◌, arith, List,
  [], ◌∷◌, ◌++◌, length, ok, leb, ◌==◌, Bool, ◌||◌,
}
use mathlib.Core.Path.{subst}
use mathlib.Core.List.{append-nil}
use native.Mathlib.Decide.{ℕ_discrete, dec_lt}
use rfs_utp.Common.Target.{Target, add_u16_ok}
use rfs_utp.Packet.Fields.{Packet}
use rfs_utp.Packet.Fields
use rfs_utp.BTreeMap.{BTreeMap, insert, remove_all, Above, Below, IsSorted}
use rfs_utp.BTreeMap.Laws.{Above-trans, get-insert, insert-Above, insert-Below, insert-IsSorted}
use rfs_utp.Socket.State.{World, UtpSocketState}
use rfs_utp.Socket.Acks.{build_selective_ack}
use rfs_utp.Socket.Handle.{accept, receive, map_fst, map_snd}
use rfs_utp.Socket.SackBits.{has, build_selective_ack_bits}
use rfs_utp.Socket.Drain.{Consecutive, Drained, drained, remove_all-run, has-run}

-- Each packet of the buffer stands under its own number, and has the property `P`.
abbrev pub IsNumbered : (Packet → Type 0) → Target → BTreeMap Packet → Type 0
IsNumbered P t [] = Unit {0}
IsNumbered P t ((j, p) ∷ m) = ((Fields.seq_nr t p ≡ j) × P p) × IsNumbered P t m

-- Packets with the numbers `a`, `a + 1` and so on, each with the property `P`.
abbrev pub CountsFrom : (Packet → Type 0) → Target → ℕ → List Packet → Type 0
CountsFrom P t a [] = Unit {0}
CountsFrom P t a (p ∷ ps) = ((Fields.seq_nr t p ≡ a) × P p) × CountsFrom P t (a + 1) ps

-- What holds of the receiving side of a peer between two data packets: the buffer is sorted, it
-- holds nothing that could be delivered, and no number reaches the end of the u16 range.
pub record IsReceiving (P : Packet → Type 0) (t : Target) (peer : UtpSocketState) : Type 0 where
  pub sorted : IsSorted peer.out_of_order
  pub ahead : Above (peer.last_acked + 1) peer.out_of_order
  pub below : Below 65535 peer.out_of_order
  pub numbered : IsNumbered P t peer.out_of_order
  pub bounded : peer.last_acked < 65535

-- Whether the packet with the number has arrived (or lies before the start of the stream).
abbrev pub arrived : UtpSocketState → ℕ → Bool
arrived peer k = leb k peer.last_acked || has k peer.out_of_order

module _ (P : Packet → Type 0) (t : Target) where
  pub insert-IsNumbered :
      (k : ℕ) (p : Packet) (m : BTreeMap Packet)
      → (Fields.seq_nr t p ≡ k) × P p
      → IsNumbered P t m
      → IsNumbered P t (insert k p m)
  unfolding insert
  insert-IsNumbered k p [] e n = (e, tt)
  insert-IsNumbered k p ((i, q) ∷ m) e n = elim (Bool-cases (ltb k i)) [
    | inl lt ↦ rw (lt, IsNumbered) (e, n)
    | inr ge ↦ elim (Bool-cases (i == k)) [
      | inl same ↦ rw (ge, same, IsNumbered) (e, n.1)
      | inr other ↦ rw (ge, other, IsNumbered) (n.0, insert-IsNumbered k p m e n.1)
    ]
  ]

  IsNumbered-append :
      (run : List (ℕ × Packet)) (rest : BTreeMap Packet)
      → IsNumbered P t (run ++ rest)
      → IsNumbered P t run × IsNumbered P t rest
  IsNumbered-append [] rest n = (tt, n)
  IsNumbered-append ((j, p) ∷ run) rest n =
      let (a, b) = IsNumbered-append run rest n.1 in ((n.0, a), b)

  CountsFrom-run :
      (a : ℕ) (run : List (ℕ × Packet))
      → Consecutive a run
      → IsNumbered P t run
      → CountsFrom P t a (map_snd run)
  CountsFrom-run a [] c n = tt
  CountsFrom-run a ((j, p) ∷ run) c n = ((n.0.0 ∙ c.0, n.0.1), CountsFrom-run (a + 1) run c.1 n.1)

length-map_snd : (run : List (ℕ × Packet)) → length (map_snd run) ≡ length run
length-map_snd [] = refl
length-map_snd (e ∷ run) = ap suc (length-map_snd run)

-- The receiving side after a packet: nothing is forgotten, exactly its number is new, and what is
-- delivered continues the stream.
pub record Received (P : Packet → Type 0) (w : World) (id : ℕ) (packet : Packet)
    (peer : UtpSocketState) : Type 0 where
  pub after : UtpSocketState
  pub sack : List ℕ
  pub result : receive w id packet peer ≡ ok (after, sack)
  pub sack_padded : length sack % 4 ≡ 0
  pub receiving : IsReceiving P w.target after
  pub arrivals : (k : ℕ) → arrived after k ≡ (k == Fields.seq_nr w.target packet || arrived peer k)
  pub delivered : List Packet
  pub buffer : after.incoming_buffer ≡ peer.incoming_buffer ++ delivered
  pub in_order : CountsFrom P w.target (peer.last_acked + 1) delivered
  pub advances : after.last_acked ≡ peer.last_acked + length delivered
  pub same_state : after.state ≡ peer.state
  pub number : after.seq_nr ≤ peer.seq_nr + 1

module _ (w : World) (id : ℕ) (packet : Packet) (peer : UtpSocketState) where
  abbrev seq : ℕ
  seq = Fields.seq_nr w.target packet

  -- The state after the packet and a run of the buffer are delivered.
  abbrev advanced : List (ℕ × Packet) → BTreeMap Packet → UtpSocketState
  advanced run rest = record peer {
    last_acked = seq + length run;
    seq_nr = peer.seq_nr + 1;
    incoming_buffer = peer.incoming_buffer ++ (packet ∷ map_snd run);
    out_of_order = rest;
  }

  pub receive-ahead :
      peer.last_acked < 65535
      → peer.last_acked + 1 < seq
      → (let peer' = record peer { out_of_order = insert seq packet peer.out_of_order } in
          receive w id packet peer ≡ ok (peer', build_selective_ack peer'))
  unfolding receive
  receive-ahead bounded e = ground (arith, add_u16_ok {E = ⊥} w.target peer.last_acked 1)

  module _ (P : Packet → Type 0) (r : IsReceiving P w.target peer) (holds : P packet)
      (small : seq < 65535) (room : peer.seq_nr < 65535) where
    accept_lem :
        (d : Drained w id seq peer.out_of_order)
        → accept w id packet peer ≡ ok (advanced d.run d.rest)
    unfolding accept
    accept_lem d =
        rw (add_u16_ok w.target peer.seq_nr 1 (omega arith), d.result)
          (ap (λ m. ok (advanced d.run m))
            (ap (remove_all (map_fst d.run)) d.split ∙ remove_all-run d.run d.rest))

    -- The packet that is next in order.
    Received-next : seq ≡ peer.last_acked + 1 → Received P w id packet peer
    unfolding receive
    Received-next e =
        let d =
          drained w id seq peer.out_of_order small r.sorted
            (Above-trans seq (peer.last_acked + 1) peer.out_of_order (omega arith) r.ahead)
            r.below in
        let n =
          IsNumbered-append P w.target d.run d.rest
            (subst (IsNumbered P w.target) d.split r.numbered) in
        record {
          after = advanced d.run d.rest;
          sack = [];
          result = ground (arith, add_u16_ok {E = ⊥} w.target peer.last_acked 1, accept_lem d);
          sack_padded = refl;
          receiving = record {
            sorted = d.sorted;
            ahead = d.ahead;
            below = d.below;
            numbered = n.1;
            bounded = d.bounded;
          };
          arrivals = λ k.
              ground (arith, ap (has k) d.split, has-run (seq + 1) k d.run d.rest d.consecutive);
          delivered = packet ∷ map_snd d.run;
          buffer = refl;
          in_order = (
            (e, holds),
            CountsFrom-run P w.target (peer.last_acked + 1 + 1) d.run (rw e at d.consecutive) n.0,
          );
          advances = omega (arith, length-map_snd d.run);
          same_state = refl;
          number = omega arith;
        }

    -- A packet ahead of the next one.
    Received-ahead : peer.last_acked + 1 < seq → Received P w id packet peer
    unfolding receive
    Received-ahead e = record {
      after = record peer { out_of_order = insert seq packet peer.out_of_order };
      sack =
          build_selective_ack (record peer { out_of_order = insert seq packet peer.out_of_order });
      result = receive-ahead r.bounded e;
      sack_padded =
          (build_selective_ack_bits
            (record peer { out_of_order = insert seq packet peer.out_of_order })).1;
      receiving = record {
        sorted = insert-IsSorted seq packet peer.out_of_order r.sorted;
        ahead = insert-Above (peer.last_acked + 1) seq packet peer.out_of_order e r.ahead;
        below = insert-Below 65535 seq packet peer.out_of_order small r.below;
        numbered =
            insert-IsNumbered P w.target seq packet peer.out_of_order (refl, holds) r.numbered;
        bounded = r.bounded;
      };
      arrivals = λ k. ground (arith, get-insert seq k packet peer.out_of_order);
      delivered = [];
      buffer = sym (append-nil peer.incoming_buffer);
      in_order = tt;
      advances = omega arith;
      same_state = refl;
      number = omega arith;
    }

    -- A packet that has been delivered before.
    Received-again : seq ≤ peer.last_acked → Received P w id packet peer
    unfolding receive
    Received-again e = record {
      after = peer;
      sack = [];
      result = ground (arith, add_u16_ok {E = ⊥} w.target peer.last_acked 1);
      sack_padded = refl;
      receiving = r;
      arrivals = λ k. ground arith;
      delivered = [];
      buffer = sym (append-nil peer.incoming_buffer);
      in_order = tt;
      advances = omega arith;
      same_state = refl;
      number = omega arith;
    }

    pub received : Received P w id packet peer
    received = elim (ℕ_discrete seq (peer.last_acked + 1)) [
      | yes e ↦ Received-next e
      | no n ↦ elim (dec_lt peer.last_acked seq) [
        | yes h ↦ Received-ahead (omega arith)
        | no h ↦ Received-again (omega arith)
      ]
    ]
