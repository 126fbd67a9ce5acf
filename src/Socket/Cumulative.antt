-- ===== src/Socket/Cumulative.antt =====
-- src/socket.rs: the Acks that the sender of data takes, one after the other.
use rfs_utp.Common.{
  length, ℕ, ◌+◌, ◌<◌, ◌≡◌, refl, sym, ◌∙◌, arith, List, [], ◌∷◌, ok, ltb, leb, if◌then◌else◌, ◌&&◌,
  none, All,
}
use rfs_utp.Common.Target.{Target, add_u16_ok}
use rfs_utp.Packet.Types.{ack}
use rfs_utp.Packet.Fields
use rfs_utp.Packet.Fields.{Packet}
use rfs_utp.Packet.Parse.{IsWellFormed}
use rfs_utp.Packet.Reading.{reads_chain}
use rfs_utp.BTreeMap.{get, remove, remove_all, IsSorted}
use rfs_utp.BTreeMap.Laws.{get-remove, remove-IsSorted}
use rfs_utp.Socket.State.{UtpSocketState, World}
use rfs_utp.Socket.Acks.{get_lost_seq_nr, split_extensions}
use rfs_utp.Socket.Handle.{note_ack, fast_retransmit, resend, on_ack, dispatch, handle_packet}
use rfs_utp.Socket.Delivery.{IsOpen, handle_all}

-- A well-formed Ack without extensions.
abbrev pub IsAck : Target → Packet → Type 0
IsAck t p = (Fields.get_type {E = ⊥} t p ≡ ok ack) × ((pl : List ℕ) × IsWellFormed p [] pl)

-- Acks with the numbers `a`, `a + 1` and so on.
abbrev pub AcksFrom : Target → ℕ → List Packet → Type 0
AcksFrom t a [] = Unit {0}
AcksFrom t a (p ∷ ps) = IsAck t p × (Fields.ack_nr t p ≡ a) × AcksFrom t (a + 1) ps

module _ (w : World) (id : ℕ) where
  pub plain_ack :
      (packet : Packet) (peer p : UtpSocketState)
      → IsOpen peer
      → IsAck w.target packet
      → Fields.ack_nr w.target packet < 65535
      → note_ack w id (Fields.ack_nr w.target packet) peer ≡ ok p
      → handle_packet w id packet peer
        ≡ ok (record {
          answer = ok (
              if leb 3 p.duplicate_ack_count
              then get (Fields.ack_nr w.target packet + 1) p.sent_window
              else none);
          peer = p;
          sent = [];
        })
  unfolding handle_packet dispatch on_ack fast_retransmit get_lost_seq_nr split_extensions resend
      remove_all
  plain_ack packet peer p live (ty, (pl, f)) small e =
      let fast : fast_retransmit w id (Fields.ack_nr w.target packet) p
          ≡ ok (
              if leb 3 p.duplicate_ack_count
              then get (Fields.ack_nr w.target packet + 1) p.sent_window
              else none) =
        ground (arith, add_u16_ok {E = ⊥} w.target (Fields.ack_nr w.target packet) 1) in
      let lost : get_lost_seq_nr {E = ⊥} w.target packet p ≡ ok ([], p) =
        rw ((reads_chain {E = ⊥} packet [] pl f).1) refl in
      let all : on_ack w id packet peer
          ≡ ok (record {
            answer = ok (
                if leb 3 p.duplicate_ack_count
                then get (Fields.ack_nr w.target packet + 1) p.sent_window
                else none);
            peer = p;
            sent = [];
          }) =
        rw e (rw fast (rw lost refl)) in
      ground (arith, live, ty, all)

  pub note_ack-next :
      (n : ℕ) (peer : UtpSocketState)
      → n ≡ peer.last_acked + 1
      → n < 65535
      → note_ack w id n peer
        ≡ ok (record peer {
          last_acked = n;
          last_acked_timestamp = w.now;
          duplicate_ack_count = 1;
          sent_window = remove n peer.sent_window;
        })
  unfolding note_ack
  note_ack-next n peer e small = ground (arith, add_u16_ok {E = ⊥} w.target peer.last_acked 1)

  pub note_ack-beyond :
      (n : ℕ) (peer : UtpSocketState)
      → peer.last_acked + 1 < n
      → n < 65535
      → note_ack w id n peer ≡ ok peer
  unfolding note_ack
  note_ack-beyond n peer e small = ground (arith, add_u16_ok {E = ⊥} w.target peer.last_acked 1)

-- The sender after Acks that arrive one by one.
pub record Acknowledged (w : World) (id : ℕ) (ps : List Packet) (peer : UtpSocketState)
    : Type 0 where
  pub after : UtpSocketState
  pub result : handle_all w id ps peer ≡ ok after
  pub advances : after.last_acked ≡ peer.last_acked + length ps
  pub window :
      (k : ℕ)
      → get k after.sent_window ≡ (
          if ltb peer.last_acked k && leb k (peer.last_acked + length ps)
          then none
          else get k peer.sent_window)

module _ (w : World) (id : ℕ) where
  -- Acks for each packet in turn, without extensions, taken by an open peer whose window is sorted,
  -- with numbers that stay below the end of the u16 range: the handler does not panic, `last_acked`
  -- moves to the last of the numbers, and exactly the acknowledged packets leave the window.
  pub acks_in_order :
      (ps : List Packet) (peer : UtpSocketState)
      → AcksFrom w.target (peer.last_acked + 1) ps
      → IsOpen peer
      → IsSorted peer.sent_window
      → peer.last_acked + length ps < 65535
      → Acknowledged w id ps peer
  unfolding handle_all
  acks_in_order [] peer d live s small = record {
    after = peer;
    result = refl;
    advances = omega arith;
    window = λ k. ground arith;
  }
  acks_in_order (p ∷ ps) peer (d, e, ds) live s small =
      let n = Fields.ack_nr w.target p in
      let next = record peer {
        last_acked = n;
        last_acked_timestamp = w.now;
        duplicate_ack_count = 1;
        sent_window = remove n peer.sent_window;
      } in
      let q =
        plain_ack w id p peer next live d (omega arith)
          (note_ack-next w id n peer e (omega arith)) in
      let all =
        acks_in_order ps next (rw (sym e) at ds) live (remove-IsSorted n peer.sent_window s)
          (omega arith) in
      record {
        after = all.after;
        result = rw q all.result;
        advances = omega (arith, all.advances, e);
        window = λ k. all.window k ∙ ground (arith, e, get-remove n k peer.sent_window s);
      }

  -- An Ack that acknowledges more than one new packet is not taken: Acks without extensions, each
  -- with a number at least two above `last_acked` and below the end of the u16 range, leave an
  -- open peer as it was, its window and `last_acked` included, however many arrive.
  pub acks_beyond_ignored :
      (ps : List Packet) (peer : UtpSocketState)
      → All
          (λ p.
            IsAck w.target p
            × (peer.last_acked + 1 < Fields.ack_nr w.target p)
            × (Fields.ack_nr w.target p < 65535))
          ps
      → IsOpen peer
      → handle_all w id ps peer ≡ ok peer
  unfolding handle_all
  acks_beyond_ignored [] peer d live = refl
  acks_beyond_ignored (p ∷ ps) peer ((a, far, small), ds) live =
      let n = Fields.ack_nr w.target p in
      rw (plain_ack w id p peer peer live a small (note_ack-beyond w id n peer far small))
        (acks_beyond_ignored ps peer ds live)
