-- ===== src/Socket/Split.antt =====
-- src/socket.rs: `get_lost_seq_nr` on a packet with one selective ACK.
use rfs_utp.Common.{
  ℕ, zero, suc, ◌+◌, ◌-◌, ◌*◌, ◌%◌, ◌≤◌, ◌≡◌, refl, ap, ◌∙◌, arith, List, [], ◌∷◌, ◌++◌, length, ok,
  ltb, leb, ◌==◌, Bool, true, false, not, ◌||◌, ◌&&◌, none, some, All, if◌then◌else◌,
}
use mathlib.Core.Path.{ap₂}
use native.Mathlib.Decide.{ℕ_discrete}
use mathlib.Core.List.{append_assoc, append-nil}
use rfs_utp.Common.Target.{Target, add_u16_ok}
use rfs_utp.Packet.Types.{selective_ack}
use rfs_utp.Packet.Words.{IsByte}
use rfs_utp.Packet.Fields
use rfs_utp.Packet.Fields.{Packet}
use rfs_utp.Packet.Parse.{IsWellFormed}
use rfs_utp.Packet.Reading.{reads_chain}
use rfs_utp.BitIterator.Bits.{bit_at, bits_from, collect-from_bytes, length-bits_from}
use rfs_utp.BTreeMap.{BTreeMap, get, remove, remove_all, last_key_value, IsSorted}
use rfs_utp.BTreeMap.Laws.{get-remove, remove-IsSorted}
use rfs_utp.Socket.State.{UtpSocketState}
use rfs_utp.Socket.Acks.{Split, split_bits, split_extensions, get_lost_seq_nr}

-- The numbers below `limit`, from `n` on, whose bit is `b`.
unfoldable pub select : Bool → ℕ → ℕ → List Bool → List ℕ
select b limit n [] = []
select b limit n (x ∷ xs) =
    (if ltb n limit && (if b then x else not x) then n ∷ [] else []) ++ select b limit (n + 1) xs

pub member : ℕ → List ℕ → Bool
member k [] = false
member k (x ∷ xs) = k == x || member k xs

member-append : (k : ℕ) (xs ys : List ℕ) → member k (xs ++ ys) ≡ (member k xs || member k ys)
unfolding member
member-append k [] ys = refl
member-append k (x ∷ xs) ys = ground (arith, member-append k xs ys)

-- Where no number overflows the loop sorts the numbers by their bits.
pub split_bits_lem :
    {E : Type 0} (t : Target) (a limit idx : ℕ) (bits : List Bool) (s : Split)
    → a + 1 + idx + length bits ≤ 65536
    → split_bits {E = E} t a limit idx bits s
      ≡ ok (record {
        acked = s.acked ++ select true limit (a + 1 + idx) bits;
        lost = s.lost ++ select false limit (a + 1 + idx) bits;
      })
unfolding split_bits select
split_bits_lem t a limit idx [] s h = rw (append-nil, append-nil)
split_bits_lem {E} t a limit idx (x ∷ bits) s h =
    let m : idx % 65536 ≡ idx = omega arith in
    let n : a + 1 + (idx + 1) ≡ a + 1 + idx + 1 = omega arith in
    rw (add_u16_ok {E = E} t a 1 (omega arith), m, add_u16_ok {E = E} t (a + 1) idx (omega arith))
      (split_bits_lem {E = E} t a limit (idx + 1) bits _ (omega arith)
        ∙ rw n (
            ground (
              arith,
              append_assoc s.acked ((a + 1 + idx) ∷ []) (select true limit (a + 1 + idx + 1) bits),
              append_assoc s.lost ((a + 1 + idx) ∷ []) (select false limit (a + 1 + idx + 1) bits),
            )))

abbrev tabulate : (ℕ → Bool) → ℕ → ℕ → List Bool
tabulate f i zero = []
tabulate f i (suc c) = f i ∷ tabulate f (i + 1) c

bits_from-tabulate : (bv : List ℕ) (i c : ℕ) → bits_from bv i c ≡ tabulate (bit_at bv) i c
bits_from-tabulate bv i zero = refl
bits_from-tabulate bv i (suc c) = ap (◌∷◌ (bit_at bv i)) (bits_from-tabulate bv (i + 1) c)

member_head : (k n : ℕ) (x : Bool) → member k (if x then n ∷ [] else []) ≡ (k == n && x)
unfolding member
member_head k n true = ground arith
member_head k n false = ground arith

-- The first number, or one of the others.
in_range :
    (k n c limit : ℕ) (here there : Bool)
    → (k ≡ n → here ≡ there)
    → ((k == n && (ltb n limit && here))
        || ((leb (n + 1) k && ltb k (n + 1 + c)) && (ltb k limit && there)))
      ≡ ((leb n k && ltb k (n + suc c)) && (ltb k limit && there))
in_range k n c limit here there h = elim (ℕ_discrete k n) [
  | yes e ↦ rw (h e) (rw e (ground arith))
  | no e ↦ ground arith
]

-- Which numbers are selected.
member-select :
    (b : Bool) (limit n k i c : ℕ) (f : ℕ → Bool)
    → member k (select b limit n (tabulate f i c)) ≡ (
        (leb n k && ltb k (n + c))
        && (ltb k limit && (if b then f (i + k - n) else not (f (i + k - n)))))
unfolding select
member-select b limit n k i zero f = unfold member in ground arith
member-select b limit n k i (suc c) f =
    let next : i + 1 + k - (n + 1) ≡ i + k - n = omega arith in
    let test = λ (x : Bool). if b then x else not x in
    member-append k (if ltb n limit && test (f i) then n ∷ [] else []) _
    ∙ ap₂ ◌||◌ (member_head k n (ltb n limit && test (f i)))
        (rw next at (member-select b limit (n + 1) k (i + 1) c f))
    ∙ in_range k n c limit (test (f i)) (test (f (i + k - n)))
        (λ e. ap (λ j. test (f j)) (omega arith))

pub get-remove_all :
    (ks : List ℕ) (k : ℕ) (m : BTreeMap Packet)
    → IsSorted m
    → get k (remove_all ks m) ≡ (if member k ks then none else get k m)
unfolding remove_all member
get-remove_all [] k m s = refl
get-remove_all (j ∷ ks) k m s =
    ground (arith, get-remove_all ks k (remove j m) (remove-IsSorted j m s), get-remove j k m s)

-- What the sender reads in a selective ACK `bv` behind the number `a`, below the last key of its
-- window.
pub record Lost (t : Target) (q : Packet) (peer : UtpSocketState) (a limit : ℕ) (bv : List ℕ)
    : Type 0 where
  pub lost : List ℕ
  pub acked : List ℕ
  pub result :
      get_lost_seq_nr {E = ⊥} t q peer
      ≡ ok (lost, record peer { sent_window = remove_all acked peer.sent_window })
  pub lost_iff :
      (k : ℕ)
      → member k lost ≡ (
          (leb (a + 1) k && ltb k (a + 1 + length bv * 8))
          && (ltb k limit && not (bit_at bv (k - (a + 1)))))
  pub acked_iff :
      (k : ℕ)
      → member k acked ≡ (
          (leb (a + 1) k && ltb k (a + 1 + length bv * 8))
          && (ltb k limit && bit_at bv (k - (a + 1))))

module _ (t : Target) (q : Packet) (peer : UtpSocketState) (limit : ℕ) (last : Packet)
    (bv pl : List ℕ) (w : IsWellFormed q (record { ty = selective_ack; bytes = bv } ∷ []) pl)
    (b : All IsByte bv) (window : last_key_value peer.sent_window ≡ some (limit, last))
    (room : Fields.ack_nr t q + 1 + length bv * 8 ≤ 65536) where
  abbrev a : ℕ
  a = Fields.ack_nr t q

  abbrev sorted_out : Bool → List ℕ
  sorted_out x = select x limit (a + 1) (bits_from bv 0 (length bv * 8))

  length-bits : length (bits_from bv 0 (length bv * 8)) ≡ length bv * 8
  length-bits = length-bits_from bv 0 (length bv * 8)

  member-sorted_out :
      (x : Bool) (k : ℕ)
      → member k (sorted_out x) ≡ (
          (leb (a + 1) k && ltb k (a + 1 + length bv * 8))
          && (ltb k limit
              && (if x then bit_at bv (0 + k - (a + 1)) else not (bit_at bv (0 + k - (a + 1))))))
  member-sorted_out x k =
      rw (bits_from-tabulate bv 0 (length bv * 8))
        (member-select x limit (a + 1) k 0 (length bv * 8) (bit_at bv))

  get_lost_result :
      get_lost_seq_nr {E = ⊥} t q peer
      ≡ ok (
        sorted_out false,
        record peer { sent_window = remove_all (sorted_out true) peer.sent_window },
      )
  unfolding get_lost_seq_nr split_extensions
  get_lost_result =
      rw ((reads_chain {E = ⊥} q (record { ty = selective_ack; bytes = bv } ∷ []) pl w).1) (
        rw window (
          rw (collect-from_bytes {E = ⊥} bv b) (
            rw
              (split_bits_lem {E = ⊥} t a limit 0 (bits_from bv 0 (length bv * 8))
                (record { acked = []; lost = [] }) (omega (arith, length-bits)))
              (ap
                (λ n. ok (
                  select false limit n (bits_from bv 0 (length bv * 8)),
                  record peer {
                    sent_window =
                        remove_all (select true limit n (bits_from bv 0 (length bv * 8)))
                          peer.sent_window;
                  },
                ))
                {x = a + 1 + 0} {y = a + 1} (omega arith)))))

  -- The sender that reads a well formed packet with one selective ACK, whose numbers stay in the
  -- u16 range and whose window is not empty: `get_lost_seq_nr` gives a result and does not panic;
  -- of the numbers that the bits stand for, from `ack_nr + 1` on, and that lie below the last key
  -- of the window, it reports exactly those with a bit of 0 as lost, and it takes exactly those
  -- with a bit of 1 out of the window. It is about this function only, and not about what the
  -- handler does with its result.
  pub Lost-of : Lost t q peer a limit bv
  Lost-of =
      let e : (k : ℕ) → 0 + k ≡ k = λ k. omega arith in
      record {
        lost = sorted_out false;
        acked = sorted_out true;
        result = get_lost_result;
        lost_iff = λ k. rw (e k) at (member-sorted_out false k);
        acked_iff = λ k. rw (e k) at (member-sorted_out true k);
      }
