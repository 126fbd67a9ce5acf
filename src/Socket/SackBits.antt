-- ===== src/Socket/SackBits.antt =====
-- src/socket.rs: the bits of `build_selective_ack`.
use rfs_utp.Common.{
  ℕ, zero, suc, ◌+◌, ◌-◌, ◌/◌, ◌%◌, ◌^◌, ◌<◌, ◌≤◌, ◌≡◌, refl, ap, ◌∙◌, arith, List, [], ◌∷◌, ◌++◌,
  length, get_or, replicate, All, ltb, leb, ◌==◌, if◌then◌else◌, Bool, true, false, ◌||◌, none,
  some, bit_or, length-append, get_or-set_self, get_or-set_ne, All-append, All-set, Bool-cases, inl,
  inr,
}
use native.Mathlib.Decide.{ℕ_discrete}
use mathlib.Core.Logic.{◌⊎◌}
use native.Mathlib.Nat.{div-le_self}
use rfs_utp.Common.Bits.{or_bit}
use rfs_utp.Packet.Words.{IsByte, get_or-IsByte}
use rfs_utp.Packet.Fields.{Packet}
use rfs_utp.BitIterator.Bits.{bit_at}
use rfs_utp.BTreeMap.{BTreeMap, get}
use rfs_utp.Socket.State.{UtpSocketState}
use rfs_utp.Socket.Acks.{grow, set_bit, sack_bits, pad, build_selective_ack}

-- Whether the map has the key.
abbrev pub has : ℕ → BTreeMap Packet → Bool
has k m = elim (get k m) [ none ↦ false | some p ↦ true ]

get_or-zeros : (s : List ℕ) (n k : ℕ) → get_or (s ++ replicate n 0) k 0 ≡ get_or s k 0
get_or-zeros [] zero k = refl
get_or-zeros [] (suc n) zero = refl
get_or-zeros [] (suc n) (suc k) = get_or-zeros [] n k
get_or-zeros (x ∷ s) n zero = refl
get_or-zeros (x ∷ s) n (suc k) = get_or-zeros s n k

zeros-IsByte : (n : ℕ) → All IsByte (replicate n 0)
zeros-IsByte zero = tt
zeros-IsByte (suc n) = (omega arith, zeros-IsByte n)

length-zeros : (n : ℕ) → length (replicate {A = ℕ} n 0) ≡ n
length-zeros zero = refl
length-zeros (suc n) = ap suc (length-zeros n)

-- One bit of the byte that is written.
byte_bit :
    (x k j : ℕ)
    → x < 256
    → k < 8
    → j < 8
    → (bit_or x (2 ^ k) / 2 ^ j % 2 == 1) ≡ (j == k || (x / 2 ^ j % 2 == 1))
byte_bit x k j hx hk hj = ground (arith, or_bit x k j hx hk hj)

or_false : (b : Bool) → (b || false) ≡ b
or_false true = refl
or_false false = refl

bit_at-nil : (i : ℕ) → bit_at [] i ≡ false
bit_at-nil i = ground (arith, div-le_self 0 (2 ^ (i % 8)))

-- The widened vector.
abbrev wide : List ℕ → ℕ → List ℕ
wide s byte = if leb (length s) byte then grow s (byte + 1) else s

wide-get_or : (s : List ℕ) (byte k : ℕ) → get_or (wide s byte) k 0 ≡ get_or s k 0
wide-get_or s byte k = ground (arith, get_or-zeros s (byte + 1 - length s) k)

length-wide : (s : List ℕ) (byte : ℕ) → byte < length (wide s byte)
length-wide s byte =
    ground (
      arith,
      length-append s (replicate (byte + 1 - length s) 0),
      length-zeros (byte + 1 - length s),
    )

wide-IsByte : (s : List ℕ) (byte : ℕ) → All IsByte s → All IsByte (wide s byte)
wide-IsByte s byte h = elim (Bool-cases (leb (length s) byte)) [
  | inl e ↦ rw e (All-append IsByte s _ h (zeros-IsByte (byte + 1 - length s)))
  | inr e ↦ rw e h
]

set_bit-IsByte : (s : List ℕ) (d : ℕ) → All IsByte s → All IsByte (set_bit s d)
unfolding set_bit
set_bit-IsByte s d h =
    All-set IsByte (wide s (d / 8)) (d / 8) _ (wide-IsByte s (d / 8) h)
      (or_bit (get_or (wide s (d / 8)) (d / 8) 0) (d % 8) 0
        (get_or-IsByte (wide s (d / 8)) (d / 8) (wide-IsByte s (d / 8) h)) (omega arith)
        (omega arith)).1

-- `set_bit` sets its bit and no other.
bit_at-set_bit :
    (s : List ℕ) (d i : ℕ) → All IsByte s → bit_at (set_bit s d) i ≡ (i == d || bit_at s i)
unfolding set_bit
bit_at-set_bit s d i h = elim (ℕ_discrete (d / 8) (i / 8)) [
  | yes e ↦
      let x : ℕ = get_or s (i / 8) 0 in
      let written : get_or (set_bit s d) (i / 8) 0 ≡ bit_or x (2 ^ (d % 8)) = rw e (
        get_or-set_self (wide s (i / 8)) (i / 8) _ 0 (length-wide s (i / 8))
        ∙ ap (λ y. bit_or y (2 ^ (d % 8))) (wide-get_or s (i / 8) (i / 8))) in
      let same : (i % 8 == d % 8) ≡ (i == d) = ground arith in
      rw written (
        rw same at
          (byte_bit x (d % 8) (i % 8) (get_or-IsByte s (i / 8) h) (omega arith) (omega arith)))
  | no n ↦
      let kept : get_or (set_bit s d) (i / 8) 0 ≡ get_or s (i / 8) 0 =
        get_or-set_ne (wide s (d / 8)) (d / 8) (i / 8) _ 0 n ∙ wide-get_or s (d / 8) (i / 8) in
      let differs : (i == d) ≡ false = ground arith in rw (kept, differs)
]

sack_bits-IsByte :
    (last : ℕ) (m : BTreeMap Packet) (s : List ℕ) → All IsByte s → All IsByte (sack_bits last m s)
unfolding sack_bits
sack_bits-IsByte last [] s h = h
sack_bits-IsByte last ((j, p) ∷ m) s h = elim (Bool-cases (ltb last j)) [
  | inl e ↦ rw e (sack_bits-IsByte last m _ (set_bit-IsByte s (j - last - 1) h))
  | inr e ↦ rw e (sack_bits-IsByte last m s h)
]

-- The loop adds the bits of the keys above `last`.
bit_at-sack_bits :
    (last : ℕ) (m : BTreeMap Packet) (s : List ℕ) (i : ℕ)
    → All IsByte s
    → bit_at (sack_bits last m s) i ≡ (has (last + 1 + i) m || bit_at s i)
unfolding sack_bits get
bit_at-sack_bits last [] s i h = refl
bit_at-sack_bits last ((j, p) ∷ m) s i h = elim (Bool-cases (ltb last j)) [
  | inl e ↦ rw e (
      bit_at-sack_bits last m (set_bit s (j - last - 1)) i (set_bit-IsByte s (j - last - 1) h)
      ∙ rw (bit_at-set_bit s (j - last - 1) i h) (ground arith))
  | inr e ↦ rw e (bit_at-sack_bits last m s i h ∙ ground arith)
]

bit_at-pad : (f : ℕ) (s : List ℕ) (i : ℕ) → bit_at (pad f s) i ≡ bit_at s i
unfolding pad
bit_at-pad zero s i = refl
bit_at-pad (suc f) s i = elim (Bool-cases (length s % 4 == 0)) [
  | inl e ↦ rw e (bit_at-pad f s i)
  | inr e ↦ rw e (bit_at-pad f (s ++ (0 ∷ [])) i ∙ rw (get_or-zeros s 1 (i / 8)))
]

pad-IsByte : (f : ℕ) (s : List ℕ) → All IsByte s → All IsByte (pad f s)
unfolding pad
pad-IsByte zero s h = h
pad-IsByte (suc f) s h = elim (Bool-cases (length s % 4 == 0)) [
  | inl e ↦ rw e (pad-IsByte f s h)
  | inr e ↦ rw e (pad-IsByte f _ (All-append IsByte s _ h (omega arith)))
]

-- Three rounds are enough: after `f` rounds the length is a multiple of four, or `f` were too few.
length-pad :
    (f : ℕ) (s : List ℕ)
    → (length s ≤ length (pad f s))
      × ((length s % 4 ≡ 0) ⊎ (4 ≤ length s % 4 + f) → length (pad f s) % 4 ≡ 0)
unfolding pad
length-pad zero s = (omega arith, λ h. ground arith)
length-pad (suc f) s =
    let (a, b) = length-pad f s in
    let (a', b') = length-pad f (s ++ (0 ∷ [])) in
    elim (Bool-cases (length s % 4 == 0)) [
      | inl e ↦ rw e (a, λ h. b (inl (ground arith)))
      | inr e ↦ rw e (
        omega (arith, a', length-append s (0 ∷ [])),
        λ h. b' (ground (arith, length-append s (0 ∷ []))),
      )
    ]

-- The selective ACK of a peer, bit by bit: bit i is set exactly when the buffer holds a packet
-- numbered `last_acked + 1 + i`. Its length is a multiple of four, and its elements are bytes.
pub build_selective_ack_bits :
    (peer : UtpSocketState)
    → ((i : ℕ)
        → bit_at (build_selective_ack peer) i ≡ has (peer.last_acked + 1 + i) peer.out_of_order)
      × (length (build_selective_ack peer) % 4 ≡ 0)
      × All IsByte (build_selective_ack peer)
unfolding build_selective_ack
build_selective_ack_bits peer =
    let s = sack_bits peer.last_acked peer.out_of_order [] in
    (
      λ i.
          bit_at-pad 3 s i
          ∙ bit_at-sack_bits peer.last_acked peer.out_of_order [] i tt
          ∙ rw (bit_at-nil i) (or_false _),
      (length-pad 3 s).1 (ground arith),
      pad-IsByte 3 s (sack_bits-IsByte peer.last_acked peer.out_of_order [] tt),
    )
