-- ===== src/BitIterator/Bits.antt =====
-- src/bit_iterator.rs: what the iterator yields, and the number of ones among it.
use rfs_utp.Common.{
  ℕ, zero, suc, ◌+◌, ◌-◌, ◌*◌, ◌/◌, ◌%◌, ◌^◌, ◌<◌, ◌≤◌, ◌≡◌, refl, ap, ◌∙◌, arith, List, [], ◌∷◌,
  length, get_or, All, Result, ok, panic, ltb, Bool-cases, inl, inr, ◌>>=◌, if◌then◌else◌, ◌==◌,
  Bool, true, false, none, some, get_elem?-get_or,
}
use native.Mathlib.Nat.{div-le_self}
use rfs_utp.Common.Bits.{low_bit}
use native.Mathlib.Decide.{dec_lt}
use rfs_utp.Common.Target.{Target, add_u32}
use rfs_utp.Packet.Words.{IsByte, get_or-IsByte}
use rfs_utp.BitIterator.Defs.{
  BitIterator, from_bytes, next, size_hint, count_ones_u8, count_ones, fold_ones, collect,
}

-- Bit `i` of a vector of bytes, bit 0 the lowest of the first byte.
abbrev pub bit_at : List ℕ → ℕ → Bool
bit_at bs i = get_or bs (i / 8) 0 / 2 ^ (i % 8) % 2 == 1

-- `n` bits from bit `i` on.
abbrev pub bits_from : List ℕ → ℕ → ℕ → List Bool
bits_from bs i zero = []
bits_from bs i (suc n) = bit_at bs i ∷ bits_from bs (i + 1) n

abbrev pub count_true : List Bool → ℕ
count_true [] = 0
count_true (true ∷ bs) = suc (count_true bs)
count_true (false ∷ bs) = count_true bs

pub length-bits_from : (bs : List ℕ) (i n : ℕ) → length (bits_from bs i n) ≡ n
length-bits_from bs i zero = refl
length-bits_from bs i (suc n) = ap suc (length-bits_from bs (i + 1) n)

-- The iterator at a bit.
abbrev pub at : List ℕ → ℕ → BitIterator
at obj i = record { object = obj; next_index = i; end_index = length obj * 8 }

module _ {E : Type 0} (obj : List ℕ) (h : All IsByte obj) where
  next-bit :
      (i : ℕ)
      → i < length obj * 8
      → next {E = E} (at obj i) ≡ ok (some (bit_at obj i), at obj (i + 1))
  unfolding next
  next-bit i l = ground (
    arith,
    get_elem?-get_or obj (i / 8) 0,
    get_or-IsByte obj (i / 8) h,
    div-le_self (get_or obj (i / 8) 0) (2 ^ (i % 8)),
    low_bit (get_or obj (i / 8) 0 / 2 ^ (i % 8)),
  )

  next-end : (i : ℕ) → i ≡ length obj * 8 → next {E = E} (at obj i) ≡ ok (none, at obj i)
  unfolding next
  next-end i l = ground arith

  collect-bits_from :
      (n i : ℕ)
      → i + n ≡ length obj * 8
      → collect {E = E} (suc n) (at obj i) ≡ ok (bits_from obj i n)
  unfolding collect
  collect-bits_from zero i l = rw (next-end i (omega arith))
  collect-bits_from (suc n) i l =
      rw (next-bit i (omega arith)) (rw (collect-bits_from n (i + 1) (omega arith)))

-- The iterator over a byte vector yields its bits, the lowest of the first byte first, eight for
-- each byte, and then ends; it never panics.
pub collect-from_bytes :
    {E : Type 0} (obj : List ℕ)
    → All IsByte obj
    → collect {E = E} (suc (length obj * 8)) (from_bytes obj)
      ≡ ok (bits_from obj 0 (length obj * 8))
unfolding from_bytes
collect-from_bytes obj h = collect-bits_from obj h (length obj * 8) 0 (omega arith)

bit_at-cons : (b : ℕ) (bs : List ℕ) (i : ℕ) → bit_at (b ∷ bs) (i + 8) ≡ bit_at bs i
bit_at-cons b bs i =
    let q : (i + 8) / 8 ≡ suc (i / 8) = omega arith in
    let r : (i + 8) % 8 ≡ i % 8 = omega arith in rw (q, r)

bits_from-cons : (b : ℕ) (bs : List ℕ) (i n : ℕ) → bits_from (b ∷ bs) (i + 8) n ≡ bits_from bs i n
bits_from-cons b bs i zero = refl
bits_from-cons b bs i (suc n) =
    let e : i + 8 + 1 ≡ i + 1 + 8 = omega arith in
    rw (bit_at-cons b bs i, e) (rw (bits_from-cons b bs (i + 1) n))

count_true-cons :
    (x : ℕ) (rest : List Bool) → count_true ((x % 2 == 1) ∷ rest) ≡ x % 2 + count_true rest
count_true-cons x rest = ground arith

-- The eight bits of a byte.
count_byte :
    (b : ℕ) (bs : List ℕ) (n : ℕ)
    → count_true (bits_from (b ∷ bs) 0 (8 + n)) ≡ count_ones_u8 8 b + count_true (bits_from bs 0 n)
unfolding count_ones_u8
count_byte b bs n = rw eight (simp count_true-cons (rw (bits_from-cons b bs 0 n) (omega arith)))
  where
    eight : 8 + n ≡ suc (suc (suc (suc (suc (suc (suc (suc n)))))))
    eight = omega arith

-- A number of ones as the code's u32 addition gives it.
abbrev pub as_u32 : {E : Type 0} → Target → ℕ → Result E ℕ
as_u32 t n = if ltb n (2 ^ 32) then ok n else if t.overflow_checks then panic else ok (n % 2 ^ 32)

-- One addition before the others.
u32_step :
    {E : Type 0} (t : Target) (f : ℕ → Result E ℕ) (acc c n : ℕ)
    → ((a : ℕ) → a < 2 ^ 32 → f a ≡ as_u32 t (a + n))
    → (add_u32 t acc c >>= f) ≡ as_u32 t (acc + (c + n))
unfolding add_u32
u32_step t f acc c n rest = elim (dec_lt (acc + c) (2 ^ 32)) [
  | yes small ↦
      let fits : ltb (acc + c) (2 ^ 32) ≡ true = ground arith in
      rw (fits, add_u32) (rest (acc + c) small ∙ ap (as_u32 t) {x = acc + c + n} (omega arith))
  | no large ↦
      let over : ltb (acc + c) (2 ^ 32) ≡ false = ground arith in
      let more : ltb (acc + (c + n)) (2 ^ 32) ≡ false = ground arith in
      elim (Bool-cases t.overflow_checks) [
        | inl on ↦ rw (over, more) (rw on refl)
        | inr off ↦
            rw (over, more)
              (rw (off, as_u32) (rest ((acc + c) % 2 ^ 32) (omega arith) ∙ rw off (ground arith)))
      ]
]

fold_ones-bits :
    {E : Type 0} (t : Target) (bs : List ℕ) (acc : ℕ)
    → acc < 2 ^ 32
    → fold_ones {E = E} t bs acc ≡ as_u32 t (acc + count_true (bits_from bs 0 (length bs * 8)))
unfolding fold_ones
fold_ones-bits t [] acc h = ground arith
fold_ones-bits {E} t (b ∷ bs) acc h =
    let e : suc (length bs) * 8 ≡ 8 + length bs * 8 = omega arith in
    rw e (
      rw (count_byte b bs (length bs * 8)) (
        u32_step t (fold_ones t bs) acc (count_ones_u8 8 b)
          (count_true (bits_from bs 0 (length bs * 8))) (λ a l. fold_ones-bits t bs a l)))

-- `count_ones` gives the number of ones that the iterator yields from its start, however far the
-- iterator has moved, where the number is a u32. A larger number makes it panic where overflow is
-- checked, and is reduced modulo 2 ^ 32 elsewhere.
pub count_ones-collect :
    {E : Type 0} (t : Target) (obj : List ℕ) (i : ℕ)
    → All IsByte obj
    → (bits : List Bool) × (collect {E = E} (suc (length obj * 8)) (from_bytes obj) ≡ ok bits)
      × (count_ones {E = E} t (at obj i) ≡ (
          if ltb (count_true bits) (2 ^ 32)
          then ok (count_true bits)
          else if t.overflow_checks
          then panic
          else ok (count_true bits % 2 ^ 32)))
unfolding count_ones
count_ones-collect t obj i h = (
  bits_from obj 0 (length obj * 8),
  collect-from_bytes obj h,
  fold_ones-bits t obj 0 (omega arith)
      ∙ ap (as_u32 t) {x = 0 + count_true (bits_from obj 0 (length obj * 8))} (omega arith),
)

-- Once the iterator has moved, `size_hint` is not the number of bits that are left: both of its
-- bounds are the number of all bits, which is larger by as many bits as it has moved.
pub size_hint_stale :
    {E : Type 0} (obj : List ℕ) (i : ℕ)
    → All IsByte obj
    → 0 < i
    → i ≤ length obj * 8
    → (bits : List Bool) × (collect {E = E} (suc (length obj * 8 - i)) (at obj i) ≡ ok bits)
      × (size_hint (at obj i) ≡ (length bits + i, some (length bits + i)))
      × (size_hint (at obj i) ≡ (length obj * 8, some (length obj * 8)))
      × (length bits < (size_hint (at obj i)).0)
unfolding size_hint
size_hint_stale obj i h pos le =
    let bits = bits_from obj i (length obj * 8 - i) in
    let all : length obj * 8 ≡ length bits + i =
      omega (arith, length-bits_from obj i (length obj * 8 - i)) in
    (
      bits,
      collect-bits_from obj h (length obj * 8 - i) i (omega arith),
      ap (λ n. (n, some n)) all,
      refl,
      omega (arith, all),
    )

-- Behind the last byte there are no ones.
pub bit_at-beyond : (bs : List ℕ) (i : ℕ) → length bs * 8 ≤ i → bit_at bs i ≡ false
bit_at-beyond bs i h =
    rw (get_or-beyond bs (i / 8) (omega arith)) (ground (arith, div-le_self 0 (2 ^ (i % 8))))
  where
    get_or-beyond : (xs : List ℕ) (k : ℕ) → length xs ≤ k → get_or xs k 0 ≡ 0
    get_or-beyond [] k l = refl
    get_or-beyond (x ∷ xs) zero l = absurd (omega arith)
    get_or-beyond (x ∷ xs) (suc k) l = get_or-beyond xs k (omega arith)
