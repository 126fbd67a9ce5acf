-- ===== src/BitIterator/Defs.antt =====
-- src/bit_iterator.rs: the bits of a vector of bytes, lowest bit of the first byte first.
use rfs_utp.Common.{
  ℕ, zero, suc, ◌+◌, ◌*◌, ◌/◌, ◌%◌, ◌^◌, List, [], ◌∷◌, length, Result, ok, hang, ◌>>=◌, ◌==◌,
  if◌then◌else◌, Bool, Option, none, some, bit_and,
}
use rfs_utp.Common.Target.{Target, add_u32}
use rfs_utp.Packet.Extensions.{index_at}

abbrev pub u8_bits : ℕ
u8_bits = 8

pub record BitIterator : Type 0 where
  pub object : List ℕ
  pub next_index : ℕ
  pub end_index : ℕ

unfoldable pub from_bytes : List ℕ → BitIterator
from_bytes obj = record { object = obj; next_index = 0; end_index = length obj * u8_bits }

-- `Iterator::next`, with the iterator that it leaves.
unfoldable pub next {ℓ} : {E : Type ℓ} → BitIterator → Result E (Option Bool × BitIterator)
next it =
    if it.next_index == it.end_index
    then ok (none, it)
    else (index_at it.object (it.next_index / u8_bits) >>= λ byte.
        let bit = bit_and (byte / 2 ^ (it.next_index % u8_bits)) 1 in
        ok (some (bit == 1), record it { next_index = it.next_index + 1 }))

-- `Iterator::size_hint`: the lower and the upper bound.
unfoldable pub size_hint : BitIterator → ℕ × Option ℕ
size_hint it = (it.end_index, some it.end_index)

-- `u8::count_ones`
unfoldable pub count_ones_u8 : ℕ → ℕ → ℕ
count_ones_u8 zero b = 0
count_ones_u8 (suc k) b = b % 2 + count_ones_u8 k (b / 2)

-- The fold of `count_ones`, with an accumulator of type u32.
unfoldable pub fold_ones {ℓ} : {E : Type ℓ} → Target → List ℕ → ℕ → Result E ℕ
fold_ones t [] acc = ok acc
fold_ones t (bv ∷ bvs) acc =
    add_u32 t acc (count_ones_u8 u8_bits bv) >>= λ acc'. fold_ones t bvs acc'

-- `count_ones`
unfoldable pub count_ones {ℓ} : {E : Type ℓ} → Target → BitIterator → Result E ℕ
count_ones t it = fold_ones t it.object 0

-- A loop over the iterator: the bits in order.
unfoldable pub collect {ℓ} : {E : Type ℓ} → ℕ → BitIterator → Result E (List Bool)
collect zero it = hang
collect (suc f) it =
    next it >>= λ r. elim r.0 [ none ↦ ok [] | some b ↦ (collect f r.1 >>= λ bs. ok (b ∷ bs)) ]
