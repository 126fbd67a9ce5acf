-- ===== src/Packet/Words.antt =====
-- src/packet.rs: integers in a byte buffer: the loads and stores that go through a pointer to the
-- #[repr(C)] header, `from_be` and `to_be`, and the macro u8_to_unsigned_be.
use rfs_utp.Common.{
  ℕ, zero, suc, ◌+◌, ◌*◌, ◌/◌, ◌%◌, ◌^◌, ◌<◌, ◌≡◌, refl, arith, bit_or, List, [], ◌∷◌, get_or, set,
  All,
}
use rfs_utp.Common.Bits.{or_low, zero-bit_or}
use rfs_utp.Common.Target.{Endian, little, big}

abbrev pub IsByte : ℕ → Type 0
IsByte b = b < 256

-- The bytes of an integer in memory, on a target with that byte order.
unfoldable pub store_u16 : Endian → ℕ → List ℕ
store_u16 little v = v % 256 ∷ v / 256 % 256 ∷ []
store_u16 big v = v / 256 % 256 ∷ v % 256 ∷ []

unfoldable pub store_u32 : Endian → ℕ → List ℕ
store_u32 little v = v % 256 ∷ v / 256 % 256 ∷ v / 65536 % 256 ∷ v / 16777216 % 256 ∷ []
store_u32 big v = v / 16777216 % 256 ∷ v / 65536 % 256 ∷ v / 256 % 256 ∷ v % 256 ∷ []

unfoldable pub load_u16 : Endian → List ℕ → ℕ → ℕ
load_u16 little p i = get_or p i 0 + get_or p (i + 1) 0 * 256
load_u16 big p i = get_or p i 0 * 256 + get_or p (i + 1) 0

unfoldable pub load_u32 : Endian → List ℕ → ℕ → ℕ
load_u32 little p i =
    get_or p i 0
    + get_or p (i + 1) 0 * 256
    + get_or p (i + 2) 0 * 65536
    + get_or p (i + 3) 0 * 16777216
load_u32 big p i =
    get_or p i 0 * 16777216
    + get_or p (i + 1) 0 * 65536
    + get_or p (i + 2) 0 * 256
    + get_or p (i + 3) 0

-- `u16::from_be` and `u16::to_be`, which are one function: the bytes are swapped on a
-- little-endian target.
unfoldable pub swap_u16 : Endian → ℕ → ℕ
swap_u16 little x = x % 256 * 256 + x / 256 % 256
swap_u16 big x = x

-- `u32::from_be` and `u32::to_be`.
unfoldable pub swap_u32 : Endian → ℕ → ℕ
swap_u32 little x =
    x % 256 * 16777216 + x / 256 % 256 * 65536 + x / 65536 % 256 * 256 + x / 16777216 % 256
swap_u32 big x = x

-- Writes bytes over the buffer from an index on.
unfoldable pub write_bytes : List ℕ → ℕ → List ℕ → List ℕ
write_bytes p i [] = p
write_bytes p i (b ∷ bs) = write_bytes (set p i b) (i + 1) bs

-- `(0 .. n).rev().fold(acc, |acc, i| acc | src[start+i] as $t << (i * 8))`, the macro's body.
unfoldable pub u8_to_unsigned_be : List ℕ → ℕ → ℕ → ℕ → ℕ
u8_to_unsigned_be src start zero acc = acc
u8_to_unsigned_be src start (suc i) acc =
    u8_to_unsigned_be src start i (bit_or acc (get_or src (start + i) 0 * 2 ^ (i * 8)))

-- The integer on the wire: most significant byte first.
abbrev pub be_u16 : List ℕ → ℕ → ℕ
be_u16 p i = get_or p i 0 * 256 + get_or p (i + 1) 0

abbrev pub be_u32 : List ℕ → ℕ → ℕ
be_u32 p i =
    get_or p i 0 * 16777216
    + get_or p (i + 1) 0 * 65536
    + get_or p (i + 2) 0 * 256
    + get_or p (i + 3) 0

pub get_or-IsByte : (p : List ℕ) (i : ℕ) → All IsByte p → get_or p i 0 < 256
get_or-IsByte [] i h = omega arith
get_or-IsByte (x ∷ p) zero h = h.0
get_or-IsByte (x ∷ p) (suc i) h = get_or-IsByte p i h.1

-- Reading through the pointer and `from_be` gives the integer on the wire, on either target.
pub swap-load_u16 :
    (e : Endian) (p : List ℕ) (i : ℕ) → All IsByte p → swap_u16 e (load_u16 e p i) ≡ be_u16 p i
unfolding swap_u16 load_u16
swap-load_u16 little p i h = omega (arith, get_or-IsByte p i h, get_or-IsByte p (i + 1) h)
swap-load_u16 big p i h = refl

pub swap-load_u32 :
    (e : Endian) (p : List ℕ) (i : ℕ) → All IsByte p → swap_u32 e (load_u32 e p i) ≡ be_u32 p i
unfolding swap_u32 load_u32
swap-load_u32 little p i h = omega (
  arith,
  get_or-IsByte p i h,
  get_or-IsByte p (i + 1) h,
  get_or-IsByte p (i + 2) h,
  get_or-IsByte p (i + 3) h,
)
swap-load_u32 big p i h = refl

-- Writing through `to_be` puts the most significant byte first, on either target.
pub store-swap_u16 :
    (e : Endian) (v : ℕ) → v < 2 ^ 16 → store_u16 e (swap_u16 e v) ≡ v / 256 ∷ v % 256 ∷ []
unfolding swap_u16 store_u16
store-swap_u16 little v h = ground arith
store-swap_u16 big v h = ground arith

pub store-swap_u32 :
    (e : Endian) (v : ℕ)
    → v < 2 ^ 32
    → store_u32 e (swap_u32 e v) ≡ v / 16777216 ∷ v / 65536 % 256 ∷ v / 256 % 256 ∷ v % 256 ∷ []
unfolding swap_u32 store_u32
store-swap_u32 little v h = ground arith
store-swap_u32 big v h = ground arith

-- The macro composes the bytes with the first one lowest: the load of a little-endian target.
pub u8_to_unsigned_be_two :
    (p : List ℕ) (i : ℕ) → All IsByte p → u8_to_unsigned_be p i 2 0 ≡ load_u16 little p i
unfolding u8_to_unsigned_be load_u16
u8_to_unsigned_be_two p i h = ground (
  arith,
  zero-bit_or (get_or p (i + 1) 0 * 2 ^ (1 * 8)),
  or_low 8 (get_or p (i + 1) 0 * 2 ^ (1 * 8)) (get_or p (i + 0) 0 * 2 ^ (0 * 8)),
  get_or-IsByte p i h,
  get_or-IsByte p (i + 1) h,
)

or_four :
    (a b c d : ℕ)
    → a < 256
    → b < 256
    → c < 256
    → d < 256
    → bit_or (bit_or (bit_or (bit_or 0 (d * 16777216)) (c * 65536)) (b * 256)) (a * 1)
      ≡ a + b * 256 + c * 65536 + d * 16777216
or_four a b c d ha hb hc hd = ground (
  arith,
  zero-bit_or (d * 16777216),
  or_low 24 (d * 16777216) (c * 65536),
  or_low 16 (d * 16777216 + c * 65536) (b * 256),
  or_low 8 (d * 16777216 + c * 65536 + b * 256) (a * 1),
)

pub u8_to_unsigned_be_four :
    (p : List ℕ) (i : ℕ) → All IsByte p → u8_to_unsigned_be p i 4 0 ≡ load_u32 little p i
unfolding u8_to_unsigned_be load_u32
u8_to_unsigned_be_four p i h = ground (
  arith,
  or_four (get_or p i 0) (get_or p (i + 1) 0) (get_or p (i + 2) 0) (get_or p (i + 3) 0),
  get_or-IsByte p i h,
  get_or-IsByte p (i + 1) h,
  get_or-IsByte p (i + 2) h,
  get_or-IsByte p (i + 3) h,
)
