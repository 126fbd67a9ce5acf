-- ===== src/Common/Bits.antt =====
-- The bit operators of Rust at variables: `|`, `&` and shifts as arithmetic.
use Prim.Native.Nat.{
  ℕ, zero, suc, ◌+◌, ◌*◌, ◌/◌, ◌%◌, ◌^◌, ◌≤◌, ◌<◌, max, bit_and, bit_or, digits, bit_or-bitwise,
}
use mathlib.Core.Path.{◌≡◌, refl, sym, ap, ◌∙◌}
use mathlib.Core.Bool.{Bool, true, false, ◌&&◌}
use native.Mathlib.Omega.{arith}
use native.Mathlib.Nat.{pow-suc, div-add-mod}
use rfs_utp.Common.Tests.{◌==◌, ==_iff, ltb, ltb→lt, if◌then◌else◌}

both_true : {x y : Bool} → (x && y) ≡ true → (x ≡ true) × (y ≡ true)
both_true {x = true} e = (refl, e)
both_true {x = false} e = cc

-- Whether a test succeeds on each byte value, or each smaller number, below a bound.
passes : (ℕ → Bool) → ℕ → Bool
passes test zero = true
passes test (suc bound) = if test bound then passes test bound else false

passes-at : (test : ℕ → Bool) (bound i : ℕ) → i < bound → passes test bound ≡ true → test i ≡ true
unfolding passes
passes-at test zero i below e = elim below [ ]
passes-at test (suc bound) i below e = ground (arith, passes-at test bound i)

low_nibble_table : passes (λ x. bit_and 15 x == x % 16) 256 ≡ true
unfolding passes
low_nibble_table = refl

-- `0x0F & x` on a byte.
pub low_nibble : (x : ℕ) → x < 256 → bit_and 15 x ≡ x % 16
low_nibble x h = (==_iff _ _).0 (passes-at _ 256 x h low_nibble_table)

low_nibble_flip_table : passes (λ x. bit_and x 15 == x % 16) 256 ≡ true
unfolding passes
low_nibble_flip_table = refl

-- `x & 0x0F` on a byte.
pub low_nibble_flip : (x : ℕ) → x < 256 → bit_and x 15 ≡ x % 16
low_nibble_flip x h = (==_iff _ _).0 (passes-at _ 256 x h low_nibble_flip_table)

low_bit_table : passes (λ x. bit_and x 1 == x % 2) 256 ≡ true
unfolding passes
low_bit_table = refl

-- `x & 1` on a byte.
pub low_bit : (x : ℕ) → x < 256 → bit_and x 1 ≡ x % 2
low_bit x h = (==_iff _ _).0 (passes-at _ 256 x h low_bit_table)

abbrev or_digits : ℕ → ℕ → ℕ → ℕ
or_digits fuel x y = digits (λ v. v) max fuel x y

-- The fuel does not matter where it covers the left number.
same_digits : (y x j k : ℕ) → x ≤ j → x ≤ k → or_digits j x y ≡ or_digits k x y
same_digits y zero zero zero hj hk = refl
same_digits y zero zero (suc k) hj hk = refl
same_digits y zero (suc j) zero hj hk = refl
same_digits y zero (suc j) (suc k) hj hk = refl
same_digits y (suc x) zero k hj hk = elim hj [ ]
same_digits y (suc x) (suc j) zero hj hk = elim hk [ ]
same_digits y (suc x) (suc j) (suc k) hj hk =
    omega (arith, same_digits (y / 2) (suc x / 2) j k (omega arith) (omega arith))

pub zero-bit_or : (b : ℕ) → bit_or 0 b ≡ b
zero-bit_or b = bit_or-bitwise 0 b

-- The lowest digit apart from the others.
or_halves : (x y : ℕ) → bit_or x y ≡ max (x % 2) (y % 2) + 2 * bit_or (x / 2) (y / 2)
or_halves zero y = omega (arith, zero-bit_or (y / 2), zero-bit_or y)
or_halves (suc x) y =
    let top = bit_or-bitwise (suc x) y in
    let rest = bit_or-bitwise (suc x / 2) (y / 2) in
    let same = same_digits (y / 2) (suc x / 2) (suc x / 2) x (omega arith) (omega arith) in
    omega (arith, top, rest, same)

bit_or-zero_fuel : (n a : ℕ) → a ≤ n → bit_or a 0 ≡ a
bit_or-zero_fuel n zero h = refl
bit_or-zero_fuel zero (suc a) h = absurd (omega arith)
bit_or-zero_fuel (suc n) (suc a) h =
    omega (arith, or_halves (suc a) 0, bit_or-zero_fuel n (suc a / 2) (omega arith))

pub bit_or-zero : (a : ℕ) → bit_or a 0 ≡ a
bit_or-zero a = bit_or-zero_fuel a a (omega arith)

double_shift : (k a : ℕ) → a * 2 ^ suc k ≡ a * 2 ^ k * 2
double_shift k a = rw pow-suc (omega arith)

-- `a << k | b` is a sum where `b` fits in the `k` bits that the shift frees.
pub shift_or : (k a b : ℕ) → b < 2 ^ k → bit_or (a * 2 ^ k) b ≡ a * 2 ^ k + b
shift_or zero a b h = let e : b ≡ 0 = omega arith in rw e (bit_or-zero (a * 2 ^ 0) ∙ omega arith)
shift_or (suc k) a b h =
    let e : 2 ^ suc k ≡ 2 ^ k * 2 = pow-suc 2 k in
    let s : a * 2 ^ suc k ≡ a * 2 ^ k * 2 = double_shift k a in
    let half : a * 2 ^ k * 2 / 2 ≡ a * 2 ^ k = omega arith in
    rw s (
      or_halves (a * 2 ^ k * 2) b ∙ rw half (rw (shift_or k a (b / 2) (omega arith)) (omega arith)))

-- `acc | b` is a sum where `b` fits below the bits of `acc`.
pub or_low : (k acc b : ℕ) → acc % 2 ^ k ≡ 0 → b < 2 ^ k → bit_or acc b ≡ acc + b
or_low k acc b m h =
    let e : acc ≡ acc / 2 ^ k * 2 ^ k = omega (arith, div-add-mod acc (2 ^ k)) in
    ap (λ x. bit_or x b) e ∙ shift_or k (acc / 2 ^ k) b h ∙ ap (λ x. x + b) (sym e)

-- Setting one bit of a byte, bit by bit.
sets_bit : ℕ → ℕ → ℕ → Bool
sets_bit x k j =
    (bit_or x (2 ^ k) / 2 ^ j % 2 == (if j == k then 1 else x / 2 ^ j % 2))
    && ltb (bit_or x (2 ^ k)) 256

sets_bit_table : passes (λ x. passes (λ k. passes (sets_bit x k) 8) 8) 256 ≡ true
unfolding passes sets_bit
sets_bit_table = refl

pub or_bit :
    (x k j : ℕ)
    → x < 256
    → k < 8
    → j < 8
    → (bit_or x (2 ^ k) / 2 ^ j % 2 ≡ (if j == k then 1 else x / 2 ^ j % 2))
      × (bit_or x (2 ^ k) < 256)
unfolding sets_bit
or_bit x k j hx hk hj =
    let byte = passes-at (λ x. passes (λ k. passes (sets_bit x k) 8) 8) 256 x hx sets_bit_table in
    let bit = passes-at (λ k. passes (sets_bit x k) 8) 8 k hk byte in
    let (a, b) = both_true (passes-at (sets_bit x k) 8 j hj bit) in ((==_iff _ _).0 a, ltb→lt _ _ b)
