-- ===== src/Tests/Suite/SmallTests.antt =====
-- src/bit_iterator.rs and src/util.rs: their test functions, but for those of ewma, which compare
-- floating-point numbers; and that they pass.
use rfs_utp.Common.{
  ℕ, suc, ◌*◌, ◌≡◌, refl, List, [], ◌∷◌, length, Bool, true, ◌&&◌, ◌==◌, not, if◌then◌else◌, Result,
  ok, ◌>>=◌,
}
use rfs_utp.Common.Int.{ℤ, pos, ◌-ℤ◌, ltb_ℤ}
use rfs_utp.Packet.Extensions.{index_at}
use rfs_utp.BitIterator.Defs.{from_bytes, collect, next}
use rfs_utp.Util.{abs_diff}
use rfs_utp.Tests.Suite.Asserts.{same_delay}

abbrev pub expected_bits : List ℕ
expected_bits = 0 ∷ 1 ∷ 0 ∷ 1 ∷ 0 ∷ 0 ∷ 1 ∷ 1 ∷ 0 ∷ 1 ∷ 1 ∷ 1 ∷ 1 ∷ 1 ∷ 1 ∷ 1 ∷ []

abbrev same_bit : Bool → Bool → Bool
same_bit a b = if a then b else not b

-- The loop over the bits, from the place `i` on.
unfoldable pub assert_bits : ℕ → List Bool → Result ⊥ Bool
assert_bits i [] = ok true
assert_bits i (bit ∷ bits) =
    let rest = assert_bits (suc i) bits in
    index_at expected_bits i >>= λ e. rest >>= λ others. ok (same_bit bit (e == 1) && others)

unfoldable pub test_iterator : Result ⊥ Bool
test_iterator =
    let bytes = 0xca ∷ 0xfe ∷ [] in
    collect (suc (length bytes * 8)) (from_bytes bytes) >>= λ bits. assert_bits 0 bits

unfoldable pub test_abs_diff : Bool
test_abs_diff =
    let a = pos 10 in
    let b = pos 5 in
    let gt = λ (x y : ℤ). ltb_ℤ y x in
    same_delay (abs_diff gt (λ x y. x -ℤ y) a b) (pos 5)
    && same_delay (abs_diff gt (λ x y. x -ℤ y) b a) (pos 5)

test_iterator_passes : test_iterator ≡ ok true
unfolding test_iterator assert_bits from_bytes collect next
test_iterator_passes = refl

test_abs_diff_passes : test_abs_diff ≡ true
unfolding test_abs_diff abs_diff ◌-ℤ◌
test_abs_diff_passes = refl
