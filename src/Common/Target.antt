-- ===== src/Common/Target.antt =====
-- What the compiled code depends on beside its text: the byte order of the target, and whether
-- integer overflow is checked (the dev profile) or wraps (the release profile of Cargo.toml).
use rfs_utp.Common.Tests.{ltb, if◌then◌else◌}
use rfs_utp.Common.Results.{Result, ok, panic}
use Prim.Native.Nat.{ℕ, ◌+◌, ◌-◌, ◌%◌, ◌<◌}
use mathlib.Core.Path.{◌≡◌}
use mathlib.Core.Bool.{Bool}
use native.Mathlib.Omega.{arith}

pub data Endian : Type 0 where
  little big : Endian

pub record Target : Type 0 where
  pub endian : Endian
  pub overflow_checks : Bool

abbrev pub u16_mod : ℕ
u16_mod = 65536

-- `a + b` on u16 values.
unfoldable pub add_u16 {ℓ} : {E : Type ℓ} → Target → ℕ → ℕ → Result E ℕ
add_u16 t a b =
    if ltb (a + b) u16_mod
    then ok (a + b)
    else if t.overflow_checks
    then panic
    else ok ((a + b) % u16_mod)

abbrev pub u32_mod : ℕ
u32_mod = 4_294_967_296

-- `a + b` on u32 values.
unfoldable pub add_u32 {ℓ} : {E : Type ℓ} → Target → ℕ → ℕ → Result E ℕ
add_u32 t a b =
    if ltb (a + b) u32_mod
    then ok (a + b)
    else if t.overflow_checks
    then panic
    else ok ((a + b) % u32_mod)

-- `a - b` on u16 values.
unfoldable pub sub_u16 {ℓ} : {E : Type ℓ} → Target → ℕ → ℕ → Result E ℕ
sub_u16 t a b =
    if ltb a b
    then if t.overflow_checks then panic else ok ((a + u16_mod - b) % u16_mod)
    else ok (a - b)

pub add_u16_ok {ℓ} :
    {E : Type ℓ} (t : Target) (a b : ℕ) → a + b < u16_mod → add_u16 {E = E} t a b ≡ ok (a + b)
unfolding add_u16
add_u16_ok t a b h = ground arith
