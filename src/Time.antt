-- ===== src/Time.antt =====
-- src/time.rs: timestamps and delays in microseconds. A Timestamp is a u32 and a Delay an i64.
use rfs_utp.Common.{
  ℕ, ◌+◌, ◌*◌, ◌%◌, ◌^◌, ◌<◌, ◌≡◌, arith, Option, some, Result, ok, panic, if◌then◌else◌,
}
use rfs_utp.Common.Int.{ℤ, pos, ◌-ℤ◌, as_unsigned, is_i64, wrap_i64, pos_part, neg_part}
use rfs_utp.Common.Target.{Target}

abbrev pub Timestamp : Type 0
Timestamp = ℕ

abbrev pub Delay : Type 0
Delay = ℤ

-- `now_microseconds`, from the seconds and the microseconds within the second that the system's
-- clock gives: the product wraps as a u64, the cast keeps 32 bits, and the sum wraps.
unfoldable pub now_microseconds : ℕ → ℕ → Timestamp
now_microseconds secs subsec_micros = (secs * 1_000_000 % 2 ^ 64 % 2 ^ 32 + subsec_micros) % 2 ^ 32

-- `Sub for Timestamp`: the difference as an i64, which two u32 values cannot overflow.
unfoldable pub timestamp_sub : Timestamp → Timestamp → Delay
timestamp_sub a b = pos a -ℤ pos b

-- `Default for Timestamp`
abbrev pub timestamp_default : Timestamp
timestamp_default = 0

-- `From<u32> for Timestamp`
unfoldable pub timestamp_from_u32 : ℕ → Timestamp
timestamp_from_u32 value = value

-- `From<Timestamp> for u32`
unfoldable pub timestamp_to_u32 : Timestamp → ℕ
timestamp_to_u32 value = value

-- `From<i64> for Delay`
unfoldable pub delay_from_i64 : ℤ → Delay
delay_from_i64 value = value

-- `From<u32> for Delay`
unfoldable pub delay_from_u32 : ℕ → Delay
delay_from_u32 value = pos value

-- `From<Delay> for u32`: the cast keeps the low 32 bits.
unfoldable pub delay_to_u32 : Delay → ℕ
delay_to_u32 value = as_unsigned (2 ^ 32) value

-- `Default for Delay`
abbrev pub delay_default : Delay
delay_default = pos 0

-- `Sub for Delay`: an i64 subtraction, which can overflow.
unfoldable pub delay_sub {ℓ} : {E : Type ℓ} → Target → Delay → Delay → Result E Delay
delay_sub t a b =
    let exact = a -ℤ b in
    if is_i64 exact then ok exact else if t.overflow_checks then panic else ok (wrap_i64 exact)

-- `ToPrimitive for Delay`
unfoldable pub to_i64 : Delay → Option ℤ
to_i64 d = some d

unfoldable pub to_u64 : Delay → Option ℕ
to_u64 d = some (as_unsigned (2 ^ 64) d)

-- The clock's value is its microseconds since the epoch modulo 2 ^ 32, for any number of seconds
-- of a u64 and microseconds below a second.
pub now_microseconds_mod :
    (secs micros : ℕ) → now_microseconds secs micros ≡ (secs * 1_000_000 + micros) % 2 ^ 32
unfolding now_microseconds
now_microseconds_mod secs micros = omega arith

-- The queuing delay that CongestionControl describes, a difference of two delays that are each a
-- difference of two timestamps, does not overflow on either target; and it is the exact difference.
pub delay_sub-timestamp_sub :
    {E : Type 0} (t : Target) (a b c d : Timestamp)
    → a < 2 ^ 32
    → b < 2 ^ 32
    → c < 2 ^ 32
    → d < 2 ^ 32
    → (delay_sub {E = E} t (timestamp_sub a b) (timestamp_sub c d)
        ≡ ok (timestamp_sub a b -ℤ timestamp_sub c d))
      × (pos_part (timestamp_sub a b -ℤ timestamp_sub c d) + b + c
          ≡ neg_part (timestamp_sub a b -ℤ timestamp_sub c d) + a + d)
unfolding delay_sub timestamp_sub ◌-ℤ◌
delay_sub-timestamp_sub t a b c d ha hb hc hd = (ground arith, ground arith)
