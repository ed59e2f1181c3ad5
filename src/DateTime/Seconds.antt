-- ===== src/DateTime/Seconds.antt =====
-- The time that is read and the time that RethinkDB sends (types/src/lib.rs).
use native.Mathlib.Nat.{div-eq_of_lt, mod-lt}
use reql.Base.{
  ℕ, zero, suc, ◌+◌, ◌-◌, ◌*◌, ◌/◌, ◌%◌, ◌^◌, ◌≤◌, ◌<◌, Bool, true, false, Option, some, ◌>>=◌,
  if◌then◌else◌, ◌≡◌, refl, arith,
}
use reql.DateTime.{
  ℤ, signed, Time, is_negative, numerator, denominator, at_most, trunc_i64, fract_abs, fract_u32,
  deserialize,
}

power_pos : (n : ℕ) → 0 < 2 ^ n
power_pos zero = omega arith
power_pos (suc n) = omega (arith, power_pos n)

floor_of_part : (n d : ℕ) → 0 < d → n % d / d ≡ 0
floor_of_part n d h = div-eq_of_lt (mod-lt n h)

floor_le : (n d : ℕ) → 0 < d → n / d * d ≤ n
floor_le n d h = omega arith

below_next : (n d : ℕ) → 0 < d → n < (n / d + 1) * d
below_next n d h = omega arith

at_most_below : (m n : ℕ) → n ≤ m → at_most m n ≡ n
at_most_below m n h = ground arith

-- A part of one second has no whole milliseconds in it.
fract_u32-zero : (x : ℕ) → fract_u32 x ≡ 0
unfolding fract_u32
fract_u32-zero x =
    let h : 0 < denominator x = power_pos _ in
    let q : fract_abs x / denominator x ≡ 0 = floor_of_part (numerator x) (denominator x) h in
    rw q refl

trunc_i64-whole :
    (x : ℕ)
    → numerator x / denominator x < 2 ^ 63
    → trunc_i64 x ≡ signed (is_negative x) (numerator x / denominator x)
unfolding trunc_i64
trunc_i64-whole x h = by_sign (is_negative x)
  where
    by_sign :
        (b : Bool)
        → (if b
            then signed true (at_most (2 ^ 63) (numerator x / denominator x))
            else signed false (at_most (2 ^ 63 - 1) (numerator x / denominator x)))
          ≡ signed b (numerator x / denominator x)
    by_sign true = rw (at_most_below (2 ^ 63) (numerator x / denominator x) (omega arith)) refl
    by_sign false = rw (at_most_below (2 ^ 63 - 1) (numerator x / denominator x) (omega arith)) refl

-- The time that is read is that of a whole second, with no part of a second, whatever milliseconds
-- were sent: the second `s` whose distance to the sent time is less than one, towards zero.
pub deserialize-WholeSecond {ℓ κ} :
    {N : Type ℓ} {T : Type κ}
    → (from_timestamp : ℤ → ℕ → Option N) (from_utc : N → T) (time : Time)
    → numerator time.epoch_time / denominator time.epoch_time < 2 ^ 63
    → (s : ℕ) × (deserialize from_timestamp from_utc time ≡ (
        from_timestamp (signed (is_negative time.epoch_time) s) 0 >>= λ naive.
        some (from_utc naive)))
      × (s * denominator time.epoch_time ≤ numerator time.epoch_time)
      × (numerator time.epoch_time < (s + 1) * denominator time.epoch_time)
unfolding deserialize
deserialize-WholeSecond from_timestamp from_utc time h =
    let x = time.epoch_time in
    let d : 0 < denominator x = power_pos _ in
    (
      numerator x / denominator x,
      rw (trunc_i64-whole x h, fract_u32-zero x) refl,
      floor_le (numerator x) (denominator x) d,
      below_next (numerator x) (denominator x) d,
    )
