-- ===== src/DateTime.antt =====
-- `DateTime` of types/src/lib.rs, as it is read from the time that RethinkDB sends.
-- A double is its 64-bit pattern. A time of the crate chrono is made by its `from_timestamp`, which
-- panics (`none`) out of its range, and its `from_utc`.
pub mod Seconds
pub mod Rows
use reql.Base.{
  ℕ, zero, suc, ◌+◌, ◌-◌, ◌*◌, ◌/◌, ◌%◌, ◌^◌, Text, leb, ◌==◌, Bool, true, false, Option, none,
  some, ◌>>=◌, if◌then◌else◌,
}

pub data ℤ : Type 0 where
  pos negsuc : ℕ → ℤ

-- The number of an amount that is or is not below zero.
abbrev pub signed : Bool → ℕ → ℤ
signed true (suc n) = negsuc n
signed true zero = pos 0
signed false n = pos n

-- `Time`, as serde reads it.
pub record Time : Type 0 where
  pub reql_type : Text
  pub epoch_time : ℕ
  pub timezone : Text

-- The parts of a double: its amount is `numerator` over `denominator`.
abbrev pub is_negative : ℕ → Bool
is_negative x = x / 2 ^ 63 % 2 == 1

abbrev pub exponent : ℕ → ℕ
exponent x = x / 2 ^ 52 % 2 ^ 11

abbrev pub mantissa : ℕ → ℕ
mantissa x = if exponent x == 0 then x % 2 ^ 52 else 2 ^ 52 + x % 2 ^ 52

abbrev pub scale : ℕ → ℕ
scale x = if exponent x == 0 then 1 else exponent x

abbrev pub numerator : ℕ → ℕ
numerator x = mantissa x * 2 ^ (scale x - 1075)

abbrev pub denominator : ℕ → ℕ
denominator x = 2 ^ (1075 - scale x)

abbrev pub at_most : ℕ → ℕ → ℕ
at_most m n = if leb n m then n else m

-- `x.trunc() as i64`: the cast ends at the ends of the type.
unfoldable pub trunc_i64 : ℕ → ℤ
trunc_i64 x =
    let n = numerator x / denominator x in
    if is_negative x
    then signed true (at_most (2 ^ 63) n)
    else signed false (at_most (2 ^ 63 - 1) n)

-- The numerator of `x.fract().abs()`, above the same denominator.
abbrev pub fract_abs : ℕ → ℕ
fract_abs x = numerator x % denominator x

-- `x.fract().abs() as u32`
unfoldable pub fract_u32 : ℕ → ℕ
fract_u32 x = at_most (2 ^ 32 - 1) (fract_abs x / denominator x)

-- `deserialize`
unfoldable pub deserialize {ℓ κ} :
    {N : Type ℓ} {T : Type κ} → (ℤ → ℕ → Option N) → (N → T) → Time → Option T
deserialize from_timestamp from_utc time =
    let secs = trunc_i64 time.epoch_time in
    let msecs = fract_u32 time.epoch_time in
    from_timestamp secs (msecs * 1000000 % 2 ^ 32) >>= λ naive. some (from_utc naive)
