-- ===== src/Examples/Times.antt =====
-- A time with a part of a second, as it is read (types/src/lib.rs).
use reql.Base.{ℕ, codes, ◌+◌, ◌*◌, ◌≤◌, ◌<◌, Option, some, ◌>>=◌, ◌≡◌, refl, arith}
use reql.DateTime.{
  ℤ, pos, signed, Time, is_negative, numerator, denominator, trunc_i64, fract_u32, deserialize,
}
use reql.DateTime.Seconds.{deserialize-WholeSecond}

-- 1.5 seconds.
abbrev one_and_half : Time
one_and_half = record {
  reql_type = codes "TIME";
  epoch_time = 4609434218613702656;
  timezone = codes "+00:00";
}

abbrev from_timestamp : ℤ → ℕ → Option (ℤ × ℕ)
from_timestamp secs nanos = some (secs, nanos)

abbrev from_utc : ℤ × ℕ → ℤ × ℕ
from_utc t = t

deserialize-WholeSecond_example :
    (s : ℕ) × (deserialize from_timestamp from_utc one_and_half
      ≡ (from_timestamp (signed (is_negative 4609434218613702656) s) 0 >>= λ n. some (from_utc n)))
    × (s * denominator 4609434218613702656 ≤ numerator 4609434218613702656)
    × (numerator 4609434218613702656 < (s + 1) * denominator 4609434218613702656)
deserialize-WholeSecond_example =
    deserialize-WholeSecond from_timestamp from_utc one_and_half (omega arith)

-- The half second is lost.
half_lost : deserialize from_timestamp from_utc one_and_half ≡ some (pos 1, 0)
unfolding deserialize trunc_i64 fract_u32
half_lost = refl
