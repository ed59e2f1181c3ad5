-- ===== src/Base/Decimal.antt =====
-- `format!("{}", n)` of a number: its decimal digits.
use Prim.Native.Nat.{ℕ, zero, suc, ◌+◌, ◌-◌, ◌*◌, ◌/◌, ◌%◌, ◌<◌, ◌≤◌}
use mathlib.Core.Path.{◌≡◌}
use mathlib.Core.Logic.{inl, inr}
use mathlib.Core.List.{[], ◌∷◌, ◌++◌, foldl, foldl-append}
use native.Mathlib.Omega.{arith}
use reql.Base.Tests.{ltb, if◌then◌else◌, Bool-cases}
use reql.Base.Lists.{length, length-append, All, All-append}
use reql.Base.Bytes.{Text, IsSolid, IsSolid-append, IsSolid-one}

digits : ℕ → ℕ → Text
digits zero n = []
digits (suc fuel) n =
    let more = digits fuel (n / 10) ++ ((48 + n % 10) ∷ []) in
    if ltb n 10 then (48 + n) ∷ [] else more

-- A number has at most as many digits as its value and one more.
unfoldable pub show : ℕ → Text
unfolding digits
show n = digits (n + 1) n

-- The number that decimal digits spell.
abbrev pub read_number : Text → ℕ
read_number = foldl (λ acc c. acc * 10 + (c - 48)) 0

read_number-digits : (fuel n : ℕ) → n < fuel → read_number (digits fuel n) ≡ n
unfolding digits
read_number-digits zero n h = absurd (omega arith)
read_number-digits (suc fuel) n h = elim (Bool-cases (ltb n 10)) [
  | inl small ↦ rw small (omega arith)
  | inr big ↦
      rw (big, foldl-append)
        (let ih : read_number (digits fuel (n / 10)) ≡ n / 10 =
            read_number-digits fuel (n / 10) (ground arith) in
          rw ih (omega arith))
]

-- The fuel of `show` is enough: the digits spell the number.
pub read_number-show : (n : ℕ) → read_number (show n) ≡ n
unfolding show
read_number-show n = read_number-digits (n + 1) n (omega arith)

digits-IsSolid : (fuel n : ℕ) → n < fuel → IsSolid 44 (digits fuel n)
unfolding digits
digits-IsSolid zero n h = absurd (omega arith)
digits-IsSolid (suc fuel) n h = elim (Bool-cases (ltb n 10)) [
  | inl small ↦ rw small (IsSolid-one 44 (48 + n) (λ e. omega arith))
  | inr big ↦
      rw big (
        IsSolid-append 44 (digits fuel (n / 10)) _
          (IsSolid-one 44 (48 + n % 10) (λ e. omega arith)))
]

-- No number ends in a comma.
pub show-IsSolid : (n : ℕ) → IsSolid 44 (show n)
unfolding show
show-IsSolid n = digits-IsSolid (n + 1) n (omega arith)

length-digits : (fuel n : ℕ) → length (digits fuel n) ≤ fuel
unfolding digits
length-digits zero n = omega arith
length-digits (suc fuel) n = elim (Bool-cases (ltb n 10)) [
  | inl small ↦ rw small (omega arith)
  | inr big ↦
      rw (big, length-append (digits fuel (n / 10)) ((48 + n % 10) ∷ []))
        (omega (arith, length-digits fuel (n / 10)))
]

-- A crude bound: a number has no more digits than its value and one.
pub length-show : (n : ℕ) → length (show n) ≤ n + 1
unfolding show
length-show n = length-digits (n + 1) n

-- A decimal digit.
abbrev pub IsDigit : ℕ → Type 0
IsDigit c = (48 ≤ c) × (c < 58)

digits-IsDigit : (fuel n : ℕ) → All IsDigit (digits fuel n)
unfolding digits
digits-IsDigit zero n = tt
digits-IsDigit (suc fuel) n = elim (Bool-cases (ltb n 10)) [
  | inl small ↦ rw small ((omega arith, ground arith), tt)
  | inr big ↦ rw big (
      All-append IsDigit (digits fuel (n / 10)) _ (digits-IsDigit fuel (n / 10))
        ((omega arith, omega arith), tt))
]

pub show-IsDigit : (n : ℕ) → All IsDigit (show n)
unfolding show
show-IsDigit n = digits-IsDigit (n + 1) n
