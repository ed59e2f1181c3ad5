-- ===== src/Base/Bytes.antt =====
-- Text as the list of its bytes, with the string operations that the driver calls.
use Prim.Native.Nat.{ℕ}
use Prim.Native.Char.{code}
use Prim.Native.String.{String}
use mathlib.Core.Path.{◌≡◌, refl}
use mathlib.Core.Logic.{◌≢◌, ◌↔◌}
use mathlib.Core.Bool.{Bool, true, false, ◌&&◌}
use mathlib.Core.List.{List, [], ◌∷◌, ◌++◌}
use native.Mathlib.Omega.{arith}
use reql.Base.Tests.{◌==◌, if◌then◌else◌}

abbrev pub Text : Type 0
Text = List ℕ

-- The bytes of an ASCII literal.
abbrev pub codes : String → Text
codes String.[] = []
codes (String.◌∷◌ c s) = code c ∷ codes s

-- `a == b` on strings.
unfoldable pub text_eq : Text → Text → Bool
text_eq [] [] = true
text_eq [] (y ∷ ys) = false
text_eq (x ∷ xs) [] = false
text_eq (x ∷ xs) (y ∷ ys) = (x == y) && text_eq xs ys

-- `s.starts_with(p)`
unfoldable pub starts_with : Text → Text → Bool
starts_with [] s = true
starts_with (p ∷ ps) [] = false
starts_with (p ∷ ps) (x ∷ xs) = (p == x) && starts_with ps xs

-- `parts.join(sep)`
unfoldable pub join : Text → List Text → Text
join sep [] = []
join sep (x ∷ []) = x
join sep (x ∷ y ∷ ys) = x ++ (sep ++ join sep (y ∷ ys))

abbrev pub keep : ℕ → ℕ → Text → Text
keep c x [] = if x == c then [] else x ∷ []
keep c x (y ∷ ys) = x ∷ y ∷ ys

-- `s.trim_right_matches(c)`: every `c` at the end goes.
unfoldable pub trim_right : ℕ → Text → Text
trim_right c [] = []
trim_right c (x ∷ xs) = keep c x (trim_right c xs)

-- A text that is not empty and does not end in `c`.
pub record IsSolid (c : ℕ) (s : Text) : Type 0 where
  pub trimmed : trim_right c s ≡ s
  pub filled : s ≢ []

keep-ne-nil : (c x : ℕ) (s : Text) → s ≢ [] → keep c x s ≡ x ∷ s
keep-ne-nil c x [] h = absurd (h refl)
keep-ne-nil c x (y ∷ ys) h = refl

pub IsSolid-cons : (c x : ℕ) (s : Text) → IsSolid c s → IsSolid c (x ∷ s)
unfolding trim_right
IsSolid-cons c x s h = record { trimmed = rw h.trimmed (keep-ne-nil c x s h.filled); filled = cc }

pub IsSolid-append : (c : ℕ) (p s : Text) → IsSolid c s → IsSolid c (p ++ s)
IsSolid-append c [] s h = h
IsSolid-append c (x ∷ p) s h = IsSolid-cons c x (p ++ s) (IsSolid-append c p s h)

pub IsSolid-one : (c x : ℕ) → (x ≡ c → ⊥) → IsSolid c (x ∷ [])
unfolding trim_right
IsSolid-one c x h = record { trimmed = ground arith; filled = cc }

pub trim_right-snoc : (c : ℕ) (s : Text) → trim_right c (s ++ (c ∷ [])) ≡ trim_right c s
unfolding trim_right
trim_right-snoc c [] = ground arith
trim_right-snoc c (x ∷ s) = rw (trim_right-snoc c s)

text_eq_self : (s : Text) → text_eq s s ≡ true
unfolding text_eq
text_eq_self [] = refl
text_eq_self (x ∷ xs) = ground (arith, text_eq_self xs)

text_eq_sound : (s t : Text) → text_eq s t ≡ true → s ≡ t
unfolding text_eq
text_eq_sound [] [] h = refl
text_eq_sound [] (y ∷ t) h = cc
text_eq_sound (x ∷ s) [] h = cc
text_eq_sound (x ∷ s) (y ∷ t) h = ground (arith, text_eq_sound s t)

pub text_eq_iff : (s t : Text) → (text_eq s t ≡ true) ↔ (s ≡ t)
text_eq_iff s t = (text_eq_sound s t, λ e. rw (← e) (text_eq_self s))
