-- ===== src/Build/Docs/Lines.antt =====
-- The bytes of what the string operations of the build script give, and lines.
use reql.Base.{
  ℕ, zero, suc, ◌-◌, Text, ◌==◌, ◌||◌, starts_with, length, Bool, Bool-cases, true, false, Option,
  none, some, List, [], ◌∷◌, map, ◌>>=◌, if◌then◌else◌, All, All-append, ◌≡◌, ◌≢◌, refl, arith, inl,
  inr,
}
use reql.Build.Docs.{images, github, fixup}
use reql.Build.Strings.{
  is_dot, concat, lines, split_lines, drop_return, is_space, trim, trim_left, trim_end, keep_end,
  to_first, split_dot, replace, replace_from,
}

-- A text without a newline.
abbrev pub IsLine : Text → Type 0
IsLine s = All (λ c. c ≢ 10) s

-- What holds of both sides of a conditional.
if-Holds {ℓ} :
    {A : Type ℓ} → (Q : A → Type 0) (b : Bool) (x y : A) → Q x → Q y → Q (if b then x else y)
if-Holds Q true x y h h' = h
if-Holds Q false x y h h' = h'

module _ (P : ℕ → Type 0) where
  pub All-drop_return : (s : Text) → All P s → All P (drop_return s)
  unfolding drop_return
  All-drop_return [] h = tt
  All-drop_return (x ∷ []) h = if-Holds (All P) (x == 13) [] (x ∷ []) tt h
  All-drop_return (x ∷ y ∷ ys) (p, h) = (p, All-drop_return (y ∷ ys) h)

  pub All-trim_left : (f : ℕ → Bool) (s : Text) → All P s → All P (trim_left f s)
  All-trim_left f [] h = tt
  All-trim_left f (x ∷ xs) (p, h) =
      if-Holds (All P) (f x) (trim_left f xs) (x ∷ xs) (All-trim_left f xs h) (p, h)

  All-keep_end : (f : ℕ → Bool) (x : ℕ) (s : Text) → P x → All P s → All P (keep_end f x s)
  All-keep_end f x [] p h = if-Holds (All P) (f x) [] (x ∷ []) tt (p, tt)
  All-keep_end f x (y ∷ ys) p h = (p, h)

  All-trim_end : (f : ℕ → Bool) (s : Text) → All P s → All P (trim_end f s)
  All-trim_end f [] h = tt
  All-trim_end f (x ∷ xs) (p, h) = All-keep_end f x _ p (All-trim_end f xs h)

  pub All-trim : (s : Text) → All P s → All P (trim s)
  All-trim s h = All-trim_end is_space _ (All-trim_left is_space s h)

  All-replace_from :
      (p r : Text) (n : ℕ) (s : Text) → All P r → All P s → All P (replace_from p r n s)
  unfolding replace_from
  All-replace_from p r n [] hr hs = tt
  All-replace_from p r (suc n) (x ∷ xs) hr (h, hs) = All-replace_from p r n xs hr hs
  All-replace_from p r zero (x ∷ xs) hr (h, hs) =
      if-Holds (All P) (starts_with p (x ∷ xs)) _ _
        (All-append P r _ hr (All-replace_from p r (length p - 1) xs hr hs))
        (h, All-replace_from p r 0 xs hr hs)

  pub All-replace : (p r s : Text) → All P r → All P s → All P (replace p r s)
  All-replace p r s hr hs = All-replace_from p r 0 s hr hs

All-to_first : (x : ℕ) (ls : List Text) → x ≢ 10 → All IsLine ls → All IsLine (to_first x ls)
All-to_first x [] p h = ((p, tt), tt)
All-to_first x (l ∷ ls) p (h, hs) = ((p, h), hs)

next_line :
    (x : ℕ) (ls : List Text)
    → All IsLine ls
    → All IsLine (if x == 10 then [] ∷ ls else to_first x ls)
next_line x ls h = elim (Bool-cases (x == 10)) [
  | inl q ↦ rw q (tt, h)
  | inr q ↦ rw q (All-to_first x ls (λ e. ground (arith, e)) h)
]

IsLine-split_lines : (s : Text) → All IsLine (split_lines s)
unfolding split_lines
IsLine-split_lines [] = tt
IsLine-split_lines (x ∷ xs) = next_line x _ (IsLine-split_lines xs)

All-map :
    (f : Text → Text) (P Q : Text → Type 0) (ls : List Text)
    → ((l : Text) → P l → Q (f l))
    → All P ls
    → All Q (map f ls)
All-map f P Q [] k h = tt
All-map f P Q (l ∷ ls) k (h, hs) = (k l h, All-map f P Q ls k hs)

pub lines-IsLine : (s : Text) → All IsLine (lines s)
lines-IsLine s =
    All-map drop_return IsLine IsLine (split_lines s) (All-drop_return (λ c. c ≢ 10))
      (IsLine-split_lines s)

concat-IsLine : (ls : List Text) → All IsLine ls → IsLine (concat ls)
concat-IsLine [] h = tt
concat-IsLine (l ∷ ls) (h, hs) = All-append (λ c. c ≢ 10) l (concat ls) h (concat-IsLine ls hs)

-- Decided, for a literal.
abbrev has_newline : Text → Bool
has_newline [] = false
has_newline (x ∷ xs) = (x == 10) || has_newline xs

pub IsLine_literal : (s : Text) → has_newline s ≡ false → IsLine s
IsLine_literal [] h = tt
IsLine_literal (x ∷ xs) h = (λ e. ground arith, IsLine_literal xs (ground arith))

-- Whatever the text was, what `fixup` gives is one line.
pub fixup-IsLine : (s : Text) → IsLine (fixup s)
fixup-IsLine s = concat-IsLine (map (replace images github) (lines s)) (
    All-map (replace images github) IsLine IsLine (lines s)
      (λ l h. All-replace (λ c. c ≢ 10) images github l (IsLine_literal github refl) h)
      (lines-IsLine s))

-- The two parts of a line at its first full stop.
abbrev pub BothLines : Option (Text × Text) → Type 0
BothLines none = Unit
BothLines (some (t, n)) = IsLine t × IsLine n

pub split_dot-BothLines : (s : Text) → IsLine s → BothLines (split_dot s)
unfolding split_dot
split_dot-BothLines [] h = tt
split_dot-BothLines (x ∷ xs) (p, h) =
    if-Holds BothLines (is_dot x) _ _ (tt, (p, h))
      (longer (split_dot xs) (split_dot-BothLines xs h))
  where
    longer : (o : Option (Text × Text)) → BothLines o → BothLines (o >>= λ (t, n). some (x ∷ t, n))
    longer none k = tt
    longer (some (t, n)) (k, k') = ((p, k), k')
