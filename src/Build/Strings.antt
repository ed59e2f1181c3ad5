-- ===== src/Build/Strings.antt =====
-- The operations on strings that the build script calls: `lines`, `contains`, `trim`, `replace` and
-- `to_lowercase` of the standard library, on bytes. White space and the case of letters are those of
-- ASCII.
use reql.Base.{
  ℕ, zero, suc, ◌+◌, ◌-◌, Text, leb, ◌==◌, starts_with, length, Bool, true, false, ◌&&◌, ◌||◌,
  Option, none, some, List, [], ◌∷◌, ◌++◌, map, ◌>>=◌, if◌then◌else◌,
}

-- `parts.collect()`
abbrev pub concat : List Text → Text
concat [] = []
concat (s ∷ ss) = s ++ concat ss

abbrev pub to_first : ℕ → List Text → List Text
to_first x [] = (x ∷ []) ∷ []
to_first x (l ∷ ls) = (x ∷ l) ∷ ls

-- The parts that newlines end.
unfoldable pub split_lines : Text → List Text
split_lines [] = []
split_lines (x ∷ xs) = let rest = split_lines xs in if x == 10 then [] ∷ rest else to_first x rest

-- A line without the carriage return at its end.
unfoldable pub drop_return : Text → Text
drop_return [] = []
drop_return (x ∷ []) = if x == 13 then [] else x ∷ []
drop_return (x ∷ y ∷ ys) = x ∷ drop_return (y ∷ ys)

-- `s.lines()`
abbrev pub lines : Text → List Text
lines s = map drop_return (split_lines s)

-- `s.contains(p)`
unfoldable pub contains : Text → Text → Bool
contains p [] = starts_with p []
contains p (x ∷ xs) = starts_with p (x ∷ xs) || contains p xs

abbrev pub is_empty : Text → Bool
is_empty [] = true
is_empty (x ∷ xs) = false

abbrev pub is_space : ℕ → Bool
is_space x = (leb 9 x && leb x 13) || (x == 32)

abbrev pub trim_left : (ℕ → Bool) → Text → Text
trim_left p [] = []
trim_left p (x ∷ xs) = let rest = trim_left p xs in if p x then rest else x ∷ xs

abbrev pub keep_end : (ℕ → Bool) → ℕ → Text → Text
keep_end p x [] = if p x then [] else x ∷ []
keep_end p x (y ∷ ys) = x ∷ y ∷ ys

abbrev pub trim_end : (ℕ → Bool) → Text → Text
trim_end p [] = []
trim_end p (x ∷ xs) = keep_end p x (trim_end p xs)

-- `s.trim()`
abbrev pub trim : Text → Text
trim s = trim_end is_space (trim_left is_space s)

abbrev pub is_dot : ℕ → Bool
is_dot x = x == 46

-- `s.split_at(i)` for the `i` of `s.find('.')`
unfoldable pub split_dot : Text → Option (Text × Text)
split_dot [] = none
split_dot (x ∷ xs) =
    let rest = split_dot xs >>= λ (t, n). some (x ∷ t, n) in
    if is_dot x then some ([], x ∷ xs) else rest

-- `s.replace(p, r)`, with the number of bytes of a match that are still to be passed.
unfoldable pub replace_from : Text → Text → ℕ → Text → Text
replace_from p r n [] = []
replace_from p r (suc n) (x ∷ xs) = replace_from p r n xs
replace_from p r zero (x ∷ xs) =
    let behind = replace_from p r (length p - 1) xs in
    let next = replace_from p r zero xs in if starts_with p (x ∷ xs) then r ++ behind else x ∷ next

abbrev pub replace : Text → Text → Text → Text
replace p r s = replace_from p r 0 s

abbrev lower : ℕ → ℕ
lower x = if leb 65 x && leb x 90 then x + 32 else x

abbrev upper : ℕ → ℕ
upper x = if leb 97 x && leb x 122 then x - 32 else x

abbrev pub to_lowercase : Text → Text
to_lowercase s = map lower s

abbrev pub to_uppercase : Text → Text
to_uppercase s = map upper s
