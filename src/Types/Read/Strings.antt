-- ===== src/Types/Read/Strings.antt =====
-- The reading of strings and words.
use reql.Base.{
  ℕ, Text, true, false, Option, some, ◌>>=◌, [], ◌∷◌, ◌++◌, show, append_assoc, All, ◌≡◌, refl, ◌∙◌,
  ap, arith, IsDigit, show-IsDigit, show-IsSolid, IsSolid, IsSolid-one, IsSolid-cons, ◌≢◌,
}
use reql.Types.Json.{escape, escape_char}
use reql.Types.Read.{plain, read_str, is_end, read_word, kind, other}

abbrev with_char : ℕ → Option (Text × Text) → Option (Text × Text)
with_char c r = r >>= λ (s, rest). some (c ∷ s, rest)

read_str-escape_char :
    (c : ℕ) (s : Text) → read_str plain (escape_char c ++ s) ≡ with_char c (read_str plain s)
unfolding read_str escape_char
read_str-escape_char c s = ground arith

-- An escaped string is read up to its quote, whatever stands behind it.
pub read_str-escape : (s rest : Text) → read_str plain (escape s ++ (b'"' ∷ rest)) ≡ some (s, rest)
unfolding escape
read_str-escape [] rest = unfold read_str in refl
read_str-escape (c ∷ s) rest =
    rw append_assoc (
      read_str-escape_char c (escape s ++ (b'"' ∷ rest))
      ∙ ap (with_char c) (read_str-escape s rest))

-- No character ends a word.
abbrev pub NoEnd : Text → Type 0
NoEnd s = All (λ c. is_end c ≡ false) s

-- A word as it may stand in a JSON text.
abbrev pub IsWord : Text → Type 0
IsWord [] = ⊥
IsWord (c ∷ s) = (kind c ≡ other) × (is_end c ≡ false) × NoEnd s

-- What may stand behind a value.
abbrev pub Ends : Text → Type 0
Ends [] = Unit
Ends (c ∷ s) = is_end c ≡ true

pub read_word-append : (w rest : Text) → NoEnd w → Ends rest → read_word (w ++ rest) ≡ (w, rest)
unfolding read_word
read_word-append [] [] h e = refl
read_word-append [] (c ∷ rest) h e = rw e refl
read_word-append (c ∷ w) rest (h, hs) e = rw (h, read_word-append w rest hs e) refl

IsWord-digits : (s : Text) → s ≢ [] → All IsDigit s → IsWord s
IsWord-digits [] ne h = absurd (ne refl)
IsWord-digits (c ∷ s) ne (h, hs) = (ground arith, ground arith, rest s hs)
  where
    rest : (t : Text) → All IsDigit t → NoEnd t
    rest [] k = tt
    rest (d ∷ t) (k, ks) = (ground arith, rest t ks)

-- A number is a word.
pub show-IsWord : (n : ℕ) → IsWord (show n)
show-IsWord n = IsWord-digits (show n) (show-IsSolid n).filled (show-IsDigit n)

NoEnd-IsSolid : (c : ℕ) (s : Text) → is_end c ≡ false → NoEnd s → IsSolid 44 (c ∷ s)
NoEnd-IsSolid c [] h hs = IsSolid-one 44 c (λ e. ground arith)
NoEnd-IsSolid c (d ∷ s) h (k, ks) = IsSolid-cons 44 c (d ∷ s) (NoEnd-IsSolid d s k ks)

-- A word does not end in a comma.
pub IsWord-IsSolid : (w : Text) → IsWord w → IsSolid 44 w
IsWord-IsSolid [] h = elim h [ ]
IsWord-IsSolid (c ∷ w) (k, h, hs) = NoEnd-IsSolid c w h hs
