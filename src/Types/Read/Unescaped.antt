-- ===== src/Types/Read/Unescaped.antt =====
-- The text that `Encode for Datum` of src/types.rs writes of a string, with no escapes in it, and a
-- reader that takes the escapes of JSON and refuses raw control characters.
use reql.Base.{
  ℕ, zero, suc, ◌+◌, ◌*◌, ◌≤◌, Text, length, length-append, Bool, true, false, ◌||◌, ◌&&◌, ltb, leb,
  ◌/◌, ◌%◌, ◌-◌, Option, none, some, ◌>>=◌, [], ◌∷◌, ◌++◌, ◌==◌, if◌then◌else◌, codes, ◌≡◌, refl,
  arith, ap, ◌∙◌, sym, subst, ◌<◌, ◌↔◌,
}
use reql.Proto.{Formats}
use reql.Types.Wire.{is_plain}
use reql.Types.FromJson.{str_datum}
use reql.Types.Encode.{quoted, encode_datum}
use reql.Types.Read.{
  text, Mode, plain, escaped, digits, read_str, read_tree, push, push_some, unescape, push_code,
  last_digit, if_digit, or_zero, unhex, as_text, whole, read_json,
}

-- A string takes one character more than it has, at least.
abbrev Shorter : ℕ → Option (Text × Text) → Type 0
Shorter n none = Unit
Shorter n (some (s, rest)) = length s + length rest + 1 ≤ n

Shorter-suc : (n : ℕ) (r : Option (Text × Text)) → Shorter n r → Shorter (suc n) r
Shorter-suc n none h = tt
Shorter-suc n (some (s, rest)) h = omega arith

Shorter-push : (n c : ℕ) (r : Option (Text × Text)) → Shorter n r → Shorter (suc n) (push c r)
Shorter-push n c none h = tt
Shorter-push n c (some (s, rest)) h = omega arith

Shorter-if :
    (n : ℕ) (b : Bool) (r r' : Option (Text × Text))
    → Shorter n r
    → Shorter n r'
    → Shorter n (if b then r else r')
Shorter-if n true r r' h h' = h
Shorter-if n false r r' h h' = h'

Shorter-le : (m n : ℕ) (r : Option (Text × Text)) → m ≤ n → Shorter m r → Shorter n r
Shorter-le m n none le h = tt
Shorter-le m n (some (s, rest)) le h = omega arith

Shorter-push_some :
    (n : ℕ) (c : Option ℕ) (r : Option (Text × Text))
    → Shorter n r
    → Shorter (suc n) (push_some c r)
Shorter-push_some n none r h = tt
Shorter-push_some n (some c) r h = Shorter-push n c r h

-- A code has three bytes at most.
Shorter-push_code :
    (n c : ℕ) (r : Option (Text × Text)) → Shorter n r → Shorter (n + 3) (push_code c r)
Shorter-push_code n c r h =
    Shorter-if (n + 3) (ltb c 128) _ _
      (Shorter-le (suc n) (n + 3) _ (omega arith) (Shorter-push n c r h))
      (Shorter-if (n + 3) (ltb c 2048) _ _
        (Shorter-le (suc (suc n)) (n + 3) _ (omega arith) (two (192 + c / 64)))
        (Shorter-if (n + 3) (leb 55296 c && ltb c 57344) _ _ tt (
          Shorter-le (suc (suc (suc n))) (n + 3) _ (omega arith)
            (Shorter-push (suc (suc n)) (224 + c / 4096) _ (two (128 + (c / 64) % 64))))))
  where
    two : (d : ℕ) → Shorter (suc (suc n)) (push d (push (128 + c % 64) r))
    two d = Shorter-push (suc n) d _ (Shorter-push n _ r h)

Shorter-last_digit :
    (n m : ℕ) (d : Option ℕ) (r : Option (Text × Text))
    → Shorter n r
    → Shorter (n + 3) (last_digit m d r)
Shorter-last_digit n m none r h = tt
Shorter-last_digit n m (some d) r h = Shorter-push_code n (m * 16 + d) r h

Shorter-if_digit :
    (n : ℕ) (d : Option ℕ) (r : Option (Text × Text)) → Shorter n r → Shorter n (if_digit d r)
Shorter-if_digit n none r h = tt
Shorter-if_digit n (some d) r h = h

-- The characters that the string and what is left may have, if `n` are still to be read.
abbrev room : Mode → ℕ → ℕ
room plain n = n
room escaped n = n
room (digits k c) n = n + (4 - k)

read_str-Shorter : (m : Mode) (t : Text) → Shorter (room m (length t)) (read_str m t)
unfolding read_str
read_str-Shorter m [] = tt
read_str-Shorter plain (c ∷ t) =
    let n = suc (length t) in
    Shorter-if n (c == b'"') _ _ (omega arith) (
      Shorter-if n (c == 92) _ _ (Shorter-suc (length t) _ (read_str-Shorter escaped t))
        (Shorter-if n (ltb c 32) _ _ tt (Shorter-push (length t) c _ (read_str-Shorter plain t))))
read_str-Shorter escaped (c ∷ t) =
    Shorter-if (suc (length t)) (c == b'u') _ _
      (Shorter-le (length t + 1) (suc (length t)) _ (omega arith) (read_str-Shorter (digits 3 0) t))
      (Shorter-push_some (length t) (unescape c) _ (read_str-Shorter plain t))
read_str-Shorter (digits zero n) (c ∷ t) =
    Shorter-le (length t + 3) (suc (length t) + 4) _ (omega arith)
      (Shorter-last_digit (length t) n (unhex c) _ (read_str-Shorter plain t))
read_str-Shorter (digits (suc k) n) (c ∷ t) =
    let rest = read_str (digits k (n * 16 + or_zero (unhex c))) t in
    Shorter-if_digit (suc (length t) + (4 - suc k)) (unhex c) rest (
      Shorter-le (length t + (4 - k)) (suc (length t) + (4 - suc k)) rest (omega arith)
        (read_str-Shorter (digits k (n * 16 + or_zero (unhex c))) t))

-- A string behind which the text ends at the quote.
abbrev Whole : Text → Option (Text × Text) → Type 0
Whole s r = r ≡ some (s, [])

push-Whole : (c : ℕ) (s : Text) (r : Option (Text × Text)) → Whole (c ∷ s) (push c r) → Whole s r
push-Whole c s none h = cc
push-Whole c s (some (t, rest)) h = cc

is_plain_cases :
    (q b l : Bool) (c : ℕ) (s rest : Text) (esc more : Option (Text × Text))
    → (esc ≡ some (c ∷ s, []) → ⊥)
    → (Whole s more → is_plain s ≡ true)
    → Whole
        (c ∷ s)
        (if q then some ([], rest) else if b then esc else if l then none else push c more)
    → (if q || (b || l) then false else is_plain s) ≡ true
is_plain_cases true b l c s rest esc more ne k h = cc
is_plain_cases false true l c s rest esc more ne k h = absurd (ne h)
is_plain_cases false false true c s rest esc more ne k h = cc
is_plain_cases false false false c s rest esc more ne k h = k (push-Whole c s more h)

too_long :
    (c : ℕ) (s : Text) (r : Option (Text × Text))
    → Shorter (length (s ++ codes "\"")) r
    → r ≡ some (c ∷ s, [])
    → ⊥
too_long c s r short e =
    let l = length-append s (codes "\"") in
    let short' = subst (Shorter (length (s ++ codes "\""))) e short in omega (arith, short')

is_plain-Whole : (s : Text) → Whole s (read_str plain (s ++ codes "\"")) → is_plain s ≡ true
unfolding is_plain read_str
is_plain-Whole [] h = refl
is_plain-Whole (c ∷ s) h =
    is_plain_cases (c == b'"') (c == 92) (ltb c 32) c s (s ++ codes "\"")
      (read_str escaped (s ++ codes "\"")) (read_str plain (s ++ codes "\""))
      (too_long c s _ (read_str-Shorter escaped (s ++ codes "\""))) (is_plain-Whole s) h

Whole-push_cases :
    (q b l : Bool) (c : ℕ) (s rest : Text) (esc more : Option (Text × Text))
    → (is_plain s ≡ true → Whole s more)
    → (if q || (b || l) then false else is_plain s) ≡ true
    → Whole
        (c ∷ s)
        (if q then some ([], rest) else if b then esc else if l then none else push c more)
Whole-push_cases true b l c s rest esc more k h = cc
Whole-push_cases false true l c s rest esc more k h = cc
Whole-push_cases false false true c s rest esc more k h = cc
Whole-push_cases false false false c s rest esc more k h = rw (k h) refl

Whole-is_plain : (s : Text) → is_plain s ≡ true → Whole s (read_str plain (s ++ codes "\""))
unfolding is_plain read_str
Whole-is_plain [] h = refl
Whole-is_plain (c ∷ s) h =
    Whole-push_cases (c == b'"') (c == 92) (ltb c 32) c s _ _ _ (Whole-is_plain s) h

read_tree-quoted :
    (s : Text) (n : ℕ)
    → 0 < n
    → read_tree n (quoted s) ≡ (read_str plain (s ++ codes "\"") >>= as_text)
unfolding read_tree
read_tree-quoted s zero h = absurd (omega arith)
read_tree-quoted s (suc n) h = refl

whole-text_iff :
    (s : Text) (r : Option (Text × Text)) → (whole (r >>= as_text) ≡ some (text s)) ↔ Whole s r
whole-text_iff s none = (λ h. cc, λ h. cc)
whole-text_iff s (some (t, [])) = (λ h. cc, λ h. cc)
whole-text_iff s (some (t, c ∷ rest)) = (λ h. cc, λ h. cc)

module _ (f : Formats) where
  -- What `encode` writes of a string is read by a reader of JSON as that string exactly when there
  -- is no quote, no backslash and no control character (below 32) in it.
  pub encode_datum-is_plain :
      (s : Text)
      → ((encode_datum f (str_datum s) >>= read_json) ≡ some (text s)) ↔ (is_plain s ≡ true)
  unfolding encode_datum read_json
  encode_datum-is_plain s =
      let read = read_tree-quoted s (2 * length (quoted s) + 1) (omega arith) in
      (
        λ h. is_plain-Whole s ((whole-text_iff s _).0 (ap whole (sym read) ∙ h)),
        λ h. ap whole read ∙ (whole-text_iff s _).1 (Whole-is_plain s h),
      )
