-- ===== src/Types/Read.antt =====
-- A reader of JSON texts, with no white space between the parts: the reference for what can be told
-- from a text that src/types.rs writes. Strings are those of JSON, but an escaped surrogate pair is
-- refused. A word is a number, `true`, `false` or `null`, as it stands.
pub mod Strings
pub mod Unescaped
pub mod Written
pub mod Parts
pub mod RoundTrip
use reql.Base.{
  ℕ, zero, suc, ◌+◌, ◌*◌, ◌-◌, Text, length, Bool, true, false, ◌||◌, ◌&&◌, Option, none, some,
  ◌>>=◌, [], ◌∷◌, ltb, leb, ◌==◌, ◌/◌, ◌%◌, if◌then◌else◌, codes, show,
}
use reql.Proto.{Formats}
use reql.Types.Json.{
  Json, Jsons, Fields, null, bool, int, float, str, arr, obj, nil, cons, end, field,
}

mutual
  pub data Tree : Type 0 where
    word : Text → Tree
    text : Text → Tree
    list : Trees → Tree
    object : Members → Tree

  pub data Trees : Type 0 where
    no_trees : Trees
    a_tree : Tree → Trees → Trees

  pub data Members : Type 0 where
    no_members : Members
    member : Text → Tree → Members → Members

-- What is left of a string that is being read: the next character is itself, stands behind a
-- backslash, or is one of so many digits, with the number that those before it spell.
pub data Mode : Type 0 where
  plain escaped : Mode
  digits : ℕ → ℕ → Mode

abbrev pub push : ℕ → Option (Text × Text) → Option (Text × Text)
push c r = r >>= λ (s, rest). some (c ∷ s, rest)

-- The number of a hexadecimal digit.
abbrev pub unhex : ℕ → Option ℕ
unhex c =
    if leb b'0' c && leb c b'9'
    then some (c - 48)
    else if leb b'a' c && leb c b'f'
    then some (c - 87)
    else if leb b'A' c && leb c b'F'
    then some (c - 55)
    else none

-- The character behind a backslash that is not `u`.
abbrev pub unescape : ℕ → Option ℕ
unescape c =
    if (c == b'"') || ((c == 92) || (c == b'/'))
    then some c
    else if c == b'b'
    then some 8
    else if c == b'f'
    then some 12
    else if c == b'n'
    then some 10
    else if c == b'r'
    then some 13
    else if c == b't'
    then some 9
    else none

abbrev pub push_some : Option ℕ → Option (Text × Text) → Option (Text × Text)
push_some none r = none
push_some (some c) r = push c r

-- A code of four digits in the bytes of UTF-8; one of a surrogate pair is refused.
abbrev pub push_code : ℕ → Option (Text × Text) → Option (Text × Text)
push_code n r =
    if ltb n 128
    then push n r
    else if ltb n 2048
    then push (192 + n / 64) (push (128 + n % 64) r)
    else if leb 55296 n && ltb n 57344
    then none
    else push (224 + n / 4096) (push (128 + (n / 64) % 64) (push (128 + n % 64) r))

abbrev pub last_digit : ℕ → Option ℕ → Option (Text × Text) → Option (Text × Text)
last_digit n none r = none
last_digit n (some d) r = push_code (n * 16 + d) r

-- The number that the digits spell with one more; an unsound digit is refused with the string.
abbrev pub if_digit : Option ℕ → Option (Text × Text) → Option (Text × Text)
if_digit none r = none
if_digit (some d) r = r

abbrev pub or_zero : Option ℕ → ℕ
or_zero none = 0
or_zero (some d) = d

-- The string up to its closing quote, and what stands behind it.
unfoldable pub read_str : Mode → Text → Option (Text × Text)
read_str m [] = none
read_str plain (c ∷ s) =
    let escape = read_str escaped s in
    let more = push c (read_str plain s) in
    if c == b'"' then some ([], s) else if c == 92 then escape else if ltb c 32 then none else more
read_str escaped (c ∷ s) =
    let code = read_str (digits 3 0) s in
    let more = push_some (unescape c) (read_str plain s) in if c == b'u' then code else more
read_str (digits zero n) (c ∷ s) = last_digit n (unhex c) (read_str plain s)
read_str (digits (suc k) n) (c ∷ s) =
    if_digit (unhex c) (read_str (digits k (n * 16 + or_zero (unhex c))) s)

abbrev pub is_end : ℕ → Bool
is_end c = (c == b',') || ((c == b']') || (c == b'}'))

unfoldable pub read_word : Text → Text × Text
read_word [] = ([], [])
read_word (c ∷ s) = let (w, rest) = read_word s in if is_end c then ([], c ∷ s) else (c ∷ w, rest)

pub data Kind : Type 0 where
  opens_list opens_object opens_text other : Kind

abbrev pub kind : ℕ → Kind
kind c =
    if c == b'['
    then opens_list
    else if c == b'{'
    then opens_object
    else if c == b'"'
    then opens_text
    else other

-- The text behind a character that has to stand first.
abbrev pub expect : ℕ → Text → Option Text
expect c [] = none
expect c (d ∷ s) = if d == c then some s else none

abbrev pub as_word : Text × Text → Option (Tree × Text)
as_word (w, rest) = some (word w, rest)

abbrev pub as_text : Text × Text → Option (Tree × Text)
as_text (s, rest) = some (text s, rest)

-- One part behind a comma, or the end.
pub data Next : Type 0 where
  ends goes_on bad : Next

abbrev pub next : ℕ → ℕ → Next
next close c = if c == close then ends else if c == b',' then goes_on else bad

unfoldable mutual
  pub read_tree : ℕ → Text → Option (Tree × Text)
  read_tree zero s = none
  read_tree (suc n) [] = none
  read_tree (suc n) (c ∷ s) = elim (kind c) [
    | opens_list ↦ read_list n s >>= λ (ts, rest). some (list ts, rest)
    | opens_object ↦ read_object n s >>= λ (ms, rest). some (object ms, rest)
    | opens_text ↦ read_str plain s >>= as_text
    | other ↦ as_word (read_word (c ∷ s))
  ]

  pub read_list : ℕ → Text → Option (Trees × Text)
  read_list zero s = none
  read_list (suc n) [] = none
  read_list (suc n) (c ∷ s) = elim (c == b']') [
    | true ↦ some (no_trees, s)
    | false ↦ do
      (t, rest) ← read_tree n (c ∷ s)
      (ts, rest') ← read_more n rest
      some (a_tree t ts, rest')
  ]

  pub read_more : ℕ → Text → Option (Trees × Text)
  read_more zero s = none
  read_more (suc n) [] = none
  read_more (suc n) (c ∷ s) = elim (next b']' c) [
    | ends ↦ some (no_trees, s)
    | goes_on ↦ do
      (t, rest) ← read_tree n s
      (ts, rest') ← read_more n rest
      some (a_tree t ts, rest')
    | bad ↦ none
  ]

  pub read_object : ℕ → Text → Option (Members × Text)
  read_object zero s = none
  read_object (suc n) [] = none
  read_object (suc n) (c ∷ s) = elim (c == b'}') [
    | true ↦ some (no_members, s)
    | false ↦ read_member n (c ∷ s)
  ]

  pub read_members : ℕ → Text → Option (Members × Text)
  read_members zero s = none
  read_members (suc n) [] = none
  read_members (suc n) (c ∷ s) = elim (next b'}' c) [
    | ends ↦ some (no_members, s)
    | goes_on ↦ read_member n s
    | bad ↦ none
  ]

  -- A key, a colon and a value, and the members behind them.
  pub read_member : ℕ → Text → Option (Members × Text)
  read_member zero s = none
  read_member (suc n) s = do
    s' ← expect b'"' s
    (k, rest) ← read_str plain s'
    s'' ← expect b':' rest
    (t, rest') ← read_tree n s''
    (ms, rest'') ← read_members n rest'
    some (member k t ms, rest'')

abbrev pub whole : Option (Tree × Text) → Option Tree
whole (some (t, [])) = some t
whole _ = none

-- A whole text; it has fewer parts than twice its length.
unfoldable pub read_json : Text → Option Tree
read_json s = whole (read_tree (2 * length s + 1) s)

-- What a reader sees of a JSON.
module _ (f : Formats) where
  unfoldable mutual
    pub shape : Json → Tree
    shape null = word (codes "null")
    shape (bool true) = word (codes "true")
    shape (bool false) = word (codes "false")
    shape (int n) = word (show n)
    shape (float x) = word (f.format_f64 x)
    shape (str s) = text s
    shape (arr js) = list (shapes js)
    shape (obj fs) = object (member_shapes fs)

    pub shapes : Jsons → Trees
    shapes nil = no_trees
    shapes (cons j js) = a_tree (shape j) (shapes js)

    pub member_shapes : Fields → Members
    member_shapes end = no_members
    member_shapes (field k j fs) = member k (shape j) (member_shapes fs)
