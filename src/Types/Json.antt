-- ===== src/Types/Json.antt =====
-- JSON texts, the reference for what src/types.rs writes: commas stand between elements, and a
-- string is written with its escapes.
use reql.Base.{
  ℕ, ◌+◌, ◌/◌, ◌%◌, Text, codes, show, Bool, true, false, if◌then◌else◌, ◌==◌, ltb, [], ◌∷◌, ◌++◌,
}
use reql.Proto.{Formats}

mutual
  -- `int` is an integer, `float` a double by its bit pattern.
  pub data Json : Type 0 where
    null : Json
    bool : Bool → Json
    int : ℕ → Json
    float : ℕ → Json
    str : Text → Json
    arr : Jsons → Json
    obj : Fields → Json

  pub data Jsons : Type 0 where
    nil : Jsons
    cons : Json → Jsons → Jsons

  pub data Fields : Type 0 where
    end : Fields
    field : Text → Json → Fields → Fields

infixr 65 ◌+++◌
abbrev pub ◌+++◌ : Jsons → Jsons → Jsons
nil +++ ks = ks
cons j js +++ ks = cons j (js +++ ks)

-- A hexadecimal digit.
hex : ℕ → ℕ
hex n = if ltb n 10 then 48 + n else 87 + n

-- The characters that a JSON string must escape.
unfoldable pub escape_char : ℕ → Text
unfolding hex
escape_char c =
    if c == b'"'
    then 92 ∷ c ∷ []
    else if c == 92
    then 92 ∷ c ∷ []
    else if ltb c 32
    then codes "\\u00" ++ (hex (c / 16) ∷ hex (c % 16) ∷ [])
    else c ∷ []

unfoldable pub escape : Text → Text
unfolding escape_char
escape [] = []
escape (c ∷ s) = escape_char c ++ escape s

abbrev pub render_str : Text → Text
render_str s = codes "\"" ++ (escape s ++ codes "\"")

module _ (f : Formats) where
  unfoldable mutual
    pub render : Json → Text
    render null = codes "null"
    render (bool true) = codes "true"
    render (bool false) = codes "false"
    render (int n) = show n
    render (float x) = f.format_f64 x
    render (str s) = render_str s
    render (arr js) = codes "[" ++ (render_items js ++ codes "]")
    render (obj fs) = codes "{" ++ (render_fields fs ++ codes "}")

    pub render_items : Jsons → Text
    render_items nil = []
    render_items (cons j js) = render j ++ render_more js

    -- Every further item stands behind a comma.
    pub render_more : Jsons → Text
    render_more nil = []
    render_more (cons j js) = codes "," ++ (render j ++ render_more js)

    pub render_fields : Fields → Text
    render_fields end = []
    render_fields (field k j fs) =
        render_str k ++ (codes ":" ++ (render j ++ render_fields_more fs))

    pub render_fields_more : Fields → Text
    render_fields_more end = []
    render_fields_more (field k j fs) =
        codes "," ++ (render_str k ++ (codes ":" ++ (render j ++ render_fields_more fs)))
