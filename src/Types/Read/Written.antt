-- ===== src/Types/Read/Written.antt =====
-- JSON values that become terms, and the texts of these (src/types.rs).
use reql.Base.{ℕ, Option, some, ◌≡◌}
use reql.Errors.{ok}
use reql.Proto.{Formats, Term}
use reql.Types.Value.{Value}
use reql.Types.FromJson.{from_json}
use reql.Types.Json.{Json, render}
use reql.Types.Encode.{encode}
use reql.Types.Values.{value_json, encode-from_json}
use reql.Types.Read.{read_json, shape}
use reql.Types.Read.Strings.{IsWord, IsWord-IsSolid}
use reql.Types.Read.RoundTrip.{read_json-render}

-- A value that stands for a JSON converts to a term, the term is written as the text of that JSON,
-- and a reader of JSON gets the shape of it back. Doubles are assumed to be written as words: not
-- empty, with no comma and no closing bracket or brace in them, and not beginning like a string, a
-- list or an object.
pub read_json-from_json :
    (f : Formats) (as_f64 : ℕ → Option ℕ) (words : (x : ℕ) → IsWord (f.format_f64 x)) (v : Value)
    (j : Json)
    → value_json f as_f64 v ≡ some j
    → (t : Term) × (from_json as_f64 v ≡ ok t)
      × (encode f t ≡ some (render f j))
      × (read_json (render f j) ≡ some (shape f j))
read_json-from_json f as_f64 words v j h =
    let (t, e, e') =
      encode-from_json f as_f64 (λ x. IsWord-IsSolid (f.format_f64 x) (words x)) v j h in
    (t, e, e', read_json-render f words j)
