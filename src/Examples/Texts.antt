-- ===== src/Examples/Texts.antt =====
-- The text of a query at concrete inputs: `r.db("a")` with the option `db`.
use reql.Base.{true, ◌>>=◌, ◌↔◌, codes, false, none, some, [], ◌∷◌, ◌≡◌, refl, Text}
use reql.Proto.{Term, term, no_terms, a_pair, no_pairs}
use reql.Types.Json.{Jsons, arr, obj, int, str, nil, cons, end, field}
use reql.Types.Wire.{wire, is_plain, wire_datum}
use reql.Types.FromJson.{str_datum}
use reql.Types.Encode.{encode_datum}
use reql.Types.Read.Unescaped.{encode_datum-is_plain}
use reql.Types.Read.{plain, read_str, text, list, read_json, shapes}
use reql.Types.Read.Strings.{show-IsWord}
use reql.Io.Submit.{Request, query_text}
use reql.Io.Submit.Written.{query_text-read}
use reql.Examples.Queries.{formats, db_call}
use reql.Examples.Sessions.{env}

abbrev options : Term
options = term none none no_terms (a_pair (codes "db") db_call no_pairs)

abbrev options_json : Jsons
options_json =
    cons
      (obj (
        field (codes "db") (arr (cons (int 14) (cons (arr (cons (str (codes "a")) nil)) nil))) end))
      nil

abbrev db_request : Request
db_request = record { term = db_call; opts = options; retries = 5; reproducible = false }

query_text-read_example :
    (s : Text) × (query_text env db_request ≡ some s)
    × (read_json s
        ≡ some (
            list (
              shapes formats (
                cons (int 1) (
                  cons
                    (arr (cons (int 14) (cons (arr (cons (str (codes "a")) nil)) nil)))
                    options_json)))))
query_text-read_example =
    query_text-read env show-IsWord db_request
      (arr (cons (int 14) (cons (arr (cons (str (codes "a")) nil)) nil))) nil options_json
      (unfold wire wire_datum is_plain in refl) (unfold wire wire_datum is_plain in refl)

encode_datum-is_plain_example :
    ((encode_datum formats (str_datum (codes "a\"b")) >>= read_json) ≡ some (text (codes "a\"b")))
    ↔ (is_plain (codes "a\"b") ≡ true)
encode_datum-is_plain_example = encode_datum-is_plain formats (codes "a\"b")

-- A raw line feed and an unknown escape are refused, and an escape is read as its bytes.
raw_line_feed : read_str plain (codes "a\nb\"") ≡ none
unfolding read_str
raw_line_feed = refl

unknown_escape : read_str plain (codes "\\x\"") ≡ none
unfolding read_str
unknown_escape = refl

escapes_read : read_str plain (codes "\\n\\u0041\\u00e9\"") ≡ some (10 ∷ 65 ∷ 195 ∷ 169 ∷ [], [])
unfolding read_str
escapes_read = refl

no_digit : read_str plain (codes "\\u00g0\"") ≡ none
unfolding read_str
no_digit = refl
