-- ===== src/Types/Encode.antt =====
-- `Encode for Datum`, `Request::encode` and `Request::encode_pairs` of src/types.rs.
-- `none` is the panic of `unimplemented!()` at R_JSON. The loops push each part with a comma behind
-- it, and the commas at the end are trimmed together with what stands in front of the parts.
use reql.Base.{
  ℕ, Text, codes, join, trim_right, show, Bool, true, false, Option, none, some, ◌>>=◌, List, [],
  ◌∷◌, ◌++◌,
}
use reql.Proto.{
  Formats, DatumType, Datum, Datums, DatumPairs, datum, no_datums, a_datum, no_datum_pairs,
  datum_pair, TermType, data_term, make_array, Term, Terms, TermPairs, term, no_terms, a_term,
  no_pairs, a_pair, term_type,
}

abbrev comma : ℕ
comma = b','

-- `format!("{}", b)` of a bool.
abbrev pub show_bool : Bool → Text
show_bool true = codes "true"
show_bool false = codes "false"

-- `format!("\"{}\"", s)`
abbrev pub quoted : Text → Text
quoted s = codes "\"" ++ (s ++ codes "\"")

abbrev pub args_part : Option TermType → Terms → Text → List Text
args_part ty no_terms items = []
args_part none (a_term t ts) items = trim_right comma items ∷ []
args_part (some ty) (a_term t ts) items = (trim_right comma (codes "[" ++ items) ++ codes "]") ∷ []

abbrev pub optargs_part : TermPairs → Text → List Text
optargs_part no_pairs items = []
optargs_part (a_pair k v ps) items = (trim_right comma (codes "{" ++ items) ++ codes "}") ∷ []

module _ (f : Formats) where
  unfoldable mutual
    pub encode_datum : Datum → Option Text
    encode_datum (datum none b n s xs ps) = some (codes "null")
    encode_datum (datum (some DatumType.r_null) b n s xs ps) = some (codes "null")
    encode_datum (datum (some DatumType.r_bool) b n s xs ps) = some (show_bool b)
    encode_datum (datum (some DatumType.r_num) b n s xs ps) = some (f.format_f64 n)
    encode_datum (datum (some DatumType.r_str) b n s xs ps) = some (quoted s)
    encode_datum (datum (some DatumType.r_array) b n s xs ps) = do
      items ← datums_loop xs
      let args = codes "[" ++ (show (f.term_value make_array) ++ codes ",[")
      some (trim_right comma (args ++ items) ++ codes "]]")
    encode_datum (datum (some DatumType.r_object) b n s xs ps) = do
      items ← datum_pairs_loop ps
      some (trim_right comma (codes "{" ++ items) ++ codes "}")
    encode_datum (datum (some DatumType.r_json) b n s xs ps) = none

    pub datums_loop : Datums → Option Text
    datums_loop no_datums = some []
    datums_loop (a_datum d ds) = do
      item ← encode_datum d
      rest ← datums_loop ds
      some ((item ++ codes ",") ++ rest)

    pub datum_pairs_loop : DatumPairs → Option Text
    datum_pairs_loop no_datum_pairs = some []
    datum_pairs_loop (datum_pair k d ps) = do
      val ← encode_datum d
      rest ← datum_pairs_loop ps
      some ((quoted k ++ (codes ":" ++ (val ++ codes ","))) ++ rest)

  -- Each part of a term's text is pushed on a list, which `join(",")` puts together.
  abbrev pub type_part : TermType → List Text
  type_part data_term = []
  type_part t = (codes "[" ++ show (f.term_value t)) ∷ []

  abbrev pub close_type : TermType → Text → Text
  close_type data_term res = res
  close_type t res = res ++ codes "]"

  abbrev pub encode_datum_part : Option Datum → Option (List Text)
  encode_datum_part none = some []
  encode_datum_part (some d) = do s ← encode_datum d; some (s ∷ [])

  unfoldable mutual
    pub encode : Term → Option Text
    encode (term ty d ts ps) = do
      head ← encode_datum_part d
      args ← args_loop ts
      opts ← pairs_loop ps
      let res = type_part (term_type ty) ++ (head ++ (args_part ty ts args ++ optargs_part ps opts))
      some (close_type (term_type ty) (join (codes ",") res))

    pub args_loop : Terms → Option Text
    args_loop no_terms = some []
    args_loop (a_term t ts) = do
      item ← encode t
      rest ← args_loop ts
      some ((item ++ codes ",") ++ rest)

    pub pairs_loop : TermPairs → Option Text
    pairs_loop no_pairs = some []
    pairs_loop (a_pair k v ps) = do
      val ← encode v
      rest ← pairs_loop ps
      some ((quoted k ++ (codes ":" ++ (val ++ codes ","))) ++ rest)
