-- ===== src/Types/Wire.antt =====
-- The JSON that a term stands for in the protocol (build/docs/7-developing/writing-drivers.md): a
-- command is an array of its number, the array of its arguments and the object of its options; an
-- array of data is a MAKE_ARRAY command; a term with no type stands for its parts, spliced where it
-- is used. `none` where there is no such JSON: a string that would need an escape, R_JSON, an
-- argument that stands for nothing, an option that does not stand for exactly one value.

use reql.Base.{Text, Bool, true, false, Option, none, some, ◌>>=◌, []}
use reql.Base.{◌∷◌, if◌then◌else◌, ◌==◌, ltb, ◌||◌}
use reql.Proto.{
  Formats, DatumType, Datum, Datums, DatumPairs, datum, no_datums, a_datum, no_datum_pairs,
  datum_pair, TermType, data_term, make_array, Term, Terms, TermPairs, term, no_terms, a_term,
  no_pairs, a_pair, term_type,
}
use reql.Types.Json.{
  Json, Jsons, Fields, null, bool, int, float, str, arr, obj, nil, cons, end, field, ◌+++◌,
}

-- No character of the text has to be escaped.
unfoldable pub is_plain : Text → Bool
is_plain [] = true
is_plain (c ∷ s) = if (c == b'"') || ((c == 92) || ltb c 32) then false else is_plain s

abbrev pub plain_then {ℓ} : {A : Type ℓ} → Text → Option A → Option A
plain_then s r = if is_plain s then r else none

abbrev pub single : Jsons → Option Json
single nil = none
single (cons j nil) = some j
single (cons j (cons k ks)) = none

abbrev pub not_empty : Jsons → Option Jsons
not_empty nil = none
not_empty (cons j js) = some (cons j js)

abbrev pub wire_args_part : Option TermType → Terms → Jsons → Jsons
wire_args_part ty no_terms js = nil
wire_args_part none (a_term t ts) js = js
wire_args_part (some ty) (a_term t ts) js = cons (arr js) nil

abbrev pub wire_optargs_part : TermPairs → Fields → Jsons
wire_optargs_part no_pairs fs = nil
wire_optargs_part (a_pair k v ps) fs = cons (obj fs) nil

module _ (f : Formats) where
  unfoldable mutual
    pub wire_datum : Datum → Option Json
    wire_datum (datum none b n s xs ps) = some null
    wire_datum (datum (some DatumType.r_null) b n s xs ps) = some null
    wire_datum (datum (some DatumType.r_bool) b n s xs ps) = some (bool b)
    wire_datum (datum (some DatumType.r_num) b n s xs ps) = some (float n)
    wire_datum (datum (some DatumType.r_str) b n s xs ps) = plain_then s (some (str s))
    wire_datum (datum (some DatumType.r_array) b n s xs ps) = do
      js ← wire_datums xs
      some (arr (cons (int (f.term_value make_array)) (cons (arr js) nil)))
    wire_datum (datum (some DatumType.r_object) b n s xs ps) = do
      fs ← wire_datum_pairs ps
      some (obj fs)
    wire_datum (datum (some DatumType.r_json) b n s xs ps) = none

    pub wire_datums : Datums → Option Jsons
    wire_datums no_datums = some nil
    wire_datums (a_datum d ds) = do j ← wire_datum d; js ← wire_datums ds; some (cons j js)

    pub wire_datum_pairs : DatumPairs → Option Fields
    wire_datum_pairs no_datum_pairs = some end
    wire_datum_pairs (datum_pair k d ps) = do
      j ← wire_datum d
      fs ← wire_datum_pairs ps
      plain_then k (some (field k j fs))

  abbrev pub wire_datum_part : Option Datum → Option Jsons
  wire_datum_part none = some nil
  wire_datum_part (some d) = do j ← wire_datum d; some (cons j nil)

  abbrev pub wire_close : TermType → Jsons → Jsons
  wire_close data_term js = js
  wire_close t js = cons (arr (cons (int (f.term_value t)) js)) nil

  unfoldable mutual
    pub wire : Term → Option Jsons
    wire (term ty d ts ps) = do
      ds ← wire_datum_part d
      js ← wire_args ts
      fs ← wire_pairs ps
      some
          (wire_close (term_type ty) (ds +++ (wire_args_part ty ts js +++ wire_optargs_part ps fs)))

    pub wire_args : Terms → Option Jsons
    wire_args no_terms = some nil
    wire_args (a_term t ts) = do
      own ← wire t
      js ← not_empty own
      rest ← wire_args ts
      some (js +++ rest)

    pub wire_pairs : TermPairs → Option Fields
    wire_pairs no_pairs = some end
    wire_pairs (a_pair k v ps) = do
      own ← wire v
      j ← single own
      fs ← wire_pairs ps
      plain_then k (some (field k j fs))
