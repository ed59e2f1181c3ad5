-- ===== src/Types/FromJson.antt =====
-- `Term::from_json` of src/types.rs, on the JSON value that `to_value` gives.
use reql.Base.{Text, Bool, ℕ, codes, false, Option, none, some, []}
use reql.Errors.{Result, ok, err, ◌>>=◌, from_driver, other}
use reql.Proto.{
  DatumType, Datum, Datums, DatumPairs, datum, no_datums, a_datum, no_datum_pairs, datum_pair,
  data_term, Term, term, no_terms, no_pairs, take_datum,
}
use reql.Types.Value.{
  Value, Values, Members, null, bool, number, string, array, object, no_values, a_value, no_members,
  member,
}

-- The term around a datum.
abbrev pub datum_term : Datum → Term
datum_term d = term (some data_term) (some d) no_terms no_pairs

-- A new datum whose type and value are set.
abbrev pub str_datum : Text → Datum
str_datum s = datum (some DatumType.r_str) false 0 s no_datums no_datum_pairs

abbrev pub bool_datum : Bool → Datum
bool_datum b = datum (some DatumType.r_bool) b 0 [] no_datums no_datum_pairs

abbrev pub num_datum : ℕ → Datum
num_datum x = datum (some DatumType.r_num) false x [] no_datums no_datum_pairs

abbrev pub array_datum : Datums → Datum
array_datum ds = datum (some DatumType.r_array) false 0 [] ds no_datum_pairs

abbrev pub object_datum : DatumPairs → Datum
object_datum ps = datum (some DatumType.r_object) false 0 [] no_datums ps

abbrev pub null_datum : Datum
null_datum = datum (some DatumType.r_null) false 0 [] no_datums no_datum_pairs

abbrev pub not_a_double : {A : Type 0} → Result A
not_a_double = err (from_driver (other (codes "Value::Number could not be coerced to f64")))

module _ (as_f64 : ℕ → Option ℕ) where
  abbrev pub number_datum : Option ℕ → Result Term
  number_datum none = not_a_double
  number_datum (some x) = ok (datum_term (num_datum x))

  unfoldable mutual
    pub from_json : Value → Result Term
    from_json (string s) = ok (datum_term (str_datum s))
    from_json (bool b) = ok (datum_term (bool_datum b))
    from_json (number n) = number_datum (as_f64 n)
    from_json (array vs) = do args ← elements_loop vs; ok (datum_term (array_datum args))
    from_json (object ms) = do args ← members_loop ms; ok (datum_term (object_datum args))
    from_json null = ok (datum_term null_datum)

    pub elements_loop : Values → Result Datums
    elements_loop no_values = ok no_datums
    elements_loop (a_value v vs) = do
      t ← from_json v
      args ← elements_loop vs
      ok (a_datum (take_datum t) args)

    pub members_loop : Members → Result DatumPairs
    members_loop no_members = ok no_datum_pairs
    members_loop (member name v ms) = do
      t ← from_json v
      args ← members_loop ms
      ok (datum_pair name (take_datum t) args)
