-- ===== src/Types/Values.antt =====
-- Values on the wire: `Term::from_json` and `encode` one after the other.
use reql.Base.{ℕ, IsSolid, Option, some, ◌>>=◌, >>=-eq-some, ◌≡◌, refl, ◌∙◌, ap, append-nil}
use reql.Errors.{ok}
use reql.Proto.{
  Formats, Datum, Datums, DatumPairs, no_datums, a_datum, no_datum_pairs, datum_pair, make_array,
  Term,
}
use reql.Types.Value.{
  Value, Values, Members, null, bool, number, string, array, object, no_values, a_value, no_members,
  member,
}
use reql.Types.FromJson.{
  from_json, elements_loop, members_loop, datum_term, str_datum, bool_datum, num_datum, array_datum,
  object_datum, null_datum,
}
use reql.Types.Json.{Json, Jsons, Fields, int, float, str, arr, obj, nil, cons, end, field, render}
use reql.Types.Wire.{plain_then, wire_datum, wire_datums, wire_datum_pairs, wire}
use reql.Types.Encode.{encode}
use reql.Types.Correct.{encode-wire}

-- The JSON of a value in a query: an array is a MAKE_ARRAY command, and a string has no character
-- that needs an escape. `none` for another string or a number that is no double.
module _ (f : Formats) (as_f64 : ℕ → Option ℕ) where
  unfoldable mutual
    pub value_json : Value → Option Json
    value_json null = some Json.null
    value_json (bool b) = some (Json.bool b)
    value_json (number n) = do x ← as_f64 n; some (float x)
    value_json (string s) = plain_then s (some (str s))
    value_json (array vs) = do
      js ← values_json vs
      some (arr (cons (int (f.term_value make_array)) (cons (arr js) nil)))
    value_json (object ms) = do fs ← members_json ms; some (obj fs)

    pub values_json : Values → Option Jsons
    values_json no_values = some nil
    values_json (a_value v vs) = do j ← value_json v; js ← values_json vs; some (cons j js)

    pub members_json : Members → Option Fields
    members_json no_members = some end
    members_json (member k v ms) = do
      j ← value_json v
      fs ← members_json ms
      plain_then k (some (field k j fs))

  mutual
    unfolding value_json from_json wire_datum

    from_json-wire :
        (v : Value) (j : Json)
        → value_json v ≡ some j
        → (d : Datum) × (from_json as_f64 v ≡ ok (datum_term d)) × (wire_datum f d ≡ some j)
    from_json-wire null j h = (null_datum, refl, h)
    from_json-wire (bool b) j h = (bool_datum b, refl, h)
    from_json-wire (number n) j h =
        let (x, e, e') = >>=-eq-some (as_f64 n) _ h in (num_datum x, rw e refl, e')
    from_json-wire (string s) j h = (str_datum s, refl, h)
    from_json-wire (array vs) j h =
        let (js, e, e') = >>=-eq-some (values_json vs) _ h in
        let (ds, i, i') = elements_loop-wire vs js e in (array_datum ds, rw i refl, rw i' e')
    from_json-wire (object ms) j h =
        let (fs, e, e') = >>=-eq-some (members_json ms) _ h in
        let (ds, i, i') = members_loop-wire ms fs e in (object_datum ds, rw i refl, rw i' e')

    elements_loop-wire :
        (vs : Values) (js : Jsons)
        → values_json vs ≡ some js
        → (ds : Datums) × (elements_loop as_f64 vs ≡ ok ds) × (wire_datums f ds ≡ some js)
    elements_loop-wire no_values js h = (no_datums, refl, h)
    elements_loop-wire (a_value v vs) js h =
        let (j, e, e') = >>=-eq-some (value_json v) _ h in
        let (ks, i, i') = >>=-eq-some (values_json vs) _ e' in
        let (d, w, w') = from_json-wire v j e in
        let (ds, z, z') = elements_loop-wire vs ks i in
        (a_datum d ds, rw (w, z) refl, rw (w', z') i')

    members_loop-wire :
        (ms : Members) (fs : Fields)
        → members_json ms ≡ some fs
        → (ps : DatumPairs) × (members_loop as_f64 ms ≡ ok ps) × (wire_datum_pairs f ps ≡ some fs)
    members_loop-wire no_members fs h = (no_datum_pairs, refl, h)
    members_loop-wire (member k v ms) fs h =
        let (j, e, e') = >>=-eq-some (value_json v) _ h in
        let (gs, i, i') = >>=-eq-some (members_json ms) _ e' in
        let (d, w, w') = from_json-wire v j e in
        let (ps, z, z') = members_loop-wire ms gs i in
        (datum_pair k d ps, rw (w, z) refl, rw (w', z') i')

  -- A value whose JSON can be written converts to a term, and the term is written as that JSON.
  pub encode-from_json :
      (plain : (x : ℕ) → IsSolid 44 (f.format_f64 x)) (v : Value) (j : Json)
      → value_json v ≡ some j
      → (t : Term) × (from_json as_f64 v ≡ ok t) × (encode f t ≡ some (render f j))
  unfolding wire
  encode-from_json plain v j h =
      let (d, e, e') = from_json-wire v j h in
      let one : wire f (datum_term d) ≡ some (cons j nil) = rw e' in
      (
        datum_term d,
        e,
        encode-wire f plain (datum_term d) (cons j nil) one
            ∙ ap some (unfold render in append-nil (render f j)),
      )
