-- ===== src/Types/Correct/Data.antt =====
-- `Datum::encode` writes the JSON of a datum.
use mathlib.Core.Option.{some-injective}
use reql.Base.{
  ℕ, Text, codes, show, trim_right, IsSolid, IsSolid-append, IsSolid-one, true, false, Option, none,
  some, >>=-eq-some, Bool-cases, inl, inr, ◌≡◌, refl, subst, ◌++◌, append_assoc, append-nil, arith,
}
use reql.Proto.{
  Formats, DatumType, Datum, Datums, DatumPairs, datum, no_datums, a_datum, no_datum_pairs,
  datum_pair, make_array,
}
use reql.Types.Json.{Json, Jsons, Fields, int, str, arr, obj, nil, cons, field, render, escape}
use reql.Types.Encode.{encode_datum, datums_loop, datum_pairs_loop}
use reql.Types.Wire.{is_plain, plain_then, wire_datum, wire_datums, wire_datum_pairs}
use reql.Types.Render.{escape-is_plain, commas, field_commas, trim-commas, trim-field_commas}

pub plain_then-eq-some {ℓ} :
    {A : Type ℓ} (s : Text) (r : Option A) {a : A}
    → plain_then s r ≡ some a
    → (escape s ≡ s) × (r ≡ some a)
plain_then-eq-some s r h = elim (Bool-cases (is_plain s)) [
  | inl p ↦ (escape-is_plain s p, rw p at h)
  | inr p ↦ ground (arith, p)
]

-- A result that is known for one value holds for the value that the chain gave.
pub into {ℓ κ} :
    {A : Type ℓ} {B : Type κ} (g : A → B) {m : Option B} {x y : A}
    → m ≡ some (g x)
    → some x ≡ some y
    → m ≡ some (g y)
into g {m} e h = subst (λ z. m ≡ some (g z)) (some-injective _ _ h) e

module _ (f : Formats) (plain : (x : ℕ) → IsSolid 44 (f.format_f64 x)) where
  arr_text :
      (js : Jsons)
      → let n = f.term_value make_array in
        some (trim_right 44 ((codes "[" ++ (show n ++ codes ",[")) ++ commas f js) ++ codes "]]")
        ≡ some (render f (arr (cons (int n) (cons (arr js) nil))))
  unfolding render
  arr_text js =
      let tail = IsSolid-append 44 (codes ",") _ (IsSolid-one 44 b'[' (λ e. omega arith)) in
      let number = IsSolid-append 44 (show (f.term_value make_array)) _ tail in
      rw (trim-commas f plain _ js (IsSolid-append 44 (codes "[") _ number))
        (simp (append_assoc, append-nil))

  obj_text :
      (fs : Fields)
      → some (trim_right 44 (codes "{" ++ field_commas f fs) ++ codes "}")
        ≡ some (render f (obj fs))
  unfolding render
  obj_text fs =
      rw (trim-field_commas f plain _ fs (IsSolid-one 44 b'{' (λ e. omega arith)))
        (simp append_assoc)

  mutual
    unfolding encode_datum wire_datum render commas field_commas

    pub encode_datum-wire :
        (d : Datum) (j : Json) → wire_datum f d ≡ some j → encode_datum f d ≡ some (render f j)
    encode_datum-wire (datum none b n s xs ps) j h = into (render f) refl h
    encode_datum-wire (datum (some DatumType.r_null) b n s xs ps) j h = into (render f) refl h
    encode_datum-wire (datum (some DatumType.r_bool) true n s xs ps) j h = into (render f) refl h
    encode_datum-wire (datum (some DatumType.r_bool) false n s xs ps) j h = into (render f) refl h
    encode_datum-wire (datum (some DatumType.r_num) b n s xs ps) j h = into (render f) refl h
    encode_datum-wire (datum (some DatumType.r_str) b n s xs ps) j h =
        let (q, e) = plain_then-eq-some s (some (str s)) h in into (render f) (rw q) e
    encode_datum-wire (datum (some DatumType.r_array) b n s xs ps) j h =
        let (js, e, e') = >>=-eq-some (wire_datums f xs) _ h in
        into (render f) (rw (datums_loop-wire xs js e) (arr_text js)) e'
    encode_datum-wire (datum (some DatumType.r_object) b n s xs ps) j h =
        let (fs, e, e') = >>=-eq-some (wire_datum_pairs f ps) _ h in
        into (render f) (rw (datum_pairs_loop-wire ps fs e) (obj_text fs)) e'
    encode_datum-wire (datum (some DatumType.r_json) b n s xs ps) j h = cc

    pub datums_loop-wire :
        (ds : Datums) (js : Jsons)
        → wire_datums f ds ≡ some js
        → datums_loop f ds ≡ some (commas f js)
    datums_loop-wire no_datums js h = into (commas f) refl h
    datums_loop-wire (a_datum d ds) js h =
        let (j, e, e') = >>=-eq-some (wire_datum f d) _ h in
        let (ks, i, i') = >>=-eq-some (wire_datums f ds) _ e' in
        into (commas f) (rw (encode_datum-wire d j e, datums_loop-wire ds ks i)) i'

    pub datum_pairs_loop-wire :
        (ps : DatumPairs) (fs : Fields)
        → wire_datum_pairs f ps ≡ some fs
        → datum_pairs_loop f ps ≡ some (field_commas f fs)
    datum_pairs_loop-wire no_datum_pairs fs h = into (field_commas f) refl h
    datum_pairs_loop-wire (datum_pair k d ps) fs h =
        let (j, e, e') = >>=-eq-some (wire_datum f d) _ h in
        let (gs, i, i') = >>=-eq-some (wire_datum_pairs f ps) _ e' in
        let (q, z) = plain_then-eq-some k (some (field k j gs)) i' in
        into (field_commas f) (rw (encode_datum-wire d j e, datum_pairs_loop-wire ps gs i, q)) z
