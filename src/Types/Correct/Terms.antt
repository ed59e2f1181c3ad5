-- ===== src/Types/Correct/Terms.antt =====
-- `Request::encode` writes the JSON of a term.
use mathlib.Core.Option.{some-injective}
use reql.Base.{
  ℕ, Text, codes, trim_right, IsSolid, IsSolid-one, Option, none, some, >>=-eq-some, ◌≡◌, refl,
  List, [], ◌∷◌, ◌++◌, append_assoc, append-nil, arith, sym, ap, ◌∙◌, subst,
}
use reql.Proto.{
  Formats, Datum, Term, TermType, Terms, TermPairs, term, no_terms, a_term, no_pairs, a_pair,
  term_type,
}
use reql.Types.Json.{
  Json, Jsons, Fields, arr, obj, nil, cons, field, ◌+++◌, escape, render, render_items,
}
use reql.Types.Encode.{
  quoted, encode_datum_part, args_part, optargs_part, encode, args_loop, pairs_loop,
}
use reql.Types.Wire.{
  single, not_empty, wire_datum, wire_datum_part, wire_args_part, wire_optargs_part, wire,
  wire_args, wire_pairs,
}
use reql.Types.Render.{
  commas, field_commas, commas-append, commas-render, trim-commas, trim-commas_cons,
  trim-field_commas,
}
use reql.Types.Correct.Data.{into, plain_then-eq-some, encode_datum-wire}
use reql.Types.Correct.Parts.{Parts, done, one_part, Parts-append, close-Parts}

pub not_empty-eq-some :
    (js : Jsons) {ks : Jsons}
    → not_empty js ≡ some ks
    → (j : Json) × (ls : Jsons) × (js ≡ cons j ls) × (ks ≡ cons j ls)
not_empty-eq-some nil h = cc
not_empty-eq-some (cons j js) h = (j, js, refl, cc)

single-eq-some : (js : Jsons) {j : Json} → single js ≡ some j → js ≡ cons j nil
single-eq-some nil h = cc
single-eq-some (cons j nil) h = cc
single-eq-some (cons j (cons k ks)) h = cc

module _ (f : Formats) where
  -- An argument list that is not empty stands for one value at least.
  pub args-not_empty :
      (t : Term) (ts : Terms) (js : Jsons)
      → wire_args f (a_term t ts) ≡ some js
      → (j : Json) × (ks : Jsons) × (js ≡ cons j ks)
  unfolding wire
  args-not_empty t ts js h =
      let (own, e, e') = >>=-eq-some (wire f t) _ h in
      let (ks, i, i') = >>=-eq-some (not_empty own) _ e' in
      let (j, ls, _, q) = not_empty-eq-some own i in
      let (rest, z, z') = >>=-eq-some (wire_args f ts) _ i' in
      (j, ls +++ rest, sym (some-injective _ _ z') ∙ ap (λ m. m +++ rest) q)

module _ (f : Formats) (plain : (x : ℕ) → IsSolid 44 (f.format_f64 x)) where
  datum_part-Parts :
      (d : Option Datum) (js : Jsons)
      → wire_datum_part f d ≡ some js
      → (xs : List Text) × (encode_datum_part f d ≡ some xs) × Parts f xs js
  datum_part-Parts none js h = ([], refl, subst (Parts f []) (some-injective _ _ h) done)
  datum_part-Parts (some d) js h =
      let (j, e, e') = >>=-eq-some (wire_datum f d) _ h in
      (
        render f j ∷ [],
        rw (encode_datum-wire f plain d j e),
        subst (Parts f (render f j ∷ [])) (some-injective _ _ e')
            (one_part f nil (render-single j)),
      )
    where
      render-single : (j : Json) → render f j ≡ render_items f (cons j nil)
      render-single j = unfold render in sym (append-nil (render f j))

  arr_part :
      (js : Jsons)
      → trim_right 44 (codes "[" ++ commas f js) ++ codes "]" ≡ render_items f (cons (arr js) nil)
  unfolding render
  arr_part js =
      rw (trim-commas f plain _ js (IsSolid-one 44 b'[' (λ e. omega arith)))
        (simp (append_assoc, append-nil))

  obj_part :
      (fs : Fields)
      → trim_right 44 (codes "{" ++ field_commas f fs) ++ codes "}"
        ≡ render_items f (cons (obj fs) nil)
  unfolding render
  obj_part fs =
      rw (trim-field_commas f plain _ fs (IsSolid-one 44 b'{' (λ e. omega arith)))
        (simp (append_assoc, append-nil))

  field_text :
      (k : Text) (j : Json) (fs : Fields)
      → escape k ≡ k
      → (quoted k ++ (codes ":" ++ (render_items f (cons j nil) ++ codes ","))) ++ field_commas f fs
        ≡ field_commas f (field k j fs)
  unfolding render field_commas
  field_text k j fs e = rw (e, append-nil)

  args_part-Parts :
      (ty : Option TermType) (ts : Terms) (js : Jsons)
      → wire_args f ts ≡ some js
      → Parts f (args_part ty ts (commas f js)) (wire_args_part ty ts js)
  args_part-Parts ty no_terms js h = done
  args_part-Parts none (a_term t ts) js h =
      let (j, ks, q) = args-not_empty f t ts js h in
      rw q (one_part f ks (trim-commas_cons f plain j ks))
  args_part-Parts (some ty) (a_term t ts) js h = one_part f nil (arr_part js)

  optargs_part-Parts :
      (ps : TermPairs) (fs : Fields)
      → Parts f (optargs_part ps (field_commas f fs)) (wire_optargs_part ps fs)
  optargs_part-Parts no_pairs fs = done
  optargs_part-Parts (a_pair k v ps) fs = one_part f nil (obj_part fs)

  mutual
    unfolding encode wire commas field_commas

    pub encode-wire_term :
        (t : Term) (js : Jsons) → wire f t ≡ some js → encode f t ≡ some (render_items f js)
    encode-wire_term (term ty d ts ps) js h =
        let (ds, e, e') = >>=-eq-some (wire_datum_part f d) _ h in
        let (ks, i, i') = >>=-eq-some (wire_args f ts) _ e' in
        let (fs, z, z') = >>=-eq-some (wire_pairs f ps) _ i' in
        let (xs, w, p) = datum_part-Parts d ds e in
        let parts =
          Parts-append f p
            (Parts-append f (args_part-Parts ty ts ks i) (optargs_part-Parts ps fs)) in
        into (render_items f)
          (rw (w, args_loop-wire ts ks i, pairs_loop-wire ps fs z)
            (ap some (close-Parts f (term_type ty) parts)))
          z'

    args_loop-wire :
        (ts : Terms) (js : Jsons) → wire_args f ts ≡ some js → args_loop f ts ≡ some (commas f js)
    args_loop-wire no_terms js h = into (commas f) refl h
    args_loop-wire (a_term t ts) js h =
        let (own, e, e') = >>=-eq-some (wire f t) _ h in
        let (ks, i, i') = >>=-eq-some (not_empty own) _ e' in
        let (rest, z, z') = >>=-eq-some (wire_args f ts) _ i' in
        let (j, ls, q, q') = not_empty-eq-some own i in
        let text =
          commas-append f (cons j ls) rest
          ∙ ap (λ (s : Text). s ++ commas f rest) (commas-render f j ls) in
        into (commas f)
          (rw (encode-wire_term t own e, args_loop-wire ts rest z, q, q') (ap some (sym text))) z'

    pairs_loop-wire :
        (ps : TermPairs) (fs : Fields)
        → wire_pairs f ps ≡ some fs
        → pairs_loop f ps ≡ some (field_commas f fs)
    pairs_loop-wire no_pairs fs h = into (field_commas f) refl h
    pairs_loop-wire (a_pair k v ps) fs h =
        let (own, e, e') = >>=-eq-some (wire f v) _ h in
        let (j, i, i') = >>=-eq-some (single own) _ e' in
        let (gs, z, z') = >>=-eq-some (wire_pairs f ps) _ i' in
        let (q, w) = plain_then-eq-some k (some (field k j gs)) z' in
        into (field_commas f)
          (rw (encode-wire_term v own e, pairs_loop-wire ps gs z, single-eq-some own i)
            (ap some (field_text k j gs q)))
          w

  -- A term that stands for JSON values is written as these values with commas between them: a
  -- command as the array of its number, its arguments and its options. Doubles are assumed to be
  -- written with no comma at the end.
  pub encode-wire :
      (t : Term) (js : Jsons) → wire f t ≡ some js → encode f t ≡ some (render_items f js)
  encode-wire = encode-wire_term
