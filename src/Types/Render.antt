-- ===== src/Types/Render.antt =====
-- Writing parts with a comma behind each and trimming the end gives the parts with commas between.
use reql.Base.{
  ℕ, Text, codes, trim_right, show-IsSolid, IsSolid, IsSolid-append, IsSolid-one, trim_right-snoc,
  true, false, ◌≡◌, refl, [], ◌∷◌, ◌++◌, append-nil, append_assoc, arith,
}
use reql.Proto.{Formats}
use reql.Types.Json.{
  Json, Jsons, Fields, null, bool, int, float, str, arr, obj, nil, cons, end, field, ◌+++◌, escape,
  render_str, render, render_items, render_fields,
}
use reql.Types.Wire.{is_plain}

pub escape-is_plain : (s : Text) → is_plain s ≡ true → escape s ≡ s
unfolding is_plain escape
escape-is_plain [] h = refl
escape-is_plain (c ∷ s) h = ground (arith, escape-is_plain s)

glue :
    (a c r : Text)
    → c ≡ r ++ codes ","
    → (a ++ codes ",") ++ c ≡ (a ++ (codes "," ++ r)) ++ codes ","
glue a c r e = rw e (simp append_assoc)

glue_field :
    (k a c r : Text)
    → c ≡ r ++ codes ","
    → (k ++ (codes ":" ++ (a ++ codes ","))) ++ c
      ≡ (k ++ (codes ":" ++ (a ++ (codes "," ++ r)))) ++ codes ","
glue_field k a c r e = rw e (simp append_assoc)

trim_last :
    (p : Text) {c r : Text} → c ≡ r ++ codes "," → IsSolid 44 r → trim_right 44 (p ++ c) ≡ p ++ r
trim_last p {c} {r} e s =
    rw (e, ← append_assoc p r (codes ","), trim_right-snoc) ((IsSolid-append 44 p r s).trimmed)

word : (p : Text) (c : ℕ) → (c ≡ 44 → ⊥) → IsSolid 44 (p ++ c ∷ [])
word p c h = IsSolid-append 44 p (c ∷ []) (IsSolid-one 44 c h)

closed : (p s : Text) (c : ℕ) → (c ≡ 44 → ⊥) → IsSolid 44 (p ++ (s ++ c ∷ []))
closed p s c h = IsSolid-append 44 p (s ++ c ∷ []) (word s c h)

-- Texts in which the driver writes a comma behind every part.
module _ (f : Formats) where
  unfoldable pub commas : Jsons → Text
  commas nil = []
  commas (cons j js) = (render f j ++ codes ",") ++ commas js

  unfoldable pub field_commas : Fields → Text
  field_commas end = []
  field_commas (field k j fs) =
      (render_str k ++ (codes ":" ++ (render f j ++ codes ","))) ++ field_commas fs

  pub commas-append : (js ks : Jsons) → commas (js +++ ks) ≡ commas js ++ commas ks
  unfolding commas
  commas-append nil ks = refl
  commas-append (cons j js) ks = simp (commas-append js ks, append_assoc)

  pub commas-render :
      (j : Json) (js : Jsons) → commas (cons j js) ≡ render_items f (cons j js) ++ codes ","
  unfolding commas render
  commas-render j nil = simp append-nil
  commas-render j (cons k js) = glue (render f j) _ _ (commas-render k js)

  fields-render :
      (k : Text) (j : Json) (fs : Fields)
      → field_commas (field k j fs) ≡ render_fields f (field k j fs) ++ codes ","
  unfolding field_commas render
  fields-render k j end = simp (append-nil, append_assoc)
  fields-render k j (field k' j' fs) =
      glue_field (render_str k) (render f j) _ _ (fields-render k' j' fs)

  -- Doubles are written with no comma at the end.
  module _ (plain : (x : ℕ) → IsSolid 44 (f.format_f64 x)) where
    pub render-IsSolid : (j : Json) → IsSolid 44 (render f j)
    unfolding render
    render-IsSolid null = word (codes "nul") b'l' (λ e. omega arith)
    render-IsSolid (bool true) = word (codes "tru") b'e' (λ e. omega arith)
    render-IsSolid (bool false) = word (codes "fals") b'e' (λ e. omega arith)
    render-IsSolid (int n) = show-IsSolid n
    render-IsSolid (float x) = plain x
    render-IsSolid (str s) = closed (codes "\"") (escape s) b'"' (λ e. omega arith)
    render-IsSolid (arr js) = closed (codes "[") (render_items f js) b']' (λ e. omega arith)
    render-IsSolid (obj fs) = closed (codes "{") (render_fields f fs) b'}' (λ e. omega arith)

    pub render_items-IsSolid : (j : Json) (js : Jsons) → IsSolid 44 (render_items f (cons j js))
    unfolding render
    render_items-IsSolid j nil = rw append-nil (render-IsSolid j)
    render_items-IsSolid j (cons k js) =
        IsSolid-append 44 (render f j) _
          (IsSolid-append 44 (codes ",") _ (render_items-IsSolid k js))

    render_fields-IsSolid :
        (k : Text) (j : Json) (fs : Fields) → IsSolid 44 (render_fields f (field k j fs))
    unfolding render
    render_fields-IsSolid k j end =
        IsSolid-append 44 (render_str k) _
          (IsSolid-append 44 (codes ":") _ (rw append-nil (render-IsSolid j)))
    render_fields-IsSolid k j (field k' j' fs) = IsSolid-append 44 (render_str k) _ (
        IsSolid-append 44 (codes ":") _ (
          IsSolid-append 44 (render f j) _
            (IsSolid-append 44 (codes ",") _ (render_fields-IsSolid k' j' fs))))

    pub trim-commas :
        (p : Text) (js : Jsons)
        → IsSolid 44 p
        → trim_right 44 (p ++ commas js) ≡ p ++ render_items f js
    unfolding commas render
    trim-commas p nil h = rw append-nil h.trimmed
    trim-commas p (cons j js) h = trim_last p (commas-render j js) (render_items-IsSolid j js)

    -- With nothing in front there has to be an item.
    pub trim-commas_cons :
        (j : Json) (js : Jsons) → trim_right 44 (commas (cons j js)) ≡ render_items f (cons j js)
    trim-commas_cons j js = trim_last (codes "") (commas-render j js) (render_items-IsSolid j js)

    pub trim-field_commas :
        (p : Text) (fs : Fields)
        → IsSolid 44 p
        → trim_right 44 (p ++ field_commas fs) ≡ p ++ render_fields f fs
    unfolding field_commas render
    trim-field_commas p end h = rw append-nil h.trimmed
    trim-field_commas p (field k j fs) h =
        trim_last p (fields-render k j fs) (render_fields-IsSolid k j fs)
