-- ===== src/Types/Read/RoundTrip.antt =====
-- A JSON that is written is read as its shape.
use reql.Base.{
  ℕ, zero, suc, ◌+◌, ◌*◌, ◌<◌, Text, length, length-append, true, false, some, ◌>>=◌, [], ◌∷◌, ◌++◌,
  ◌==◌, ◌≤◌, sym, codes, show, append_assoc, append-nil, ◌≡◌, refl, ◌∙◌, ap, arith,
}
use reql.Proto.{Formats}
use reql.Types.Json.{
  Json, Jsons, Fields, null, bool, int, float, str, arr, obj, nil, cons, end, field, escape,
  render_str, render, render_more, render_fields_more,
}
use reql.Types.Read.{
  is_end, read_tree, read_list, read_object, read_member, whole, read_json, shape, shapes,
  member_shapes,
}
use reql.Types.Read.Strings.{read_str-escape, IsWord, show-IsWord}
use reql.Types.Read.Parts.{
  as_list, as_object, then_more, ReadsTree, ReadsMore, ReadsMembers, read_tree-IsWord,
  read_tree_text, Ends-more, Ends-members, length-render_pos,
}

module _ (f : Formats) (words : (x : ℕ) → IsWord (f.format_f64 x)) where
  -- A part of a list, and what is read of the list behind it.
  two_parts :
      (j : Json) (js : Jsons) (rest : Text) (n : ℕ)
      → ReadsTree f j
      → ReadsMore f js
      → 2 * length (render f j ++ render_more f js) < n
      → (read_tree n (render f j ++ (render_more f js ++ (b']' ∷ rest))) >>= then_more n)
        ≡ some (shapes f (cons j js), rest)
  unfolding shape
  two_parts j js rest n h hs fuel =
      let e = length-append (render f j) (render_more f js) in
      let p = length-render_pos f words j in
      rw
        (
          h (render_more f js ++ (b']' ∷ rest)) (Ends-more f js rest) n (omega arith),
          hs rest n (omega arith),
        )
        refl

  list-IsWord :
      (w s : Text) (n : ℕ)
      → IsWord w
      → read_list (suc n) (w ++ s) ≡ (read_tree n (w ++ s) >>= then_more n)
  unfolding read_list
  list-IsWord [] s n h = elim h [ ]
  list-IsWord (c ∷ w) s n (k, h, hs) = rw (read_list, not_bracket c h) refl
    where
      not_bracket : (c : ℕ) → is_end c ≡ false → (c == b']') ≡ false
      not_bracket c h = ground arith

  -- A list that does not end at once has a first part.
  first_part :
      (j : Json) (s : Text) (n : ℕ)
      → read_list (suc n) (render f j ++ s) ≡ (read_tree n (render f j ++ s) >>= then_more n)
  unfolding read_list render
  first_part null s n = refl
  first_part (bool true) s n = refl
  first_part (bool false) s n = refl
  first_part (int k) s n = list-IsWord (show k) s n (show-IsWord k)
  first_part (float x) s n = list-IsWord (f.format_f64 x) s n (words x)
  first_part (str t) s n = refl
  first_part (arr js) s n = refl
  first_part (obj fs) s n = refl

  member_text :
      (k v u : Text)
      → (render_str k ++ (b':' ∷ v)) ++ u ≡ b'"' ∷ (escape k ++ (b'"' ∷ b':' ∷ (v ++ u)))
  member_text k v u =
      ap (λ t. b'"' ∷ t)
        (ap (λ t. t ++ u) (append_assoc (escape k) _ _) ∙ append_assoc (escape k) _ _)

  length-member : (k v : Text) → length v + 3 ≤ length (render_str k ++ (b':' ∷ v))
  length-member k v =
      let e = length-append (render_str k) (b':' ∷ v) in
      let e' = length-append (escape k) (codes "\"") in omega arith

  -- A key with its value, and what is read of the object behind it.
  read_member_text :
      (k : Text) (j : Json) (fs : Fields) (rest : Text) (n : ℕ)
      → ReadsTree f j
      → ReadsMembers f fs
      → 2 * length (render f j ++ render_fields_more f fs) + 1 < n
      → read_member (suc n) (
          b'"'
          ∷ (escape k
              ++ (b'"' ∷ b':' ∷ (render f j ++ (render_fields_more f fs ++ (b'}' ∷ rest))))))
        ≡ some (member_shapes f (field k j fs), rest)
  unfolding read_member shape
  read_member_text k j fs rest n h hs fuel =
      let e = length-append (render f j) (render_fields_more f fs) in
      let u = render_fields_more f fs ++ (b'}' ∷ rest) in
      rw
        (
          read_str-escape k (b':' ∷ (render f j ++ u)),
          h u (Ends-members f fs rest) n (omega arith),
          hs rest n (omega arith),
        )
        refl

  member_part :
      (k : Text) (j : Json) (fs : Fields) (rest : Text) (n : ℕ)
      → ReadsTree f j
      → ReadsMembers f fs
      → 2 * length (render_str k ++ (b':' ∷ (render f j ++ render_fields_more f fs))) < suc n
      → read_member
          (suc n)
          ((render_str k ++ (b':' ∷ (render f j ++ render_fields_more f fs))) ++ (b'}' ∷ rest))
        ≡ some (member_shapes f (field k j fs), rest)
  member_part k j fs rest n h hs fuel =
      let l = length-member k (render f j ++ render_fields_more f fs) in
      let u = b'}' ∷ rest in
      let v = render f j ++ render_fields_more f fs in
      ap (read_member (suc n)) (
        member_text k v u
        ∙ ap (λ t. b'"' ∷ (escape k ++ (b'"' ∷ b':' ∷ t))) (append_assoc (render f j) _ u))
      ∙ read_member_text k j fs rest n h hs (omega arith)

  list_part :
      (j : Json) (js : Jsons) (rest : Text) (n : ℕ)
      → ReadsTree f j
      → ReadsMore f js
      → 2 * length (render f j ++ render_more f js) < n
      → read_list (suc n) (((render f j ++ render_more f js) ++ codes "]") ++ rest)
        ≡ some (shapes f (cons j js), rest)
  list_part j js rest n h hs fuel =
      ap (read_list (suc n))
        (append_assoc (render f j ++ render_more f js) _ _ ∙ append_assoc (render f j) _ _)
      ∙ first_part j _ n
      ∙ two_parts j js rest n h hs fuel

  mutual
    unfolding read_tree render shape

    tree_lem : (j : Json) → ReadsTree f j
    tree_lem j rest e zero h = absurd (omega arith)
    tree_lem null rest e (suc n) h =
        read_tree-IsWord (codes "null") rest n (refl, refl, (refl, (refl, (refl, tt)))) e
    tree_lem (bool true) rest e (suc n) h =
        read_tree-IsWord (codes "true") rest n (refl, refl, (refl, (refl, (refl, tt)))) e
    tree_lem (bool false) rest e (suc n) h =
        read_tree-IsWord (codes "false") rest n (refl, refl, (refl, (refl, (refl, (refl, tt))))) e
    tree_lem (int k) rest e (suc n) h = read_tree-IsWord (show k) rest n (show-IsWord k) e
    tree_lem (float x) rest e (suc n) h = read_tree-IsWord (f.format_f64 x) rest n (words x) e
    tree_lem (str s) rest e (suc n) h = read_tree_text s rest n
    tree_lem (arr nil) rest e (suc zero) h = absurd (omega arith)
    tree_lem (arr nil) rest e (suc (suc n)) h = refl
    tree_lem (arr (cons j js)) rest e (suc zero) h = absurd (omega arith)
    tree_lem (arr (cons j js)) rest e (suc (suc n)) h =
        let l = length-append (render f j ++ render_more f js) (codes "]") in
        ap (λ o. o >>= as_list) (list_part j js rest n (tree_lem j) (more_lem js) (omega arith))
    tree_lem (obj end) rest e (suc zero) h = absurd (omega arith)
    tree_lem (obj end) rest e (suc (suc n)) h = refl
    tree_lem (obj (field k j fs)) rest e (suc zero) h = absurd (omega arith)
    tree_lem (obj (field k j fs)) rest e (suc (suc zero)) h = absurd (omega arith)
    tree_lem (obj (field k j fs)) rest e (suc (suc (suc n))) h =
        let w = render_str k ++ (b':' ∷ (render f j ++ render_fields_more f fs)) in
        let l = length-append w (codes "}") in
        ap (λ o. o >>= as_object)
          (ap (read_object (suc (suc n))) (append_assoc w _ rest)
            ∙ member_part k j fs rest n (tree_lem j) (members_lem fs) (omega arith))

    more_lem : (js : Jsons) → ReadsMore f js
    more_lem js rest zero h = absurd (omega arith)
    more_lem nil rest (suc n) h = refl
    more_lem (cons j js) rest (suc n) h =
        ap (λ t. read_tree n t >>= then_more n) (append_assoc (render f j) _ _)
        ∙ two_parts j js rest n (tree_lem j) (more_lem js) (omega arith)

    members_lem : (fs : Fields) → ReadsMembers f fs
    members_lem fs rest zero h = absurd (omega arith)
    members_lem end rest (suc n) h = refl
    members_lem (field k j fs) rest (suc zero) h = absurd (omega arith)
    members_lem (field k j fs) rest (suc (suc n)) h =
        member_part k j fs rest n (tree_lem j) (members_lem fs) (omega arith)

  -- The reader gives back the shape of a JSON from the text that is written of it.
  pub read_json-render : (j : Json) → read_json (render f j) ≡ some (shape f j)
  unfolding read_json
  read_json-render j = ap whole (
      ap (read_tree (2 * length (render f j) + 1)) (sym (append-nil (render f j)))
      ∙ tree_lem j [] tt (2 * length (render f j) + 1) (omega arith))
