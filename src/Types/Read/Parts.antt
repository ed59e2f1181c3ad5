-- ===== src/Types/Read/Parts.antt =====
-- What is read of the parts of a text, with what is written behind them.
use reql.Base.{
  ℕ, suc, ◌+◌, ◌*◌, ◌<◌, Text, length, true, false, Option, some, ◌>>=◌, [], ◌∷◌, ◌++◌, show,
  append_assoc, ◌≡◌, refl, ap, arith,
}
use reql.Proto.{Formats}
use reql.Types.Json.{
  Json, Jsons, Fields, null, bool, int, float, str, arr, obj, nil, cons, end, field, render_str,
  render, render_more, render_fields_more,
}
use reql.Types.Read.{
  Tree, word, text, list, object, Trees, a_tree, Members, member, expect, as_word, as_text,
  read_tree, read_more, read_members, shape, shapes, member_shapes,
}
use reql.Types.Read.Strings.{read_str-escape, read_word-append, IsWord, show-IsWord, Ends}

-- With fuel above `bound`, `p` reads `a` off what is written.
abbrev pub Reads {ℓ} : {A : Type ℓ} → (ℕ → Text → Option (A × Text)) → ℕ → Text → A → Type ℓ
Reads p bound written a =
    (rest : Text) → Ends rest → (f : ℕ) → bound < f → p f (written ++ rest) ≡ some (a, rest)

abbrev pub as_list : Trees × Text → Option (Tree × Text)
as_list (ts, rest) = some (list ts, rest)

abbrev pub as_object : Members × Text → Option (Tree × Text)
as_object (ms, rest) = some (object ms, rest)

abbrev pub cons_tree : Tree → Trees × Text → Option (Trees × Text)
cons_tree t (ts, rest) = some (a_tree t ts, rest)

abbrev pub then_more : ℕ → Tree × Text → Option (Trees × Text)
then_more n (t, rest) = read_more n rest >>= cons_tree t

abbrev pub cons_member : Text → Tree → Members × Text → Option (Members × Text)
cons_member k t (ms, rest) = some (member k t ms, rest)

abbrev pub then_members : ℕ → Text → Tree × Text → Option (Members × Text)
then_members n k (t, rest) = read_members n rest >>= cons_member k t

abbrev pub then_value : ℕ → Text × Text → Option (Members × Text)
then_value n (k, rest) = expect b':' rest >>= λ s. read_tree n s >>= then_members n k

pub read_tree-IsWord :
    (w rest : Text) (n : ℕ)
    → IsWord w
    → Ends rest
    → read_tree (suc n) (w ++ rest) ≡ some (word w, rest)
unfolding read_tree
read_tree-IsWord [] rest n h e = elim h [ ]
read_tree-IsWord (c ∷ w) rest n (k, h, hs) e =
    rw (k, read_tree) (ap as_word (read_word-append (c ∷ w) rest (h, hs) e))

pub read_tree_text :
    (s rest : Text) (n : ℕ) → read_tree (suc n) (render_str s ++ rest) ≡ some (text s, rest)
unfolding read_tree
read_tree_text s rest n = rw append_assoc (ap (λ o. o >>= as_text) (read_str-escape s rest))

pub length_pos : (w : Text) → IsWord w → 0 < length w
length_pos [] h = elim h [ ]
length_pos (c ∷ w) h = omega arith

module _ (f : Formats) where
  abbrev pub ReadsTree : Json → Type 0
  ReadsTree j = Reads read_tree (2 * length (render f j)) (render f j) (shape f j)

  -- Behind the opening bracket, and behind the first part: up to the closing bracket.
  abbrev pub Up {ℓ} : {A : Type ℓ} → (ℕ → Text → Option (A × Text)) → ℕ → Text → A → Type ℓ
  Up p close written a =
      (rest : Text) (n : ℕ)
      → 2 * length written + 1 < n
      → p n (written ++ (close ∷ rest)) ≡ some (a, rest)

  abbrev pub ReadsMore : Jsons → Type 0
  ReadsMore js = Up read_more b']' (render_more f js) (shapes f js)

  abbrev pub ReadsMembers : Fields → Type 0
  ReadsMembers fs = Up read_members b'}' (render_fields_more f fs) (member_shapes f fs)

  pub Ends-more : (js : Jsons) (rest : Text) → Ends (render_more f js ++ (b']' ∷ rest))
  unfolding render
  Ends-more nil rest = refl
  Ends-more (cons j js) rest = refl

  pub Ends-members : (fs : Fields) (rest : Text) → Ends (render_fields_more f fs ++ (b'}' ∷ rest))
  unfolding render
  Ends-members end rest = refl
  Ends-members (field k j fs) rest = refl

module _ (f : Formats) (words : (x : ℕ) → IsWord (f.format_f64 x)) where
  pub length-render_pos : (j : Json) → 0 < length (render f j)
  unfolding render
  length-render_pos null = omega arith
  length-render_pos (bool true) = omega arith
  length-render_pos (bool false) = omega arith
  length-render_pos (int n) = length_pos (show n) (show-IsWord n)
  length-render_pos (float x) = length_pos (f.format_f64 x) (words x)
  length-render_pos (str s) = omega arith
  length-render_pos (arr js) = omega arith
  length-render_pos (obj fs) = omega arith
