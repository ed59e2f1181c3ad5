-- ===== src/Types/Correct/Parts.antt =====
-- The parts of a term's text, each the text of one JSON value or more, joined by commas.
use reql.Base.{
  ℕ, Text, codes, join, show, List, [], ◌∷◌, ◌++◌, ◌≡◌, refl, sym, append-nil, append_assoc,
}
use reql.Proto.{Formats, TermType, data_term}
use reql.Types.Json.{Json, Jsons, int, arr, nil, cons, ◌+++◌, render, render_items, render_more}
use reql.Types.Encode.{type_part, close_type}
use reql.Types.Wire.{wire_close}

pub +++-nil : (js : Jsons) → js +++ nil ≡ js
+++-nil nil = refl
+++-nil (cons j js) = rw (+++-nil js)

pub +++_assoc : (js bs cs : Jsons) → (js +++ bs) +++ cs ≡ js +++ (bs +++ cs)
+++_assoc nil bs cs = refl
+++_assoc (cons j js) bs cs = rw (+++_assoc js bs cs)

module _ (f : Formats) where
  pub render_more-append :
      (js : Jsons) (k : Json) (ks : Jsons)
      → render_more f (js +++ cons k ks)
        ≡ render_more f js ++ (codes "," ++ render_items f (cons k ks))
  unfolding render
  render_more-append nil k ks = refl
  render_more-append (cons j js) k ks = rw (render_more-append js k ks) (simp append_assoc)

  pub data Parts : List Text → Jsons → Type 0 where
    done : Parts [] nil
    part :
        {x : Text} {xs : List Text} {j : Json} (js : Jsons) {ks : Jsons}
        → x ≡ render_items f (cons j js)
        → Parts xs ks
        → Parts (x ∷ xs) (cons j (js +++ ks))

  pub one_part :
      {x : Text} {j : Json} (js : Jsons)
      → x ≡ render_items f (cons j js)
      → Parts (x ∷ []) (cons j js)
  one_part js e = rw (+++-nil js) at (part js e done)

  pub Parts-append :
      {xs ys : List Text} {js ks : Jsons} → Parts xs js → Parts ys ks → Parts (xs ++ ys) (js +++ ks)
  Parts-append done q = q
  Parts-append {ks = zs} (part js {ks} e p) q =
      rw (+++_assoc js ks zs) (part js e (Parts-append p q))

  pub join-Parts :
      {xs : List Text} {js : Jsons} → Parts xs js → join (codes ",") xs ≡ render_items f js
  unfolding join render
  join-Parts done = refl
  join-Parts (part js e done) = rw (e, +++-nil js)
  join-Parts (part js e (part {j = k} ks {ks = ls} e' p)) =
      rw (e, render_more-append js k (ks +++ ls), join-Parts (part ks e' p)) (simp append_assoc)

  join-bracket :
      (s : Text) (xs : List Text)
      → join (codes ",") ((codes "[" ++ s) ∷ xs) ≡ codes "[" ++ join (codes ",") (s ∷ xs)
  unfolding join
  join-bracket s [] = refl
  join-bracket s (x ∷ xs) = refl

  typed :
      (n : ℕ) {xs : List Text} {js : Jsons}
      → Parts xs js
      → join (codes ",") ((codes "[" ++ show n) ∷ xs) ++ codes "]"
        ≡ render_items f (cons (arr (cons (int n) js)) nil)
  unfolding render
  typed n {xs} {js} p =
      rw (join-bracket (show n) xs, join-Parts (part {j = int n} nil (sym (append-nil (show n))) p))
        (simp (append_assoc, append-nil))

  -- A term with a type is one array, another one its parts.
  pub close-Parts :
      (t : TermType) {xs : List Text} {js : Jsons}
      → Parts xs js
      → close_type f t (join (codes ",") (type_part f t ++ xs)) ≡ render_items f (wire_close f t js)
  close-Parts data_term p = join-Parts p
  close-Parts t p = typed (f.term_value t) p
