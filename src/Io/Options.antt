-- ===== src/Io/Options.antt =====
-- The options of a query, as `args!(conn, {…})` builds them for `run` and `submit` encodes them.
use mathlib.Core.Option
use mathlib.Core.List.{foldl}
use reql.Base.{
  ℕ, Text, codes, Option, none, some, List, [], ◌∷◌, ◌++◌, ◌≡◌, refl, trim_right, join, ap, sym,
  ◌∙◌, ◌>>=◌,
}
use reql.Errors.{ok}
use reql.Proto.{
  Formats, Term, Terms, TermPairs, term, new_term, no_terms, a_term, no_pairs, a_pair, push_pairs,
}
use reql.Types.Encode.{encode, pairs_loop}
use reql.Commands.Arg.{Arg, new_arg, add_arg, add_opt, of_connection}

-- The options alone, and the options behind a connection.
abbrev pub options : List (Text × Term) → Arg
options = foldl add_opt new_arg

abbrev pub connection_options : ℕ → List (Text × Term) → Arg
connection_options c = foldl add_opt (add_arg new_arg (of_connection c))

abbrev pairs_from : TermPairs → List (Text × Term) → TermPairs
pairs_from ps [] = ps
pairs_from ps ((k, v) ∷ kvs) = pairs_from (push_pairs ps k v) kvs

abbrev with_pairs : Arg → Terms → TermPairs → Arg
with_pairs a ts ps = record a { term = ok (term none none ts ps) }

foldl-add_opt :
    (a : Arg) (ts : Terms) (ps : TermPairs) (kvs : List (Text × Term))
    → foldl add_opt (with_pairs a ts ps) kvs ≡ with_pairs a ts (pairs_from ps kvs)
unfolding add_opt
foldl-add_opt a ts ps [] = refl
foldl-add_opt a ts ps ((k, v) ∷ kvs) = foldl-add_opt a ts (push_pairs ps k v) kvs

filled_pairs :
    (j : Text) (u : Term) (ps : TermPairs) (kvs : List (Text × Term))
    → (qs : TermPairs) × (pairs_from (a_pair j u ps) kvs ≡ a_pair j u qs)
filled_pairs j u ps [] = (ps, refl)
filled_pairs j u ps ((k, v) ∷ kvs) = filled_pairs j u (push_pairs ps k v) kvs

bind-map :
    (g g' : Text → Option Text) (h : Text → Text)
    → ((x : Text) → g x ≡ Option.map h (g' x))
    → (m : Option Text) → (m >>= g) ≡ Option.map h (m >>= g')
bind-map g g' h each none = refl
bind-map g g' h each (some x) = each x

ok-injective : {t u : Term} → ok t ≡ ok u → t ≡ u
ok-injective h = cc

options-pairs :
    (a : Arg) (ts : Terms) (k : Text) (v : Term) (kvs : List (Text × Term)) (qs : TermPairs)
    (t : Term)
    → pairs_from (a_pair k v no_pairs) kvs ≡ a_pair k v qs
    → (foldl add_opt (with_pairs a ts no_pairs) ((k, v) ∷ kvs)).term ≡ ok t
    → term none none ts (a_pair k v qs) ≡ t
options-pairs a ts k v kvs qs t e h = ok-injective (
    ap (λ ps. ok (term none none ts ps)) (sym e)
    ∙ ap (λ (b : Arg). b.term) (sym (foldl-add_opt a ts no_pairs ((k, v) ∷ kvs)))
    ∙ h)

module _ (f : Formats) where
  behind_comma :
      (k : Text) (v : Term) (ps : TermPairs)
      → encode f (term none none (a_term new_term no_terms) (a_pair k v ps))
        ≡ Option.map (λ s. codes "," ++ s) (encode f (term none none no_terms (a_pair k v ps)))
  unfolding encode join trim_right
  behind_comma k v ps = bind-map _ _ _ (λ x. refl) (pairs_loop f (a_pair k v ps))

  -- Options that stand behind a connection are written with a comma in front of the text that they
  -- have alone.
  pub connection_options-comma :
      (c : ℕ) (k : Text) (v : Term) (kvs : List (Text × Term))
      → (t : Term) (u : Term) → (options ((k, v) ∷ kvs)).term ≡ ok t
      → (connection_options c ((k, v) ∷ kvs)).term ≡ ok u
      → encode f u ≡ Option.map (λ s. codes "," ++ s) (encode f t)
  unfolding add_arg add_opt
  connection_options-comma c k v kvs t u ht hu =
      let (qs, e) = filled_pairs k v no_pairs kvs in
      let start = add_arg new_arg (of_connection c) in
      subst2 (options-pairs new_arg no_terms k v kvs qs t e ht)
        (options-pairs start (a_term new_term no_terms) k v kvs qs u e hu)
    where
      subst2 :
          {x y : Term}
          → term none none no_terms (a_pair k v (filled_pairs k v no_pairs kvs).0) ≡ x
          → term none none (a_term new_term no_terms) (a_pair k v (filled_pairs k v no_pairs kvs).0)
            ≡ y
          → encode f y ≡ Option.map (λ s. codes "," ++ s) (encode f x)
      subst2 p q = rw (← p, ← q) (behind_comma k v (filled_pairs k v no_pairs kvs).0)
