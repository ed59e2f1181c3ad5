-- ===== src/Derive/Groups/Separated.antt =====
-- Expressions with commas between them, read by `group_by_comma` of derive/src/args.rs.
use reql.Base.{
  Bool, ℕ, suc, Text, false, Option, some, List, [], ◌∷◌, ◌≡◌, refl, subst, sym, ap, ◌∙◌,
}
use reql.Derive.Tokens.{
  comma, Tree, token, Trees, no_trees, a_tree, push, is_comma, is_none, Group, Groups, Members,
  no_groups, a_group, push_group, ◌+++◌,
}
use reql.Derive.Groups.{
  fresh, type_new, Reading, read_trees, groups_of, hash_from_tokens, group_by_comma,
}
use reql.Derive.Groups.Exprs.{
  separated, AllExpr, exprs, Stays, +++_assoc, +++-nil, IsExpr-Stays, type_new-comma,
}

some_rest : (ts : Trees) (t : Tree) (us : Trees) → is_none (ts +++ a_tree t us) ≡ false
some_rest no_trees t us = refl
some_rest (a_tree v vs) t us = refl

separated-head :
    (v : Tree) (vs : Trees) (es : List Trees)
    → (rest : Trees) × (separated (a_tree v vs ∷ es) ≡ a_tree v rest)
separated-head v vs [] = (vs, refl)
separated-head v vs (e ∷ es) = (vs +++ a_tree (token comma) (separated (e ∷ es)), refl)

append_groups : Groups → Groups → Groups
append_groups no_groups hs = hs
append_groups (a_group g gs) hs = a_group g (append_groups gs hs)

append_groups-nil : (gs : Groups) → append_groups gs no_groups ≡ gs
unfolding append_groups
append_groups-nil no_groups = refl
append_groups-nil (a_group g gs) = ap (a_group g) (append_groups-nil gs)

append_groups-push :
    (gs : Groups) (g : Group) (hs : Groups)
    → append_groups (push_group gs g) hs ≡ append_groups gs (a_group g hs)
unfolding append_groups
append_groups-push no_groups g hs = refl
append_groups-push (a_group k gs) g hs = ap (a_group k) (append_groups-push gs g hs)

module _ (groups : Trees → Option Groups) (members : Trees → Option Members) where
  abbrev reading : Groups → Trees → Reading
  reading gs tokens = record { args = gs; tokens = tokens; scan = fresh }

  read_trees-push :
      (gs : Groups) (tokens : Trees) (v : Tree) (rest : Trees)
      → type_new tokens v fresh ≡ fresh
      → is_comma v ≡ false
      → is_none rest ≡ false
      → read_trees groups members (reading gs tokens) (a_tree v rest)
        ≡ read_trees groups members (reading gs (push tokens v)) rest
  unfolding read_trees
  read_trees-push gs tokens v rest t c more = rw (t, c, more) refl

  read_trees-end :
      (gs : Groups) (tokens rest : Trees)
      → read_trees groups members (reading gs tokens) (a_tree (token comma) rest)
        ≡ read_trees groups members (reading (push_group gs (Group.expr tokens)) no_trees) rest
  unfolding read_trees
  read_trees-end gs tokens rest = rw (type_new-comma tokens) refl

  -- The last expression.
  read_trees-last :
      (gs : Groups) (tokens : Trees) (v : Tree) (vs : Trees)
      → Stays tokens (a_tree v vs)
      → read_trees groups members (reading gs tokens) (a_tree v vs)
        ≡ some (push_group gs (Group.expr (tokens +++ a_tree v vs)))
  unfolding read_trees
  read_trees-last gs tokens v no_trees (t, c, h) = rw (t, c) refl
  read_trees-last gs tokens v (a_tree w ws) (t, c, h) =
      rw (t, c, read_trees-last gs (push tokens v) w ws h)
        (ap (λ us. some (push_group gs (Group.expr us))) (+++_assoc tokens _ (a_tree w ws)))

  -- An expression with another behind its comma.
  read_trees-comma :
      (gs : Groups) (tokens vs : Trees) (x : Tree) (rest : Trees)
      → Stays tokens vs
      → read_trees groups members (reading gs tokens) (vs +++ a_tree (token comma) (a_tree x rest))
        ≡ read_trees groups members
            (reading (push_group gs (Group.expr (tokens +++ vs))) no_trees)
            (a_tree x rest)
  read_trees-comma gs tokens no_trees x rest h =
      rw +++-nil (read_trees-end gs tokens (a_tree x rest))
  read_trees-comma gs tokens (a_tree v vs) x rest (t, c, h) =
      read_trees-push gs tokens v (vs +++ a_tree (token comma) (a_tree x rest)) t c
        (some_rest vs (token comma) (a_tree x rest))
      ∙ (read_trees-comma gs (push tokens v) vs x rest h
          ∙ ap
              (λ us.
                read_trees groups members (reading (push_group gs (Group.expr us)) no_trees)
                  (a_tree x rest))
              (+++_assoc tokens (a_tree v no_trees) vs))

  -- The expressions that follow some groups.
  abbrev push_exprs : Groups → List Trees → Groups
  push_exprs gs [] = gs
  push_exprs gs (e ∷ es) = push_exprs (push_group gs (Group.expr e)) es

  read_trees-separated :
      (gs : Groups) (e : Trees) (es : List Trees)
      → AllExpr (e ∷ es)
      → read_trees groups members (reading gs no_trees) (separated (e ∷ es))
        ≡ some (push_exprs gs (e ∷ es))
  read_trees-separated gs no_trees [] (h, hs) = elim h [ ]
  read_trees-separated gs (a_tree v vs) [] (h, hs) =
      read_trees-last gs no_trees v vs (IsExpr-Stays (a_tree v vs) h)
  read_trees-separated gs e (no_trees ∷ es) (h, hs) = elim hs.0 [ ]
  read_trees-separated gs e (a_tree v vs ∷ es) (h, hs) =
      let (rest, q) = separated-head v vs es in
      let next = reading (push_group gs (Group.expr e)) no_trees in
      let later : read_trees groups members next (a_tree v rest)
          ≡ some (push_exprs (push_group gs (Group.expr e)) (a_tree v vs ∷ es)) =
        subst
          (λ x.
            read_trees groups members next x
            ≡ some (push_exprs (push_group gs (Group.expr e)) (a_tree v vs ∷ es)))
          q (read_trees-separated (push_group gs (Group.expr e)) (a_tree v vs) es hs) in
      subst
        (λ x.
          read_trees groups members (reading gs no_trees) (e +++ a_tree (token comma) x)
          ≡ some (push_exprs (push_group gs (Group.expr e)) (a_tree v vs ∷ es)))
        (sym q) (read_trees-comma gs no_trees e v rest (IsExpr-Stays e h) ∙ later)

  push_exprs-exprs :
      (gs : Groups) (es : List Trees) → push_exprs gs es ≡ append_groups gs (exprs es)
  push_exprs-exprs gs [] = sym (append_groups-nil gs)
  push_exprs-exprs gs (e ∷ es) =
      push_exprs-exprs (push_group gs (Group.expr e)) es
      ∙ append_groups-push gs (Group.expr e) (exprs es)

-- Expressions with commas between them are read as the expressions, in their order.
pub group_by_comma-separated :
    (checks : Bool) (show : Tree → Text) (n : ℕ) (e : Trees) (es : List Trees)
    → AllExpr (e ∷ es)
    → group_by_comma checks show (suc n) (separated (e ∷ es)) ≡ some (exprs (e ∷ es))
unfolding group_by_comma append_groups
group_by_comma-separated checks show n no_trees es h = elim h.0 [ ]
group_by_comma-separated checks show n (a_tree v vs) es h =
    let groups = group_by_comma checks show n in
    let members = hash_from_tokens checks show n in
    let (rest, q) = separated-head v vs es in
    subst (λ x. groups_of groups members checks x ≡ some (exprs (a_tree v vs ∷ es))) (sym q)
      (ap (λ x. read_trees groups members (reading groups members no_groups no_trees) x) (sym q)
        ∙ (read_trees-separated groups members no_groups (a_tree v vs) es h
            ∙ ap some (push_exprs-exprs groups members no_groups (a_tree v vs ∷ es))))
