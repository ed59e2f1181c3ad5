-- ===== src/Derive/Groups/Exprs.antt =====
-- The tokens of an expression, and `Type::new` of derive/src/args.rs on them.
use reql.Base.{codes, text_eq, Bool, true, false, List, [], ◌∷◌, ◌≡◌, refl, ap, if◌then◌else◌}
use reql.Derive.Tokens.{
  or, or_or, comma, colon, ident, str, other, bracket, brace, paren, Tree, token, delimited, Trees,
  no_trees, a_tree, push, is_comma, Group, Groups, no_groups, a_group, ◌+++◌,
}
use reql.Derive.Groups.{Scan, fresh, at_start, after_move, type_new}

abbrev pub is_move : Tree → Bool
is_move (token (ident i)) = text_eq i (codes "move")
is_move _ = false

abbrev pub NoComma : Trees → Type 0
NoComma no_trees = Unit
NoComma (a_tree t ts) = (is_comma t ≡ false) × NoComma ts

-- How an expression starts: with no bar, bracket or brace, and not with `move`.
abbrev pub StartsExpr : Tree → Type 0
StartsExpr (token or) = ⊥
StartsExpr (token or_or) = ⊥
StartsExpr (token t) = is_move (token t) ≡ false
StartsExpr (delimited paren ts) = Unit
StartsExpr (delimited bracket ts) = ⊥
StartsExpr (delimited brace ts) = ⊥

-- An expression for `args!`: tokens without a comma that start neither a list, an object nor a
-- closure.
abbrev pub IsExpr : Trees → Type 0
IsExpr no_trees = ⊥
IsExpr (a_tree t ts) = StartsExpr t × (is_comma t ≡ false) × NoComma ts

abbrev pub separated : List Trees → Trees
separated [] = no_trees
separated (e ∷ []) = e
separated (e ∷ f ∷ es) = e +++ a_tree (token comma) (separated (f ∷ es))

abbrev pub AllExpr : List Trees → Type 0
AllExpr [] = Unit
AllExpr (e ∷ es) = IsExpr e × AllExpr es

abbrev pub exprs : List Trees → Groups
exprs [] = no_groups
exprs (e ∷ es) = a_group (Group.expr e) (exprs es)

-- No token of these changes what is being read.
abbrev pub Stays : Trees → Trees → Type 0
Stays tokens no_trees = Unit
Stays tokens (a_tree v vs) =
    (type_new tokens v fresh ≡ fresh) × (is_comma v ≡ false) × Stays (push tokens v) vs

pub +++_assoc : (ts us vs : Trees) → (ts +++ us) +++ vs ≡ ts +++ (us +++ vs)
+++_assoc no_trees us vs = refl
+++_assoc (a_tree t ts) us vs = ap (a_tree t) (+++_assoc ts us vs)

pub +++-nil : (ts : Trees) → ts +++ no_trees ≡ ts
+++-nil no_trees = refl
+++-nil (a_tree t ts) = ap (a_tree t) (+++-nil ts)

after_move_other :
    (t tree : Tree) (ts : Trees) → is_move t ≡ false → after_move (a_tree t ts) tree fresh ≡ fresh
after_move_other (token (ident i)) tree no_trees h = rw h
after_move_other (token (ident i)) tree (a_tree u us) h = refl
after_move_other (token or) tree ts h = refl
after_move_other (token or_or) tree ts h = refl
after_move_other (token comma) tree ts h = refl
after_move_other (token colon) tree ts h = refl
after_move_other (token (str s)) tree ts h = refl
after_move_other (token (other s)) tree ts h = refl
after_move_other (delimited d us) tree ts h = refl

StartsExpr-not_move : (t : Tree) → StartsExpr t → is_move t ≡ false
StartsExpr-not_move (token or) h = elim h [ ]
StartsExpr-not_move (token or_or) h = elim h [ ]
StartsExpr-not_move (token (ident i)) h = h
StartsExpr-not_move (token comma) h = refl
StartsExpr-not_move (token colon) h = refl
StartsExpr-not_move (token (str s)) h = refl
StartsExpr-not_move (token (other s)) h = refl
StartsExpr-not_move (delimited d us) h = refl

at_start_expr : (t : Tree) → StartsExpr t → at_start t fresh ≡ fresh
at_start_expr (token or) h = elim h [ ]
at_start_expr (token or_or) h = elim h [ ]
at_start_expr (delimited bracket us) h = elim h [ ]
at_start_expr (delimited brace us) h = elim h [ ]
at_start_expr (token (ident i)) h = refl
at_start_expr (token comma) h = refl
at_start_expr (token colon) h = refl
at_start_expr (token (str s)) h = refl
at_start_expr (token (other s)) h = refl
at_start_expr (delimited paren us) h = refl

Stays-rest : (t : Tree) (ts vs : Trees) → is_move t ≡ false → NoComma vs → Stays (a_tree t ts) vs
unfolding type_new
Stays-rest t ts no_trees h c = tt
Stays-rest t ts (a_tree v vs) h (c, cs) =
    (after_move_other t v ts h, c, Stays-rest t (push ts v) vs h cs)

pub IsExpr-Stays : (e : Trees) → IsExpr e → Stays no_trees e
unfolding type_new
IsExpr-Stays no_trees h = elim h [ ]
IsExpr-Stays (a_tree t ts) (s, c, cs) =
    (at_start_expr t s, c, Stays-rest t no_trees ts (StartsExpr-not_move t s) cs)

if_same : (b : Bool) (s : Scan) → (if b then s else s) ≡ s
if_same true s = refl
if_same false s = refl

after_move-comma : (t : Tree) (ts : Trees) → after_move (a_tree t ts) (token comma) fresh ≡ fresh
after_move-comma (token (ident i)) no_trees = if_same (text_eq i (codes "move")) fresh
after_move-comma (token (ident i)) (a_tree u us) = refl
after_move-comma (token or) ts = refl
after_move-comma (token or_or) ts = refl
after_move-comma (token comma) ts = refl
after_move-comma (token colon) ts = refl
after_move-comma (token (str s)) ts = refl
after_move-comma (token (other s)) ts = refl
after_move-comma (delimited d us) ts = refl

pub type_new-comma : (tokens : Trees) → type_new tokens (token comma) fresh ≡ fresh
unfolding type_new
type_new-comma no_trees = refl
type_new-comma (a_tree t ts) = after_move-comma t ts
