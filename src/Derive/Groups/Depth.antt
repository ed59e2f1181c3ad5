-- ===== src/Derive/Groups/Depth.antt =====
-- How deep brackets and braces stand in each other, and what `group_by_comma` reads of their contents
-- (derive/src/args.rs).
use reql.Base.{
  text_eq, codes, ℕ, zero, suc, Bool, true, false, Option, none, some, ◌>>=◌, ◌≡◌, refl, sym, ◌∙◌,
  ap, if◌then◌else◌, ◌⊎◌, inl, inr, subst,
}
use reql.Derive.Tokens.{
  Token, or, or_or, comma, colon, ident, str, other, Delim, Tree, token, delimited, Trees, no_trees,
  a_tree, is_comma, is_none, ArgType, Group, Groups, Members, push_group,
}
use reql.Derive.Groups.{
  Scan, fresh, mark_bar, in_closure, opens_closure, after_move, type_outside, type_by, type_new,
  Reading, next_tokens, is_end, group_of, finalise_if, read_trees,
}

abbrev mutual
  -- At most `n` brackets or braces stand in each other.
  pub Within : ℕ → Trees → Type 0
  Within n no_trees = Unit
  Within n (a_tree t ts) = TreeWithin n t × Within n ts

  pub TreeWithin : ℕ → Tree → Type 0
  TreeWithin n (token t) = Unit
  TreeWithin zero (delimited d ts) = ⊥
  TreeWithin (suc n) (delimited d ts) = Within n ts

-- What may stand between brackets.
abbrev pub Contents : ℕ → Trees → Type 0
Contents zero ts = ⊥
Contents (suc n) ts = Within n ts

-- The contents of a list or an object have been read into the tokens.
abbrev Taken : ℕ → ArgType → Trees → Type 0
Taken n ArgType.expr tokens = Unit
Taken n ArgType.closure tokens = Unit
Taken n ArgType.list tokens = Contents n tokens
Taken n ArgType.object tokens = Contents n tokens

abbrev pub OnSome : {A : Type 0} → (A → Type 0) → Option A → Type 0
OnSome P none = Unit
OnSome P (some a) = P a

pub bind-agree :
    {A B : Type 0} (P : A → Type 0) (o o' : Option A) (f g : A → Option B)
    → o ≡ o'
    → OnSome P o
    → ((a : A) → P a → f a ≡ g a)
    → (o >>= f) ≡ (o' >>= g)
bind-agree {A = A} P o o' f g e p h = on_first o p ∙ ap (λ x. x >>= g) e
  where
    on_first : (x : Option A) → OnSome P x → (x >>= f) ≡ (x >>= g)
    on_first none q = refl
    on_first (some a) q = h a q

Contents-tree : (n : ℕ) (d : Delim) (us : Trees) → TreeWithin n (delimited d us) → Contents n us
Contents-tree zero d us h = h
Contents-tree (suc n) d us h = h

Taken-delimited :
    (n : ℕ) (typ : ArgType) (d : Delim) (us tokens : Trees)
    → TreeWithin n (delimited d us)
    → Taken n typ (next_tokens typ (delimited d us) tokens)
Taken-delimited n ArgType.expr d us tokens h = tt
Taken-delimited n ArgType.closure d us tokens h = tt
Taken-delimited n ArgType.list d us tokens h = Contents-tree n d us h
Taken-delimited n ArgType.object d us tokens h = Contents-tree n d us h

-- A token leaves the type as it is, or starts a closure.
abbrev Stays : Scan → Scan → Type 0
Stays s s' = (s'.typ ≡ s.typ) ⊎ (s'.typ ≡ ArgType.closure)

Stays-if : (s : Scan) (b : Bool) (x y : Scan) → Stays s x → Stays s y → Stays s (if b then x else y)
Stays-if s true x y h k = h
Stays-if s false x y h k = k

Stays-mark_bar : (s c : Scan) → Stays s c → Stays s (mark_bar c)
Stays-mark_bar s c h = Stays-if s c.found_lbar _ _ h h

Stays-opens_closure : (t : Token) (s : Scan) → Stays s (opens_closure (token t) s)
Stays-opens_closure or s = Stays-if s s.found_lbar _ _ (inr refl) (inr refl)
Stays-opens_closure or_or s = inr refl
Stays-opens_closure comma s = inl refl
Stays-opens_closure colon s = inl refl
Stays-opens_closure (ident i) s = inl refl
Stays-opens_closure (str i) s = inl refl
Stays-opens_closure (other i) s = inl refl

Stays-in_closure : (t : Token) (s : Scan) → Stays s (in_closure (token t) s)
Stays-in_closure or s =
    Stays-if s s.found_rbar _ _ (inl refl) (Stays-if s s.found_lbar _ _ (inl refl) (inl refl))
Stays-in_closure or_or s = Stays-if s s.found_rbar _ _ (inl refl) (inl refl)
Stays-in_closure comma s = Stays-if s s.found_rbar _ _ (inl refl) (inl refl)
Stays-in_closure colon s = Stays-if s s.found_rbar _ _ (inl refl) (inl refl)
Stays-in_closure (ident i) s = Stays-if s s.found_rbar _ _ (inl refl) (inl refl)
Stays-in_closure (str i) s = Stays-if s s.found_rbar _ _ (inl refl) (inl refl)
Stays-in_closure (other i) s = Stays-if s s.found_rbar _ _ (inl refl) (inl refl)

Stays-after_move : (tokens : Trees) (t : Token) (s : Scan) → Stays s (after_move tokens (token t) s)
Stays-after_move no_trees t s = inl refl
Stays-after_move (a_tree (token (ident i)) no_trees) t s =
    Stays-if s (text_eq i (codes "move")) _ _ (Stays-opens_closure t s) (inl refl)
Stays-after_move (a_tree (token (ident i)) (a_tree u us)) t s = inl refl
Stays-after_move (a_tree (token or) us) t s = inl refl
Stays-after_move (a_tree (token or_or) us) t s = inl refl
Stays-after_move (a_tree (token comma) us) t s = inl refl
Stays-after_move (a_tree (token colon) us) t s = inl refl
Stays-after_move (a_tree (token (str i)) us) t s = inl refl
Stays-after_move (a_tree (token (other i)) us) t s = inl refl
Stays-after_move (a_tree (delimited d vs) us) t s = inl refl

Stays-type_outside :
    (tokens : Trees) (t : Token) (s : Scan) → Stays s (type_outside tokens (token t) s)
Stays-type_outside no_trees t s = Stays-opens_closure t s
Stays-type_outside (a_tree u us) t s = Stays-after_move (a_tree u us) t s

Stays-type_by :
    (typ : ArgType) (tokens : Trees) (t : Token) (s : Scan)
    → Stays s (type_by typ tokens (token t) s)
Stays-type_by ArgType.closure tokens t s = Stays-in_closure t s
Stays-type_by ArgType.expr tokens t s = Stays-type_outside tokens t s
Stays-type_by ArgType.list tokens t s = Stays-type_outside tokens t s
Stays-type_by ArgType.object tokens t s = Stays-type_outside tokens t s

Taken-same :
    (n : ℕ) (typ : ArgType) (t : Token) (tokens : Trees)
    → Taken n typ tokens
    → Taken n typ (next_tokens typ (token t) tokens)
Taken-same n ArgType.expr t tokens h = tt
Taken-same n ArgType.closure t tokens h = tt
Taken-same n ArgType.list t tokens h = h
Taken-same n ArgType.object t tokens h = h

Taken-token :
    (n : ℕ) (t : Token) (tokens : Trees) (s s' : Scan)
    → Stays s s'
    → Taken n s.typ tokens
    → Taken n s'.typ (next_tokens s'.typ (token t) tokens)
Taken-token n t tokens s s' (inl e) h =
    subst (λ y. Taken n y (next_tokens y (token t) tokens)) (sym e) (Taken-same n s.typ t tokens h)
Taken-token n t tokens s s' (inr e) h =
    subst (λ y. Taken n y (next_tokens y (token t) tokens)) (sym e) tt

-- What a loop knows before each token.
abbrev Ready : ℕ → Reading → Type 0
Ready n r = Taken n r.scan.typ r.tokens

abbrev moved : Reading → Tree → Reading
moved r tree =
    let s = type_new r.tokens tree r.scan in
    record r { tokens = next_tokens s.typ tree r.tokens; scan = s }

Ready-moved :
    (n : ℕ) (r : Reading) (tree : Tree) → Ready n r → TreeWithin n tree → Ready n (moved r tree)
unfolding type_new
Ready-moved n r (token t) h k =
    Taken-token n t r.tokens r.scan (type_new r.tokens (token t) r.scan)
      (Stays-type_by r.scan.typ r.tokens t r.scan) h
Ready-moved n r (delimited d us) h k =
    Taken-delimited n (type_new r.tokens (delimited d us) r.scan).typ d us r.tokens k

-- Two readers of contents that agree as deep as these go.
abbrev pub Agree : {A : Type 0} → ℕ → (Trees → Option A) → (Trees → Option A) → Type 0
Agree n f g = (us : Trees) → Contents n us → f us ≡ g us

module _ (n : ℕ) (f g : Trees → Option Groups) (p q : Trees → Option Members) (hf : Agree n f g)
    (hp : Agree n p q) where
  Agree-group_of :
      (typ : ArgType) (tokens : Trees)
      → Taken n typ tokens
      → group_of f p typ tokens ≡ group_of g q typ tokens
  Agree-group_of ArgType.expr tokens h = refl
  Agree-group_of ArgType.closure tokens h = refl
  Agree-group_of ArgType.list tokens h = ap (λ o. o >>= λ gs. some (Group.list gs)) (hf tokens h)
  Agree-group_of ArgType.object tokens h =
      ap (λ o. o >>= λ ms. some (Group.object ms)) (hp tokens h)

  Agree-finalise_if :
      (b : Bool) (r : Reading) → Ready n r → finalise_if f p b r ≡ finalise_if g q b r
  Agree-finalise_if true r h =
      ap
        (λ o.
          o >>= λ x. some (record { args = push_group r.args x; tokens = no_trees; scan = fresh }))
        (Agree-group_of r.scan.typ r.tokens h)
  Agree-finalise_if false r h = refl

  Ready-finalise_if : (b : Bool) (r : Reading) → Ready n r → OnSome (Ready n) (finalise_if f p b r)
  Ready-finalise_if true r h = of_group (group_of f p r.scan.typ r.tokens)
    where
      of_group :
          (o : Option Group)
          → OnSome (Ready n) (
              o >>= λ x.
              some (record { args = push_group r.args x; tokens = no_trees; scan = fresh }))
      of_group none = tt
      of_group (some x) = tt
  Ready-finalise_if false r h = h

  pub Agree-read_trees :
      (r : Reading) (ts : Trees)
      → Ready n r
      → Within n ts
      → read_trees f p r ts ≡ read_trees g q r ts
  unfolding read_trees
  Agree-read_trees r no_trees h k = refl
  Agree-read_trees r (a_tree t ts) h (k, ks) =
      let m = moved r t in
      let ready = Ready-moved n r t h k in
      let b = is_end m.scan (is_none ts) (is_comma t) in
      bind-agree (Ready n) _ _ _ _ (Agree-finalise_if b m ready) (Ready-finalise_if b m ready)
        (λ r' h'. Agree-read_trees r' ts h' ks)
