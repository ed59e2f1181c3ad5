-- ===== src/Derive/Tokens.antt =====
-- The token trees of the crate syn, as far as derive/src/args.rs tells them apart, and the groups that
-- `args!` makes of them (`Type` and `Group`).
use reql.Base.{Text, Bool, true, false}

-- `|`, `||`, a comma, a colon, a word, a text literal, and any other token by its text.
pub data Token : Type 0 where
  or or_or comma colon : Token
  ident str other : Text → Token

pub data Delim : Type 0 where
  paren bracket brace : Delim

mutual
  pub data Tree : Type 0 where
    token : Token → Tree
    delimited : Delim → Trees → Tree

  pub data Trees : Type 0 where
    no_trees : Trees
    a_tree : Tree → Trees → Trees

abbrev pub ◌+++◌ : Trees → Trees → Trees
no_trees +++ us = us
a_tree t ts +++ us = a_tree t (ts +++ us)

infixr 60 ◌+++◌
abbrev pub push : Trees → Tree → Trees
push ts t = ts +++ a_tree t no_trees

abbrev pub is_comma : Tree → Bool
is_comma (token comma) = true
is_comma _ = false

abbrev pub is_none : Trees → Bool
is_none no_trees = true
is_none (a_tree t ts) = false

pub data ArgType : Type 0 where
  expr closure list object : ArgType

-- `Group`. A map's members stand in the order of its iteration.
mutual
  pub data Group : Type 0 where
    expr closure : Trees → Group
    list : Groups → Group
    object : Members → Group

  pub data Groups : Type 0 where
    no_groups : Groups
    a_group : Group → Groups → Groups

  pub data Members : Type 0 where
    no_members : Members
    member : Text → Group → Members → Members

abbrev pub push_group : Groups → Group → Groups
push_group no_groups g = a_group g no_groups
push_group (a_group h hs) g = a_group h (push_group hs g)
