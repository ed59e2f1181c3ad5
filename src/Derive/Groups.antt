-- ===== src/Derive/Groups.antt =====
-- `Type::new`, `finalise_arg`, `group_by_comma` and `hash_from_tokens` of derive/src/args.rs.
-- A panic is `none`; among these is `tt.len()-1` of no tokens, if overflows are checked (`checks`);
-- else it wraps around, and the loop has nothing to read. The two functions call each other on the
-- contents of brackets and braces: the fuel bounds how deep these stand.
pub mod Exprs
pub mod Separated
pub mod Depth
pub mod Fuel
use reql.Base.{
  ℕ, zero, suc, Text, codes, text_eq, Bool, true, false, not, ◌&&◌, ◌||◌, Option, none, some, [],
  ◌∷◌, ◌>>=◌, if◌then◌else◌,
}
use reql.Derive.Tokens.{
  Token, or, or_or, comma, colon, ident, str, Delim, bracket, brace, paren, Tree, token, delimited,
  Trees, no_trees, a_tree, push, is_comma, is_none, ArgType, Group, Groups, Members, no_groups,
  a_group, no_members, member, push_group,
}

-- What `group_by_comma` knows of the argument that it is reading.
pub record Scan : Type 0 where
  pub typ : ArgType
  pub found_lbar : Bool
  pub found_rbar : Bool
  pub found_body : Bool

abbrev pub fresh : Scan
fresh = record { typ = ArgType.expr; found_lbar = false; found_rbar = false; found_body = false }

abbrev pub mark_bar : Scan → Scan
mark_bar s = if s.found_lbar then record s { found_rbar = true } else record s { found_lbar = true }

-- Inside a closure: its bars, then its body.
abbrev pub in_closure : Tree → Scan → Scan
in_closure tree s =
    if s.found_rbar
    then record s { found_body = true }
    else elim tree [ token or ↦ mark_bar s | _ ↦ s ]

-- The first bar of a closure, or both bars at once.
abbrev pub opens_closure : Tree → Scan → Scan
opens_closure (token or) s = mark_bar (record s { typ = ArgType.closure })
opens_closure (token or_or) s = record s {
  typ = ArgType.closure;
  found_lbar = true;
  found_rbar = true;
}
opens_closure _ s = s

abbrev pub at_start : Tree → Scan → Scan
at_start (delimited bracket ts) s = record s { typ = ArgType.list }
at_start (delimited brace ts) s = record s { typ = ArgType.object }
at_start (delimited paren ts) s = s
at_start (token t) s = opens_closure (token t) s

abbrev pub after_move : Trees → Tree → Scan → Scan
after_move (a_tree (token (ident i)) no_trees) tree s =
    if text_eq i (codes "move") then opens_closure tree s else s
after_move _ tree s = s

-- `Type::new` for a type that is no closure, by the tokens read before.
abbrev pub type_outside : Trees → Tree → Scan → Scan
type_outside no_trees tree s = at_start tree s
type_outside (a_tree t ts) tree s = after_move (a_tree t ts) tree s

abbrev pub type_by : ArgType → Trees → Tree → Scan → Scan
type_by ArgType.closure tokens tree s = in_closure tree s
type_by _ tokens tree s = type_outside tokens tree s

-- `Type::new`
unfoldable pub type_new : Trees → Tree → Scan → Scan
type_new tokens tree s = type_by s.typ tokens tree s

-- Where the loop of `group_by_comma` stands.
pub record Reading : Type 0 where
  pub args : Groups
  pub tokens : Trees
  pub scan : Scan

-- The contents of a bracket or a brace take the place of the tokens.
abbrev pub take_contents : Tree → Trees → Trees
take_contents (delimited d tts) tokens = tts
take_contents (token t) tokens = tokens

abbrev pub keep_token : Tree → Trees → Trees
keep_token tree tokens = if is_comma tree then tokens else push tokens tree

abbrev pub next_tokens : ArgType → Tree → Trees → Trees
next_tokens ArgType.expr tree tokens = keep_token tree tokens
next_tokens ArgType.closure tree tokens = keep_token tree tokens
next_tokens ArgType.list tree tokens = take_contents tree tokens
next_tokens ArgType.object tree tokens = take_contents tree tokens

-- Whether the argument ends at this token; commas among a closure's parameters do not end it.
abbrev pub is_end : Scan → Bool → Bool → Bool
is_end s is_last comma_here = elim s.typ [
  | ArgType.closure ↦ is_last || (s.found_body && comma_here)
  | _ ↦ comma_here || is_last
]

module _ (groups : Trees → Option Groups) (members : Trees → Option Members) where
  abbrev pub group_of : ArgType → Trees → Option Group
  group_of ArgType.expr tokens = some (Group.expr tokens)
  group_of ArgType.closure tokens = some (Group.closure tokens)
  group_of ArgType.list tokens = groups tokens >>= λ gs. some (Group.list gs)
  group_of ArgType.object tokens = members tokens >>= λ ms. some (Group.object ms)

  -- `finalise_arg`
  abbrev pub finalise_arg : Reading → Option Reading
  finalise_arg r = group_of r.scan.typ r.tokens >>= λ g.
      some (record { args = push_group r.args g; tokens = no_trees; scan = fresh })

  abbrev pub finalise_if : Bool → Reading → Option Reading
  finalise_if true r = finalise_arg r
  finalise_if false r = some r

  -- One token.
  abbrev pub read_tree : Reading → Tree → Bool → Option Reading
  read_tree r tree is_last =
      let s = type_new r.tokens tree r.scan in
      finalise_if (is_end s is_last (is_comma tree))
        (record r { tokens = next_tokens s.typ tree r.tokens; scan = s })

  unfoldable pub read_trees : Reading → Trees → Option Groups
  read_trees r no_trees = some r.args
  read_trees r (a_tree tree rest) = read_tree r tree (is_none rest) >>= λ r'. read_trees r' rest

  abbrev pub start : Reading
  start = record { args = no_groups; tokens = no_trees; scan = fresh }

  abbrev pub groups_of : Bool → Trees → Option Groups
  groups_of checks no_trees = if checks then none else some no_groups
  groups_of checks (a_tree t ts) = read_trees start (a_tree t ts)

-- Where the loop of `hash_from_tokens` stands.
pub record Hash : Type 0 where
  pub hash : Members
  pub is_key : Bool
  pub key : Text
  pub val : Trees

abbrev pub insert_member : Text → Group → Members → Members
insert_member k g no_members = member k g no_members
insert_member k g (member j h ms) =
    let rest = insert_member k g ms in if text_eq j k then member k g ms else member j h rest

-- `show` is the text of a token tree; a text literal is a key by its contents.
abbrev pub key_of : (Tree → Text) → Tree → Text
key_of show (token (str s)) = s
key_of show t = show t

abbrev pub only : Groups → Option Group
only (a_group g no_groups) = some g
only _ = none

abbrev pub at_colon : Text → Hash → Option Hash
at_colon [] h = none
at_colon (c ∷ cs) h = some (record h { is_key = false })

module _ (show : Tree → Text) (groups : Trees → Option Groups) where
  abbrev pub end_value : Hash → Option Hash
  end_value h = do
    gs ← groups h.val
    g ← only gs
    some (record h { hash = insert_member h.key g h.hash; is_key = true; val = no_trees })

  abbrev pub end_value_if : Bool → Hash → Option Hash
  end_value_if true h = end_value h
  end_value_if false h = some h

  abbrev pub at_tree : Bool → Hash → Tree → Bool → Option Hash
  at_tree true h tree is_last = some (record h { key = key_of show tree })
  at_tree false h tree is_last =
      end_value_if (is_comma tree || is_last) (record h { val = keep_token tree h.val })

  abbrev pub read_member : Hash → Tree → Bool → Option Hash
  read_member h (token colon) is_last = at_colon h.key h
  read_member h tree is_last = at_tree h.is_key h tree is_last

  unfoldable pub read_members : Hash → Trees → Option Members
  read_members h no_trees = some h.hash
  read_members h (a_tree tree rest) =
      read_member h tree (is_none rest) >>= λ h'. read_members h' rest

  abbrev pub members_of : Bool → Trees → Option Members
  members_of checks no_trees = if checks then none else some no_members
  members_of checks (a_tree t ts) =
      read_members (record { hash = no_members; is_key = true; key = []; val = no_trees })
        (a_tree t ts)

module _ (checks : Bool) (show : Tree → Text) where
  unfoldable pub group_by_comma : ℕ → Trees → Option Groups
  group_by_comma zero trees = none
  group_by_comma (suc n) trees =
      groups_of (group_by_comma n) (members_of show (group_by_comma n) checks) checks trees

  abbrev pub hash_from_tokens : ℕ → Trees → Option Members
  hash_from_tokens n = members_of show (group_by_comma n) checks
