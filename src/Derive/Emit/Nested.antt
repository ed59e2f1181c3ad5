-- ===== src/Derive/Emit/Nested.antt =====
-- The statements for a list inside a list, or an object inside an object (derive/src/args.rs).
use reql.Base.{Option, none, some, ◌≡◌, ◌⊎◌}
use reql.Commands.Arg.{Arg}
use reql.Derive.Tokens.{Trees, Group, Groups, Members, no_groups, a_group, no_members, member}
use reql.Derive.Emit.{Var, Lambda}
use reql.Derive.Emit.Run.{Env, get}

abbrev pub IsList : Group → Type 0
IsList (Group.list (a_group g gs)) = Unit
IsList _ = ⊥

abbrev pub IsObject : Group → Type 0
IsObject (Group.object (member k g ms)) = Unit
IsObject _ = ⊥

abbrev pub HasList : Groups → Type 0
HasList no_groups = ⊥
HasList (a_group g gs) = IsList g ⊎ HasList gs

abbrev pub HasObject : Members → Type 0
HasObject no_members = ⊥
HasObject (member k g ms) = IsObject g ⊎ HasObject ms

-- A list with a list in it, or an object with an object in it, that has something in it.
abbrev pub IsNested : Group → Type 0
IsNested (Group.list gs) = HasList gs
IsNested (Group.object ms) = HasObject ms
IsNested _ = ⊥

module _ (expr : Trees → Option Arg) (func : Lambda → Option Arg) where
  -- The run fails, or leaves the variable moved.
  abbrev Spent : Var → Option Env → Type 0
  Spent x none = Unit
  Spent x (some e) = get x e ≡ none

  abbrev no_env : Arg → Option Env
  no_env a = none
