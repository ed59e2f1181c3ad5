-- ===== src/Derive/Emit/Shapes.antt =====
-- What the arguments of `args!` say, and those whose lists hold no lists, whose objects hold no
-- objects, and whose expressions and closures compile where they are written
-- (derive/src/args.rs).
use reql.Base.{Bool, true, false, Option, some, ◌≡◌}
use reql.Commands.Arg.{Arg, new_arg, add_arg, create_term_pair}
use reql.Derive.Tokens.{Trees, Group, Groups, Members, no_groups, a_group, no_members, member}
use reql.Derive.Emit.{Lambda, closure_of, into_arg}
use reql.Derive.Emit.Run.{add_result}

-- What the caller's code gives where it is written, and the arguments that it should give.
-- `l`: inside a list; `o`: inside an object.
module _ (expr : Trees → Option Arg) (func : Lambda → Option Arg) (arg : Trees → Arg)
    (call : Lambda → Arg) where
  abbrev mutual
    pub IsFlat : Bool → Bool → Group → Type 0
    IsFlat l o (Group.expr ts) = expr (into_arg ts) ≡ some (arg ts)
    IsFlat l o (Group.closure ts) = func (closure_of ts) ≡ some (call (closure_of ts))
    IsFlat l o (Group.list gs) = (l ≡ false) × AreFlat true o gs
    IsFlat l o (Group.object ms) = (o ≡ false) × MembersFlat l true ms

    pub AreFlat : Bool → Bool → Groups → Type 0
    AreFlat l o no_groups = Unit
    AreFlat l o (a_group g gs) = IsFlat l o g × AreFlat l o gs

    pub MembersFlat : Bool → Bool → Members → Type 0
    MembersFlat l o no_members = Unit
    MembersFlat l o (member k g ms) = IsFlat l o g × MembersFlat l o ms

module _ (arg : Trees → Arg) (call : Lambda → Arg) where
  -- What a group adds to an argument: itself, or its members as options where it is the last one.
  unfoldable mutual
    pub value : Group → Bool → Arg → Arg
    value (Group.expr ts) last a = add_arg a (arg ts)
    value (Group.closure ts) last a = add_arg a (call (closure_of ts))
    value (Group.list gs) last a = add_arg a (list_value gs new_arg)
    value (Group.object ms) true a = object_value ms a
    value (Group.object ms) false a = add_arg a (object_value ms new_arg)

    pub list_value : Groups → Arg → Arg
    list_value no_groups a = a
    list_value (a_group g gs) a = list_value gs (add_arg a (value g false new_arg))

    pub object_value : Members → Arg → Arg
    object_value no_members a = a
    object_value (member k g ms) a =
        object_value ms (add_result a (create_term_pair k (value g false new_arg)))

  -- The arguments one after the other.
  unfoldable pub body_value : Groups → Arg → Arg
  body_value no_groups a = a
  body_value (a_group g no_groups) a = value g true a
  body_value (a_group g (a_group h gs)) a = body_value (a_group h gs) (value g false a)
