-- ===== src/Examples/Macros.antt =====
-- The macro `args!` at concrete inputs (derive/src/args.rs).
use reql.Base.{
  ℕ, List, Option, arith, Text, codes, text_eq, false, true, none, some, [], ◌∷◌, ◌≡◌, refl,
}
use reql.Commands.Arg.{Arg, new_arg, set_string}
use reql.Derive.Tokens.{
  colon, comma, or, ident, str, other, bracket, brace, paren, Tree, token, delimited, Trees,
  no_trees, a_tree, Group, Groups, no_groups, a_group, no_members, member,
}
use reql.Derive.Groups.{group_by_comma, read_trees, type_new, read_members}
use reql.Derive.Groups.Exprs.{separated, exprs}
use reql.Derive.Groups.Fuel.{group_by_comma-enough}
use reql.Derive.Groups.Separated.{group_by_comma-separated}
use reql.Derive.Emit.{
  add_expr, args_impl, closure_of, lambda_from, args, Lambda, tokenise, body_of, process, Code,
}
use reql.Derive.Emit.Run.{Env, run}
use reql.Derive.Emit.Shapes.{body_value}
use reql.Derive.Emit.Body.{begin, body_of-value}

abbrev show : Tree → Text
show (token (ident i)) = i
show (token (str s)) = s
show (token (other s)) = s
show t = []

abbrev one : Tree → Trees
one t = a_tree t no_trees

-- `x.y()`
abbrev call : Trees
call = a_tree (token (ident (codes "x"))) (
    a_tree (token (other (codes ".")))
      (a_tree (token (ident (codes "y"))) (one (delimited paren no_trees))))

abbrev number : Trees
number = one (token (other (codes "1")))

group_by_comma-separated_example :
    group_by_comma true show 1 (separated (call ∷ number ∷ [])) ≡ some (exprs (call ∷ number ∷ []))
unfolding text_eq
group_by_comma-separated_example =
    group_by_comma-separated true show 0 call (number ∷ [])
      ((refl, refl, (refl, (refl, (refl, tt)))), ((refl, refl, tt), tt))

-- `[1, x.y()]`, and `{a: [1]}`
abbrev list_tree : Tree
list_tree = delimited bracket (separated (number ∷ call ∷ []))

abbrev object_tree : Tree
object_tree =
    delimited brace
      (a_tree (token (ident (codes "a"))) (a_tree (token colon) (one (delimited bracket number))))

abbrev all_groups : Groups
all_groups = a_group (Group.expr number) (
    a_group (Group.list (exprs (number ∷ call ∷ []))) (
      a_group (Group.object (member (codes "a") (Group.list (exprs (number ∷ []))) no_members))
        no_groups))

-- Lists and objects are read to their groups.
all_read :
    group_by_comma true show 3 (separated (number ∷ one list_tree ∷ one object_tree ∷ []))
    ≡ some all_groups
unfolding group_by_comma read_trees type_new text_eq read_members
all_read = refl

group_by_comma-enough_example :
    group_by_comma true show 3 (one list_tree) ≡ group_by_comma true show 9 (one list_tree)
group_by_comma-enough_example =
    group_by_comma-enough true show 2 8 (one list_tree)
      ((tt, (tt, (tt, (tt, (tt, ((tt), tt)))))), tt) (omega arith)

-- No tokens between brackets are a panic, but an empty list where overflows are not checked.
empty_list_panics : group_by_comma true show 3 (one (delimited bracket no_trees)) ≡ none
unfolding group_by_comma read_trees type_new text_eq read_members
empty_list_panics = refl

empty_list_read :
    group_by_comma false show 3 (one (delimited bracket no_trees))
    ≡ some (a_group (Group.list no_groups) no_groups)
unfolding group_by_comma read_trees type_new text_eq read_members
empty_list_read = refl

-- `[x].y(1)` is read as the list `[1]`.
abbrev call_of_list : Trees
call_of_list = a_tree (delimited bracket (one (token (ident (codes "x"))))) (
    a_tree (token (other (codes ".")))
      (a_tree (token (ident (codes "y"))) (one (delimited paren number))))

call_of_list_read :
    group_by_comma true show 3 call_of_list
    ≡ some (a_group (Group.list (exprs (number ∷ []))) no_groups)
unfolding group_by_comma read_trees type_new text_eq read_members
call_of_list_read = refl

-- Any code of the caller's, as it is written, and what it gives.
abbrev expr : Trees → Option Arg
expr ts = some new_arg

abbrev func : Lambda → Option Arg
func l = some new_arg

abbrev given : Trees → Arg
given ts = new_arg

abbrev called : Lambda → Arg
called l = new_arg

body_of-value_example :
    (e : Env) × (run expr func (body_of all_groups) (begin (codes "args!(…)")) ≡ some e)
    × (e.args ≡ some (body_value given called all_groups (set_string new_arg (codes "args!(…)"))))
body_of-value_example =
    body_of-value expr func given called all_groups (codes "args!(…)")
      (refl, ((refl, (refl, (refl, tt))), ((refl, ((refl, (refl, tt)), tt)), tt)))

-- `[[1]]`
abbrev nested : Group
nested = Group.list (a_group (Group.list (exprs (number ∷ []))) no_groups)

no_input : process true (λ i. none) show 0 [] ≡ some Code.new_term
unfolding process
no_input = refl

-- `|val1, val2, val3| { … }`: the commas between the parameters are dropped, and these are numbered
-- by their places among the tokens that are left.
abbrev three_parameters : Trees
three_parameters = a_tree (token or) (
    a_tree (token (ident (codes "val1"))) (
      a_tree (token comma) (
        a_tree (token (ident (codes "val2"))) (
          a_tree (token comma) (
            a_tree (token (ident (codes "val3")))
              (a_tree (token or) (one (delimited brace no_trees))))))))

abbrev numbers_of : Option Groups → List ℕ
numbers_of (some (a_group (Group.closure ts) no_groups)) = (closure_of ts).args
numbers_of _ = []

three_numbered : numbers_of (group_by_comma true show 2 three_parameters) ≡ 1 ∷ 2 ∷ 3 ∷ []
unfolding group_by_comma read_trees type_new text_eq read_members lambda_from
three_numbered = refl

only_space : args_impl true (λ i. none) show 0 (codes " \t") ≡ some Code.new_term
unfolding process
only_space = refl

-- `-1` is written as `-1.into_arg()`, where the call is of `1`.
abbrev minus_one : Trees
minus_one = a_tree (token (other (codes "-"))) number

negative_written :
    tokenise (Group.expr minus_one) args true
    ≡ add_expr args (
        a_tree (token (other (codes "-"))) (
          a_tree (token (other (codes "1"))) (
            a_tree
              (token (other (codes ".")))
              (a_tree (token (ident (codes "into_arg"))) (one (delimited paren no_trees))))))
      ∷ []
unfolding tokenise
negative_written = refl
