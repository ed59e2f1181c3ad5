-- ===== src/Programs/Arguments.antt =====
-- The arguments of the programs of examples/, as `args!` reads and builds them from their tokens.
use reql.Base.{
  Bool, ℕ, Text, codes, text_eq, Option, none, some, [], ◌∷◌, ◌++◌, ◌≡◌, refl, sym, ap, ◌∙◌,
}
use reql.Commands.Arg.{Arg, new_arg, set_string, of_str, of_handle}
use reql.Derive.Tokens.{
  ◌+++◌, or, colon, comma, ident, str, other, bracket, brace, paren, Tree, token, delimited, Trees,
  no_trees, a_tree, Group, Groups, no_groups, a_group, no_members, member,
}
use reql.Derive.Groups.{group_by_comma, read_trees, type_new, read_members}
use reql.Derive.Emit.{Lambda, body_of, closure_of, lambda_from, into_arg}
use reql.Derive.Emit.Run.{Env, run}
use reql.Derive.Emit.Body.{begin, body_of-value}
use reql.Derive.Emit.Shapes.{value, body_value}
use reql.Programs.{Setting}
use reql.Programs.ServerTable.{local_server}
use reql.Programs.Sums.{sequence, add_all, client_arg, sum_text, with_closure, sum_args}
use reql.Commands.Client.{Client}
use reql.Commands.Closure.{lambda}

-- `core.handle()`
abbrev handle : Trees
handle = a_tree (token (ident (codes "core"))) (
    a_tree (token (other (codes ".")))
      (a_tree (token (ident (codes "handle"))) (a_tree (delimited paren no_trees) no_trees)))

abbrev localhost : Trees
localhost = a_tree (token (str (codes "localhost"))) no_trees

-- `{servers: ["localhost"]}`
abbrev servers : Tree
servers = delimited brace (
    a_tree (token (ident (codes "servers")))
      (a_tree (token colon) (a_tree (delimited bracket localhost) no_trees)))

abbrev pub local_tokens : Trees
local_tokens = a_tree (token (ident (codes "core"))) (
    a_tree (token (other (codes "."))) (
      a_tree (token (ident (codes "handle")))
        (a_tree (delimited paren no_trees) (a_tree (token comma) (a_tree servers no_trees)))))

abbrev pub local_groups : Groups
local_groups = a_group (Group.expr handle) (
    a_group
      (Group.object (
        member (codes "servers") (Group.list (a_group (Group.expr localhost) no_groups))
          no_members))
      no_groups)

local_tokens-groups :
    (checks : Bool) (show : Tree → Text)
    → show (token (ident (codes "servers"))) ≡ codes "servers"
    → group_by_comma checks show 3 local_tokens ≡ some local_groups
unfolding group_by_comma read_trees type_new text_eq read_members
local_tokens-groups checks show h = rw h refl

-- A word, and the word with a comma behind it.
abbrev pub word : Text → Trees
word x = a_tree (token (ident x)) no_trees

-- `|val1, val2, val3| { … }`, and what is left of it without the commas.
abbrev pub body : Tree → Trees
body b = a_tree (token or) (a_tree b no_trees)

abbrev pub closure_tokens : Tree → Trees
closure_tokens b =
    a_tree (token or)
      (word (codes "val1") +++ (word (codes "val2") +++ (word (codes "val3") +++ body b)))

abbrev with_comma : Text → Trees → Trees
with_comma x ts = a_tree (token (ident x)) (a_tree (token comma) ts)

abbrev pub sum_tokens : Tree → Trees
sum_tokens b = with_comma (codes "sequence1") (
    with_comma (codes "sequence2") (
      with_comma (codes "sequence3") (
        a_tree (token or) (
          with_comma (codes "val1") (with_comma (codes "val2") (word (codes "val3") +++ body b))))))

abbrev pub sum_groups : Tree → Groups
sum_groups b = a_group (Group.expr (word (codes "sequence1"))) (
    a_group (Group.expr (word (codes "sequence2"))) (
      a_group (Group.expr (word (codes "sequence3")))
        (a_group (Group.closure (closure_tokens b)) no_groups)))

sum_tokens-groups :
    (checks : Bool) (show : Tree → Text) (ts : Trees)
    → group_by_comma checks show 3 (sum_tokens (delimited brace ts))
      ≡ some (sum_groups (delimited brace ts))
unfolding group_by_comma read_trees type_new text_eq read_members
sum_tokens-groups checks show ts = refl

three_numbered : (b : Tree) → (closure_of (closure_tokens b)).args ≡ 1 ∷ 2 ∷ 3 ∷ []
unfolding lambda_from
three_numbered b = refl

-- `args!(…)` as the text of an argument.
abbrev pub call_text : Text → Text
call_text input = codes "args!(" ++ (input ++ codes ")")

-- The argument that an expression and a closure give as they are written, if they compile.
abbrev pub or_new : Option Arg → Arg
or_new none = new_arg
or_new (some a) = a

abbrev pub arg_of : (Trees → Option Arg) → Trees → Arg
arg_of expr ts = or_new (expr (into_arg ts))

abbrev pub call_of : (Lambda → Option Arg) → Lambda → Arg
call_of func l = or_new (func l)

-- Reading the tokens and running the statements that are written for them gives the argument.
abbrev pub Builds :
    (Trees → Option Arg)
    → (Lambda → Option Arg)
    → Bool
    → (Tree → Text)
    → Trees
    → Text
    → Arg
    → Type 0
Builds expr func checks show tokens text arg =
    (gs : Groups) × (group_by_comma checks show 3 tokens ≡ some gs)
    × (e : Env) × (run expr func (body_of gs) (begin text) ≡ some e)
    × (e.args ≡ some arg)

module _ {T : Type 0} (m : Setting T) (expr : Trees → Option Arg) (func : Lambda → Option Arg)
    (checks : Bool) (show : Tree → Text) where
  local_server_value :
      (remote : ℕ)
      → expr (into_arg handle) ≡ some (of_handle remote)
      → expr (into_arg localhost) ≡ some (of_str m.as_f64 (codes "localhost"))
      → body_value (arg_of expr) (call_of func) local_groups (
          set_string new_arg
            (call_text (m.stringify (codes "core.handle(), {servers: [\"localhost\"]}"))))
        ≡ local_server m remote
  unfolding body_value value
  local_server_value remote h k = rw (h, k) refl

  -- `args!(core.handle(), {servers: ["localhost"]})`, where the two expressions with
  -- `.into_arg()` behind them give the handle and the string and the text of the
  -- key is that word, compiles and builds the arguments that examples/map.rs and
  -- examples/server-status.rs connect with.
  pub local_server-Builds :
      (remote : ℕ)
      → show (token (ident (codes "servers"))) ≡ codes "servers"
      → expr (into_arg handle) ≡ some (of_handle remote)
      → expr (into_arg localhost) ≡ some (of_str m.as_f64 (codes "localhost"))
      → Builds expr func checks show local_tokens
          (call_text (m.stringify (codes "core.handle(), {servers: [\"localhost\"]}")))
          (local_server m remote)
  local_server-Builds remote shown h k =
      let text = call_text (m.stringify (codes "core.handle(), {servers: [\"localhost\"]}")) in
      let (e, ran, filled) =
        body_of-value expr func (arg_of expr) (call_of func) local_groups text
          (rw h refl, ((refl, ((refl, (rw k refl, tt)), tt)), tt)) in
      (
        local_groups,
        local_tokens-groups checks show shown,
        e,
        ran,
        filled ∙ ap some (local_server_value remote h k),
      )

  sum_value :
      (ts : Trees) (c : Client)
      → expr (into_arg (word (codes "sequence1"))) ≡ some (sequence m (100 ∷ 200 ∷ 300 ∷ 400 ∷ []))
      → expr (into_arg (word (codes "sequence2"))) ≡ some (sequence m (10 ∷ 20 ∷ 30 ∷ 40 ∷ []))
      → expr (into_arg (word (codes "sequence3"))) ≡ some (sequence m (1 ∷ 2 ∷ 3 ∷ 4 ∷ []))
      → lambda m.formats (closure_of (closure_tokens (delimited brace ts))).args add_all ≡ some c
      → func (closure_of (closure_tokens (delimited brace ts))) ≡ some (client_arg c)
      → some (
          body_value
            (arg_of expr)
            (call_of func)
            (sum_groups (delimited brace ts))
            (set_string new_arg (call_text (m.stringify sum_text))))
        ≡ sum_args m
  unfolding body_value value lambda_from
  sum_value ts c h h' h'' l k = rw (h, h', h'', k) (ap (with_closure m) (sym l))

  -- The `args!(…)` of the query of examples/map.rs, where the three expressions with
  -- `.into_arg()` behind them give the sequences and the closure on its variables the
  -- client `c`, compiles and builds the arguments of its `map`.
  pub sum_args-Builds :
      (ts : Trees) (c : Client)
      → expr (into_arg (word (codes "sequence1"))) ≡ some (sequence m (100 ∷ 200 ∷ 300 ∷ 400 ∷ []))
      → expr (into_arg (word (codes "sequence2"))) ≡ some (sequence m (10 ∷ 20 ∷ 30 ∷ 40 ∷ []))
      → expr (into_arg (word (codes "sequence3"))) ≡ some (sequence m (1 ∷ 2 ∷ 3 ∷ 4 ∷ []))
      → lambda m.formats (closure_of (closure_tokens (delimited brace ts))).args add_all ≡ some c
      → func (closure_of (closure_tokens (delimited brace ts))) ≡ some (client_arg c)
      → (arg : Arg) × (sum_args m ≡ some arg)
        × Builds expr func checks show
            (sum_tokens (delimited brace ts))
            (call_text (m.stringify sum_text))
            arg
  sum_args-Builds ts c h h' h'' l k =
      let text = call_text (m.stringify sum_text) in
      let (e, ran, filled) =
        body_of-value expr func (arg_of expr) (call_of func) (sum_groups (delimited brace ts)) text
          (rw h refl, (rw h' refl, (rw h'' refl, (rw k refl, tt)))) in
      (
        body_value (arg_of expr) (call_of func) (sum_groups (delimited brace ts))
            (set_string new_arg text),
        sym (sum_value ts c h h' h'' l k),
        (sum_groups (delimited brace ts), sum_tokens-groups checks show ts, e, ran, filled),
      )
