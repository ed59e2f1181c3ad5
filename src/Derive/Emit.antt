-- ===== src/Derive/Emit.antt =====
-- `Group::tokenise` and `Args::body` of derive/src/args.rs: the statements that `args!` writes.
-- The caller's code is kept as tokens. The text of the macro's input, which `process` puts into the
-- argument, is given.
pub mod Run
pub mod Shapes
pub mod Blocks
pub mod Body
pub mod Nested
pub mod Numbers
use reql.Base.{
  ℕ, zero, suc, Text, codes, Bool, true, false, Option, none, some, List, [], ◌∷◌, ◌++◌, ◌>>=◌,
  if◌then◌else◌,
}
use reql.Build.Strings.{trim}
use reql.Derive.Tokens.{
  ◌+++◌, Token, or, or_or, ident, other, paren, Tree, token, delimited, Trees, no_trees, a_tree,
  Group, Groups, Members, no_groups, a_group, no_members, member, is_none,
}
use reql.Derive.Groups.{group_by_comma}

-- The variables of the statements.
pub data Var : Type 0 where
  args list_arg list_val obj_arg obj_val : Var

-- A closure's tokens with `: Client,` behind the parameters, and the numbers of these.
pub data Piece : Type 0 where
  piece : Tree → Piece
  client_type : Piece

pub record Lambda : Type 0 where
  pub func : List Piece
  pub args : List ℕ

-- `let mut x = Arg::new();`, `x.add_arg(…)` of an expression's tokens as they are
-- written, of a closure and of a variable, which is moved, and the match on `create_term_pair(key, y)`, which moves `y` and adds an option to `x`
-- or sets its term to the error.
pub data Stmt : Type 0 where
  let_new : Var → Stmt
  add_expr : Var → Trees → Stmt
  add_func : Var → Lambda → Stmt
  add_var : Var → Var → Stmt
  add_pair : Var → Text → Var → Stmt

-- How far the parameters of a closure have been read.
pub record Bars : Type 0 where
  pub found_lbar : Bool
  pub found_rbar : Bool

abbrev pub after_bar : Bars → Bars
after_bar b =
    if b.found_lbar then record b { found_rbar = true } else record b { found_lbar = true }

abbrev pub parameter : ℕ → Tree → Bool → Lambda → Lambda
parameter i t true rest = record { func = piece t ∷ client_type ∷ rest.func; args = i ∷ rest.args }
parameter i t false rest = record rest { func = piece t ∷ rest.func }

abbrev pub plain : Tree → Lambda → Lambda
plain t rest = record rest { func = piece t ∷ rest.func }

-- Whether the token is a bar, and the bars found with it.
abbrev pub bars_at : Tree → Bars → Option Bars
bars_at (token or) b = some (after_bar b)
bars_at (token or_or) b = some (record { found_lbar = true; found_rbar = true })
bars_at _ b = none

-- The token number `i` of a closure; `more` reads the others.
abbrev pub outside_body : ℕ → Tree → Bars → Option Bars → (Bars → Lambda) → Lambda
outside_body i t b none more = parameter i t b.found_lbar (more b)
outside_body i t b (some b') more = plain t (more b')

unfoldable pub lambda_from : ℕ → Bars → Trees → Lambda
lambda_from i b no_trees = record { func = []; args = [] }
lambda_from i b (a_tree t ts) =
    let more = λ (b' : Bars). lambda_from (suc i) b' ts in
    if b.found_rbar then plain t (more b) else outside_body i t b (bars_at t b) more

abbrev pub closure_of : Trees → Lambda
closure_of ts = lambda_from 0 (record { found_lbar = false; found_rbar = false }) ts

abbrev pub new_if : Bool → List Stmt
new_if true = []
new_if false = let_new obj_arg ∷ []

abbrev pub target : Bool → Var → Var
target true var = var
target false var = obj_arg

abbrev pub hand_over : Bool → Var → List Stmt
hand_over true var = []
hand_over false var = add_var var obj_arg ∷ []

-- `#expr.into_arg()`: the call stands behind the expression's tokens, which get no parentheses.
abbrev pub into_arg : Trees → Trees
into_arg ts =
    ts
    +++ a_tree (token (other (codes ".")))
        (a_tree (token (ident (codes "into_arg"))) (a_tree (delimited paren no_trees) no_trees))

unfoldable mutual
  pub tokenise : Group → Var → Bool → List Stmt
  tokenise (Group.expr ts) var last = add_expr var (into_arg ts) ∷ []
  tokenise (Group.closure ts) var last = add_func var (closure_of ts) ∷ []
  tokenise (Group.list gs) var last = let_new list_arg ∷ (elements gs ++ add_var var list_arg ∷ [])
  tokenise (Group.object ms) var last =
      new_if last ++ (members (target last var) ms ++ hand_over last var)

  pub elements : Groups → List Stmt
  elements no_groups = []
  elements (a_group g gs) =
      let_new list_val ∷ (tokenise g list_val false ++ add_var list_arg list_val ∷ elements gs)

  pub members : Var → Members → List Stmt
  members var no_members = []
  members var (member key g ms) =
      let_new obj_val ∷ (tokenise g obj_val false ++ add_pair var key obj_val ∷ members var ms)

-- The loop of `body`: the last argument alone may give the options of the call.
unfoldable pub body_of : Groups → List Stmt
body_of no_groups = []
body_of (a_group g no_groups) = tokenise g args true
body_of (a_group g (a_group h gs)) = tokenise g args false ++ body_of (a_group h gs)

-- `Args::body` on the parsed input.
unfoldable pub body : Bool → (Tree → Text) → ℕ → Trees → Option (List Stmt)
body checks show depth trees = group_by_comma checks show depth trees >>= λ gs. some (body_of gs)

-- `Term::new()`, or the block: `args` is a new argument with a text, and the statements fill it.
pub data Code : Type 0 where
  new_term : Code
  block : Text → List Stmt → Code

-- `Args::process` on the input without the space around it; `parse` is `syn::parse_token_trees`.
unfoldable pub process : Bool → (Text → Option Trees) → (Tree → Text) → ℕ → Text → Option Code
process checks parse show depth [] = some Code.new_term
process checks parse show depth (c ∷ cs) = do
  trees ← parse (c ∷ cs)
  ss ← body checks show depth trees
  some (block (codes "args!(" ++ ((c ∷ cs) ++ codes ")")) ss)

-- `Args::new`, and the macro of derive/src/lib.rs.
abbrev pub new_args : Text → Text
new_args input = trim input

abbrev pub args_impl : Bool → (Text → Option Trees) → (Tree → Text) → ℕ → Text → Option Code
args_impl checks parse show depth input = process checks parse show depth (new_args input)
