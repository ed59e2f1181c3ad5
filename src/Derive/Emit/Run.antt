-- ===== src/Derive/Emit/Run.antt =====
-- What the statements of `args!` build when they are run (src/commands/args.rs). `none`: the
-- statements do not compile, since a variable is used that has been moved or was never declared, or
-- the caller's code does not compile.
use reql.Base.{Text, Option, none, some, List, [], ◌∷◌, ◌++◌, ◌>>=◌, ◌≡◌, ◌≢◌, refl}
use reql.Errors.{Result, ok, err}
use reql.Proto.{Term}
use reql.Commands.Arg.{Arg, new_arg, add_arg, add_opt, set_term, create_term_pair}
use reql.Derive.Tokens.{Trees}
use reql.Derive.Emit.{Var, Lambda, Stmt, let_new, add_expr, add_func, add_var, add_pair}

-- The variables that can be used. A variable that is declared again hides the old one for good.
pub record Env : Type 0 where
  pub args : Option Arg
  pub list_arg : Option Arg
  pub list_val : Option Arg
  pub obj_arg : Option Arg
  pub obj_val : Option Arg

abbrev pub get : Var → Env → Option Arg
get Var.args e = e.args
get Var.list_arg e = e.list_arg
get Var.list_val e = e.list_val
get Var.obj_arg e = e.obj_arg
get Var.obj_val e = e.obj_val

abbrev pub put : Var → Option Arg → Env → Env
put Var.args a e = record e { args = a }
put Var.list_arg a e = record e { list_arg = a }
put Var.list_val a e = record e { list_val = a }
put Var.obj_arg a e = record e { obj_arg = a }
put Var.obj_val a e = record e { obj_val = a }

abbrev pub add_result : Arg → Result (Text × Term) → Arg
add_result a (ok pair) = add_opt a pair
add_result a (err e) = set_term a (err e)

-- `expr` and `func` are the arguments that the caller's code gives as it is written; `none`: it does
-- not compile there.
module _ (expr : Trees → Option Arg) (func : Lambda → Option Arg) where
  abbrev update : Var → (Arg → Arg) → Env → Option Env
  update x f e = get x e >>= λ a. some (put x (some (f a)) e)

  -- The argument in `y` is moved out.
  abbrev consume : Var → (Arg → Env → Option Env) → Env → Option Env
  consume y k e = get y e >>= λ b. k b (put y none e)

  unfoldable pub step : Stmt → Env → Option Env
  step (let_new x) e = some (put x (some new_arg) e)
  step (add_expr x ts) e = expr ts >>= λ b. update x (λ a. add_arg a b) e
  step (add_func x l) e = func l >>= λ b. update x (λ a. add_arg a b) e
  step (add_var x y) e = consume y (λ b. update x (λ a. add_arg a b)) e
  step (add_pair x key y) e =
      consume y (λ b. update x (λ a. add_result a (create_term_pair key b))) e

  unfoldable pub run : List Stmt → Env → Option Env
  run [] e = some e
  run (s ∷ ss) e = step s e >>= run ss

  pub run-append : (ss ts : List Stmt) (e : Env) → run (ss ++ ts) e ≡ (run ss e >>= run ts)
  unfolding run
  run-append [] ts e = refl
  run-append (s ∷ ss) ts e = after (step s e) (run-append ss ts)
    where
      after :
          (m : Option Env)
          → ((e' : Env) → run (ss ++ ts) e' ≡ (run ss e' >>= run ts))
          → (m >>= run (ss ++ ts)) ≡ ((m >>= run ss) >>= run ts)
      after none h = refl
      after (some e') h = h e'

  pub run-let_new :
      (x : Var) (ss : List Stmt) (e : Env)
      → run (let_new x ∷ ss) e ≡ run ss (put x (some new_arg) e)
  unfolding run step
  run-let_new x ss e = refl

  -- A variable that is moved into another.
  pub run-add_var :
      (x y : Var) (ss : List Stmt) (e : Env) (a b : Arg)
      → get y e ≡ some b
      → get x (put y none e) ≡ some a
      → run (add_var x y ∷ ss) e ≡ run ss (put x (some (add_arg a b)) (put y none e))
  unfolding run step
  run-add_var x y ss e a b h h' = rw (h, h') refl

  pub run-add_pair :
      (x y : Var) (key : Text) (ss : List Stmt) (e : Env) (a b : Arg)
      → get y e ≡ some b
      → get x (put y none e) ≡ some a
      → run (add_pair x key y ∷ ss) e
        ≡ run ss (put x (some (add_result a (create_term_pair key b))) (put y none e))
  unfolding run step
  run-add_pair x y key ss e a b h h' = rw (h, h') refl

pub get-put_same : (x : Var) (a : Option Arg) (e : Env) → get x (put x a e) ≡ a
get-put_same Var.args a e = refl
get-put_same Var.list_arg a e = refl
get-put_same Var.list_val a e = refl
get-put_same Var.obj_arg a e = refl
get-put_same Var.obj_val a e = refl

pub get-put_other : (x y : Var) (a : Option Arg) (e : Env) → x ≢ y → get x (put y a e) ≡ get x e
get-put_other Var.args Var.args a e h = absurd (h refl)
get-put_other Var.args Var.list_arg a e h = refl
get-put_other Var.args Var.list_val a e h = refl
get-put_other Var.args Var.obj_arg a e h = refl
get-put_other Var.args Var.obj_val a e h = refl
get-put_other Var.list_arg Var.args a e h = refl
get-put_other Var.list_arg Var.list_arg a e h = absurd (h refl)
get-put_other Var.list_arg Var.list_val a e h = refl
get-put_other Var.list_arg Var.obj_arg a e h = refl
get-put_other Var.list_arg Var.obj_val a e h = refl
get-put_other Var.list_val Var.args a e h = refl
get-put_other Var.list_val Var.list_arg a e h = refl
get-put_other Var.list_val Var.list_val a e h = absurd (h refl)
get-put_other Var.list_val Var.obj_arg a e h = refl
get-put_other Var.list_val Var.obj_val a e h = refl
get-put_other Var.obj_arg Var.args a e h = refl
get-put_other Var.obj_arg Var.list_arg a e h = refl
get-put_other Var.obj_arg Var.list_val a e h = refl
get-put_other Var.obj_arg Var.obj_arg a e h = absurd (h refl)
get-put_other Var.obj_arg Var.obj_val a e h = refl
get-put_other Var.obj_val Var.args a e h = refl
get-put_other Var.obj_val Var.list_arg a e h = refl
get-put_other Var.obj_val Var.list_val a e h = refl
get-put_other Var.obj_val Var.obj_arg a e h = refl
get-put_other Var.obj_val Var.obj_val a e h = absurd (h refl)
