-- ===== src/Derive/Emit/Blocks.antt =====
-- How the statements of derive/src/args.rs for one list or object change the variables.
use reql.Base.{
  Bool, true, false, Option, none, some, List, [], ◌∷◌, ◌++◌, ◌>>=◌, ◌≡◌, ◌≢◌, refl, sym, subst, ap,
  ◌∙◌,
}
use reql.Commands.Arg.{Arg, new_arg}
use reql.Derive.Tokens.{Trees}
use reql.Derive.Emit.{Var, list_arg, obj_arg, obj_val, Lambda, Stmt, let_new}
use reql.Derive.Emit.Run.{Env, get, put, run, run-append, run-let_new, get-put_same, get-put_other}

-- The variables that a group inside a list or an object leaves alone.
abbrev pub Safe : Bool → Bool → Var → Type 0
Safe l o Var.args = Unit
Safe l o Var.list_arg = l ≡ true
Safe l o Var.list_val = l ≡ true
Safe l o Var.obj_arg = o ≡ true
Safe l o Var.obj_val = o ≡ true

-- The variables to which a group is added.
abbrev pub Fits : Var → Bool → Bool → Type 0
Fits Var.args l o = Unit
Fits Var.list_val l o = l ≡ true
Fits Var.obj_val l o = o ≡ true
Fits _ l o = ⊥

-- A run that leaves `a` in `var`, and the other safe variables as they were.
pub record After (var : Var) (l o : Bool) (a : Arg) (e : Env) (m : Option Env) : Type 0 where
  pub env : Env
  pub ran : m ≡ some env
  pub value : get var env ≡ some a
  pub same : (x : Var) → Safe l o x → x ≢ var → get x env ≡ get x e

module _ (expr : Trees → Option Arg) (func : Lambda → Option Arg) where
  pub After-here :
      (var : Var) (l o : Bool) (a : Arg) (e : Env)
      → get var e ≡ some a
      → After var l o a e (run expr func [] e)
  unfolding run
  After-here var l o a e h = record { env = e; ran = refl; value = h; same = λ x s d. refl }

  pub After-put :
      (var : Var) (l o : Bool) (a : Arg) (e : Env) → After var l o a e (some (put var (some a) e))
  After-put var l o a e = record {
    env = put var (some a) e;
    ran = refl;
    value = get-put_same var (some a) e;
    same = λ x s d. get-put_other x var (some a) e d;
  }

  -- A variable `src` is declared, filled by the run of `m`, and handed over to `var`.
  module _ (var src : Var) (l o l' o' : Bool) (st : Stmt) (f : Arg → Arg → Arg)
      (runs : (ss : List Stmt) (e : Env) (a b : Arg)
        → get src e ≡ some b
        → get var (put src none e) ≡ some a
        → run expr func (st ∷ ss) e ≡ run expr func ss (put var (some (f a b)) (put src none e)))
      (apart : var ≢ src) (kept : Safe l' o' var)
      (narrow : (x : Var) → Safe l o x → (x ≢ src) × Safe l' o' x) where
    After-gather :
        (e : Env) (a b c : Arg) (m : Option Env) (ss : List Stmt)
        → get var e ≡ some a
        → After src l' o' b (put src (some new_arg) e) m
        → ((e' : Env) → get var e' ≡ some (f a b) → After var l o c e' (run expr func ss e'))
        → After var l o c e (m >>= run expr func (st ∷ ss))
    After-gather e a b c m ss h r later =
        let e1 = put src none r.env in
        let e2 = put var (some (f a b)) e1 in
        let still : get var e1 ≡ some a =
          get-put_other var src none r.env apart
          ∙ (r.same var kept apart ∙ (get-put_other var src (some new_arg) e apart ∙ h)) in
        let k = later e2 (get-put_same var (some (f a b)) e1) in
        record {
          env = k.env;
          ran =
              ap (λ n. n >>= run expr func (st ∷ ss)) r.ran
              ∙ (runs ss r.env a b r.value still ∙ k.ran);
          value = k.value;
          same = λ x s d.
              k.same x s d
              ∙ (get-put_other x var (some (f a b)) e1 d
                  ∙ (get-put_other x src none r.env (narrow x s).0
                      ∙ (r.same x (narrow x s).1 (narrow x s).0
                          ∙ get-put_other x src (some new_arg) e (narrow x s).0)));
        }

    -- The same with the declaration in front, and with the statements that fill the variable.
    pub After-block :
        (e : Env) (a b c : Arg) (fill ss : List Stmt)
        → get var e ≡ some a
        → After src l' o' b
            (put src (some new_arg) e)
            (run expr func fill (put src (some new_arg) e))
        → ((e' : Env) → get var e' ≡ some (f a b) → After var l o c e' (run expr func ss e'))
        → After var l o c e (run expr func (let_new src ∷ (fill ++ st ∷ ss)) e)
    After-block e a b c fill ss h r later =
        subst (λ m. After var l o c e m)
          (sym (
            run-let_new expr func src (fill ++ st ∷ ss) e
            ∙ run-append expr func fill (st ∷ ss) (put src (some new_arg) e)))
          (After-gather e a b c _ ss h r later)

abbrev pub OfList : Var → Type 0
OfList Var.list_arg = Unit
OfList Var.list_val = Unit
OfList _ = ⊥

abbrev pub OfObject : Var → Type 0
OfObject Var.obj_arg = Unit
OfObject Var.obj_val = Unit
OfObject _ = ⊥

-- Outside lists no variable of a list is safe, and outside objects none of an object.
pub Safe-list :
    (l o : Bool) (src : Var) → OfList src → (x : Var) → Safe false o x → (x ≢ src) × Safe l o x
Safe-list l o Var.list_arg q Var.args s = (λ h. cc, tt)
Safe-list l o Var.list_arg q Var.list_arg s = cc
Safe-list l o Var.list_arg q Var.list_val s = cc
Safe-list l o Var.list_arg q Var.obj_arg s = (λ h. cc, s)
Safe-list l o Var.list_arg q Var.obj_val s = (λ h. cc, s)
Safe-list l o Var.list_val q Var.args s = (λ h. cc, tt)
Safe-list l o Var.list_val q Var.list_arg s = cc
Safe-list l o Var.list_val q Var.list_val s = cc
Safe-list l o Var.list_val q Var.obj_arg s = (λ h. cc, s)
Safe-list l o Var.list_val q Var.obj_val s = (λ h. cc, s)
Safe-list l o Var.args q x s = elim q [ ]
Safe-list l o Var.obj_arg q x s = elim q [ ]
Safe-list l o Var.obj_val q x s = elim q [ ]

pub Safe-object :
    (l o : Bool) (src : Var) → OfObject src → (x : Var) → Safe l false x → (x ≢ src) × Safe l o x
Safe-object l o Var.obj_arg q Var.args s = (λ h. cc, tt)
Safe-object l o Var.obj_arg q Var.list_arg s = (λ h. cc, s)
Safe-object l o Var.obj_arg q Var.list_val s = (λ h. cc, s)
Safe-object l o Var.obj_arg q Var.obj_arg s = cc
Safe-object l o Var.obj_arg q Var.obj_val s = cc
Safe-object l o Var.obj_val q Var.args s = (λ h. cc, tt)
Safe-object l o Var.obj_val q Var.list_arg s = (λ h. cc, s)
Safe-object l o Var.obj_val q Var.list_val s = (λ h. cc, s)
Safe-object l o Var.obj_val q Var.obj_arg s = cc
Safe-object l o Var.obj_val q Var.obj_val s = cc
Safe-object l o Var.args q x s = elim q [ ]
Safe-object l o Var.list_arg q x s = elim q [ ]
Safe-object l o Var.list_val q x s = elim q [ ]

pub Fits-list : (var : Var) (o : Bool) → Fits var false o → (var ≢ list_arg) × Safe false o var
Fits-list Var.args o f = (λ h. cc, tt)
Fits-list Var.list_val o f = cc
Fits-list Var.obj_val o f = (λ h. cc, f)
Fits-list Var.list_arg o f = elim f [ ]
Fits-list Var.obj_arg o f = elim f [ ]

pub Fits-object :
    (var : Var) (l o : Bool) → Fits var l false → (var ≢ obj_arg) × (var ≢ obj_val) × Safe l o var
Fits-object Var.args l o f = (λ h. cc, λ h. cc, tt)
Fits-object Var.list_val l o f = (λ h. cc, λ h. cc, f)
Fits-object Var.obj_val l o f = cc
Fits-object Var.list_arg l o f = elim f [ ]
Fits-object Var.obj_arg l o f = elim f [ ]
