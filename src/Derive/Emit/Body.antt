-- ===== src/Derive/Emit/Body.antt =====
-- The statements of `args!` and the argument that they fill (derive/src/args.rs).
use reql.Base.{
  Option, Text, Bool, true, false, none, some, [], ◌>>=◌, ◌≡◌, ◌≢◌, refl, sym, subst, append-nil,
  ap, ◌∙◌,
}
use reql.Commands.Arg.{Arg, new_arg, add_arg, set_string, create_term_pair}
use reql.Derive.Tokens.{Trees, Group, Groups, Members, no_groups, a_group, no_members, member}
use reql.Derive.Emit.{
  Var, args, list_arg, list_val, obj_arg, obj_val, Lambda, add_var, add_pair, tokenise, elements,
  members, body_of,
}
use reql.Derive.Emit.Run.{
  Env, get, put, add_result, step, run, run-append, run-add_var, run-add_pair, get-put_same,
}
use reql.Derive.Emit.Shapes.{
  IsFlat, AreFlat, MembersFlat, value, list_value, object_value, body_value,
}
use reql.Derive.Emit.Blocks.{
  Safe, Fits, After, After-here, After-put, After-block, Safe-list, Safe-object, Fits-list,
  Fits-object,
}

module _ (expr : Trees → Option Arg) (func : Lambda → Option Arg) (arg : Trees → Arg)
    (call : Lambda → Arg) where
  mutual
    unfolding tokenise value run step

    After-tokenise :
        (g : Group) (var : Var) (last l o : Bool) (e : Env) (a : Arg)
        → IsFlat expr func arg call l o g
        → Fits var l o
        → get var e ≡ some a
        → After var l o (value arg call g last a) e (run expr func (tokenise g var last) e)
    After-tokenise (Group.expr ts) var last l o e a flat fits h =
        rw (flat, h) (After-put expr func var l o _ e)
    After-tokenise (Group.closure ts) var last l o e a flat fits h =
        rw (flat, h) (After-put expr func var l o _ e)
    After-tokenise (Group.list gs) var last true o e a (f, flat) fits h = cc
    After-tokenise (Group.list gs) var last false o e a (f, flat) fits h =
        let (apart, kept) = Fits-list var o fits in
        After-block expr func var list_arg false o false o (add_var var list_arg)
          (λ x y. add_arg x y) (run-add_var expr func var list_arg) apart kept
          (Safe-list false o list_arg tt) e a (list_value arg call gs new_arg)
          (add_arg a (list_value arg call gs new_arg)) (elements gs) [] h
          (After-elements gs o (put list_arg (some new_arg) e) new_arg flat
            (get-put_same list_arg (some new_arg) e))
          (λ e' h'. After-here expr func var false o _ e' h')
    After-tokenise (Group.object ms) var last l true e a (f, flat) fits h = cc
    After-tokenise (Group.object ms) var true l false e a (f, flat) fits h =
        let (apart, apart', kept) = Fits-object var l true fits in
        subst (λ ss. After var l false (object_value arg call ms a) e (run expr func ss e))
          (sym (append-nil (members var ms))) (After-members ms var l e a flat kept apart' h)
    After-tokenise (Group.object ms) var false l false e a (f, flat) fits h =
        let (apart, apart', kept) = Fits-object var l false fits in
        After-block expr func var obj_arg l false l false (add_var var obj_arg) (λ x y. add_arg x y)
          (run-add_var expr func var obj_arg) apart kept (Safe-object l false obj_arg tt) e a
          (object_value arg call ms new_arg) (add_arg a (object_value arg call ms new_arg))
          (members obj_arg ms) [] h
          (After-members ms obj_arg l (put obj_arg (some new_arg) e) new_arg flat refl (λ q. cc)
            (get-put_same obj_arg (some new_arg) e))
          (λ e' h'. After-here expr func var l false _ e' h')

    After-elements :
        (gs : Groups) (o : Bool) (e : Env) (a : Arg)
        → AreFlat expr func arg call true o gs
        → get list_arg e ≡ some a
        → After list_arg false o (list_value arg call gs a) e (run expr func (elements gs) e)
    After-elements no_groups o e a flat h = After-here expr func list_arg false o a e h
    After-elements (a_group g gs) o e a (flat, flats) h =
        After-block expr func list_arg list_val false o true o (add_var list_arg list_val)
          (λ x y. add_arg x y) (run-add_var expr func list_arg list_val) (λ q. cc) refl
          (Safe-list true o list_val tt) e a (value arg call g false new_arg)
          (list_value arg call gs (add_arg a (value arg call g false new_arg)))
          (tokenise g list_val false) (elements gs) h
          (After-tokenise g list_val false true o (put list_val (some new_arg) e) new_arg flat refl
            (get-put_same list_val (some new_arg) e))
          (λ e' h'. After-elements gs o e' (add_arg a (value arg call g false new_arg)) flats h')

    After-members :
        (ms : Members) (t : Var) (l : Bool) (e : Env) (a : Arg)
        → MembersFlat expr func arg call l true ms
        → Safe l true t
        → t ≢ obj_val
        → get t e ≡ some a
        → After t l false (object_value arg call ms a) e (run expr func (members t ms) e)
    After-members no_members t l e a flat s d h = After-here expr func t l false a e h
    After-members (member k g ms) t l e a (flat, flats) s d h =
        let filled = add_result a (create_term_pair k (value arg call g false new_arg)) in
        After-block expr func t obj_val l false l true (add_pair t k obj_val)
          (λ x y. add_result x (create_term_pair k y)) (run-add_pair expr func t obj_val k) d s
          (Safe-object l true obj_val tt) e a (value arg call g false new_arg)
          (object_value arg call ms filled) (tokenise g obj_val false) (members t ms) h
          (After-tokenise g obj_val false l true (put obj_val (some new_arg) e) new_arg flat refl
            (get-put_same obj_val (some new_arg) e))
          (λ e' h'. After-members ms t l e' filled flats s d h')

-- The variables at the start of the block: `args` alone, with the text of the macro.
abbrev pub begin : Text → Env
begin s = record {
  args = some (set_string new_arg s);
  list_arg = none;
  list_val = none;
  obj_arg = none;
  obj_val = none;
}

module _ (expr : Trees → Option Arg) (func : Lambda → Option Arg) (arg : Trees → Arg)
    (call : Lambda → Arg) where
  run-body_of :
      (gs : Groups) (e : Env) (a : Arg)
      → AreFlat expr func arg call false false gs
      → get args e ≡ some a
      → (e' : Env) × (run expr func (body_of gs) e ≡ some e')
        × (e'.args ≡ some (body_value arg call gs a))
  unfolding body_of body_value run
  run-body_of no_groups e a flat h = (e, refl, h)
  run-body_of (a_group g no_groups) e a (flat, _) h =
      let r = After-tokenise expr func arg call g args true false false e a flat tt h in
      (r.env, r.ran, r.value)
  run-body_of (a_group g (a_group h gs)) e a (flat, flats) q =
      let r = After-tokenise expr func arg call g args false false false e a flat tt q in
      let (e', ran, value) = run-body_of (a_group h gs) r.env _ flats r.value in
      (
        e',
        run-append expr func (tokenise g args false) (body_of (a_group h gs)) e
            ∙ (ap (λ m. m >>= run expr func (body_of (a_group h gs))) r.ran ∙ ran),
        value,
      )

  -- Where each expression with `.into_arg()` behind its tokens, and each closure, compiles to its
  -- argument, arguments whose lists hold no lists and whose objects hold no objects become
  -- statements that compile, and these build the argument that the arguments say: each is added in
  -- its order, a list or an object as one argument, but the members of an object that comes last are
  -- options.
  pub body_of-value :
      (gs : Groups) (text : Text)
      → AreFlat expr func arg call false false gs
      → (e : Env) × (run expr func (body_of gs) (begin text) ≡ some e)
        × (e.args ≡ some (body_value arg call gs (set_string new_arg text)))
  body_of-value gs text flat = run-body_of gs (begin text) _ flat refl
