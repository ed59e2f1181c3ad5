-- ===== src/Commands/Methods/Laws.antt =====
-- What a call of any generated method of src/commands/mod.rs is written and logged as.
use mathlib.Core.Option.{some-injective}
use reql.Base.{ap, Text, Bool, true, false, Option, none, some, [], ◌≡◌, refl, if◌then◌else◌}
use reql.Errors.{ok}
use reql.Proto.{Formats, Term, command, is_new, no_terms, a_term, no_pairs}
use reql.Proto.Commands.{Command}
use reql.Types.Json.{Jsons, Fields, arr, int, nil, cons, end, ◌+++◌}
use reql.Types.Wire.{wire}
use reql.Commands.Arg.{Arg}
use reql.Commands.Client.{Client, make_cmd, call_text, start_term}
use reql.Commands.Client.Wire.{
  receiver, argument, array_of, object_of, make_cmd-wire, command-wire, receiver-args,
}
use reql.Types.Correct.{+++-nil}
use reql.Commands.Methods.Names.{name_of, takes_args}
use reql.Commands.Methods.Table.{call_method}

-- The arguments that the method for `k` hands on.
abbrev pub args_of : Command → Arg → Option Arg
args_of k a = if takes_args k then some a else none

abbrev pub args_text : Command → Arg → Text
args_text k a = if takes_args k then a.string else []

call_method_lem :
    (k : Command) (c : Client) (a : Arg)
    → call_method k c a ≡ make_cmd c (name_of k) (some (command k)) (args_of k a)
unfolding make_cmd
call_method_lem Command.add c a = refl
call_method_lem _ c a = refl

module _ (f : Formats) where
  abbrev pub argument_of : Command → Term → Option (Jsons × Fields)
  argument_of k a = if takes_args k then argument f a else some (nil, end)

  start_term-wire :
      (k : Command) (t : Term) (rs : Jsons)
      → receiver f t ≡ some rs
      → wire f (start_term (some (command k)) t)
        ≡ some
            (cons (arr (cons (int (f.term_value (command k))) (array_of (rs +++ nil) +++ nil))) nil)
  unfolding start_term wire
  start_term-wire k t rs hr =
      command-wire f k (if is_new t then no_terms else a_term t no_terms) no_pairs (rs +++ nil) end
        (rw (+++-nil rs) (receiver-args f t rs hr)) refl

  -- What a call is logged and written as.
  abbrev Called : Bool → Command → Client → Text → Arg → Jsons → Jsons → Fields → Client → Type 0
  Called b k c name arg rs js fs d =
      (d.query ≡ call_text c.query name (if b then arg.string else []))
      × (u : Term) × (d.term ≡ ok u)
      × (wire f u
          ≡ some (
              cons
                (arr
                  (cons (int (f.term_value (command k))) (array_of (rs +++ js) +++ object_of fs)))
                nil))

  make_cmd-Called :
      (b : Bool) (k : Command) (c : Client) (name : Text) (arg : Arg) (t a : Term) (rs js : Jsons)
      (fs : Fields)
      → c.term ≡ ok t
      → arg.term ≡ ok a
      → receiver f t ≡ some rs
      → (if b then argument f a else some (nil, end)) ≡ some (js, fs)
      → Called b k c name arg rs js fs
          (make_cmd c name (some (command k)) (if b then some arg else none))
  unfolding make_cmd
  make_cmd-Called true k c name arg t a rs js fs ct at hr ha =
      let (u, e, e') = make_cmd-wire f c name k arg t a rs js fs ct at hr ha in
      (rw (ct, at), u, e, e')
  make_cmd-Called false k c name arg t a rs js fs ct at hr ha =
      let none_given = some-injective _ _ ha in
      let no_js = ap (λ (p : Jsons × Fields). p.0) none_given in
      let no_fs = ap (λ (p : Jsons × Fields). p.1) none_given in
      rw (ct, ← no_js, ← no_fs)
        (refl, start_term (some (command k)) t, refl, start_term-wire k t rs hr)

  -- The method for a term type is written as that type's number with what it is called on, its
  -- arguments and its options, and adds its own name to the text of the query. A method that takes
  -- no arguments is written with none.
  pub call_method-wire :
      (k : Command) (c : Client) (arg : Arg) (t a : Term) (rs js : Jsons) (fs : Fields)
      → c.term ≡ ok t
      → arg.term ≡ ok a
      → receiver f t ≡ some rs
      → argument_of k a ≡ some (js, fs)
      → ((call_method k c arg).query ≡ call_text c.query (name_of k) (args_text k arg))
        × (u : Term) × ((call_method k c arg).term ≡ ok u)
        × (wire f u
            ≡ some (
                cons
                  (arr
                    (cons (int (f.term_value (command k))) (array_of (rs +++ js) +++ object_of fs)))
                  nil))
  call_method-wire k c arg t a rs js fs ct at hr ha =
      rw (call_method_lem k c arg)
        (make_cmd-Called (takes_args k) k c (name_of k) arg t a rs js fs ct at hr ha)
