-- ===== src/Commands/Client/Chain.antt =====
-- Chains of commands, and the error that a chain ends with.
use mathlib.Core.List.{foldl}
use reql.Base.{Text, Option, none, some, List, [], ◌∷◌, ◌≡◌, refl, ◌∙◌, ap, sym, arith}
use reql.Errors.{Error, Result, ok, err}
use reql.Proto.{Term, TermType}
use reql.Commands.Arg.{Arg}
use reql.Commands.Client.{Client, make_cmd}

-- One call `.name(arg)` of a chain.
pub record Call : Type 0 where
  pub name : Text
  pub term_type : TermType
  pub arg : Option Arg

abbrev pub step : Client → Call → Client
step c k = make_cmd c k.name (some k.term_type) k.arg

abbrev pub chain : Client → List Call → Client
chain = foldl step

abbrev pub error_of : Result Term → Option Error
error_of (ok t) = none
error_of (err e) = some e

abbrev pub arg_error : Option Arg → Option Error
arg_error none = none
arg_error (some a) = error_of a.term

abbrev pub or_else : Option Error → Option Error → Option Error
or_else none o = o
or_else (some e) o = some e

-- The error of the first argument that has one.
abbrev pub first_error : List Call → Option Error
first_error [] = none
first_error (k ∷ ks) = or_else (arg_error k.arg) (first_error ks)

or_else_assoc : (a b c : Option Error) → or_else (or_else a b) c ≡ or_else a (or_else b c)
or_else_assoc none b c = refl
or_else_assoc (some e) b c = refl

or_else-none : (a : Option Error) → or_else a none ≡ a
or_else-none none = refl
or_else-none (some e) = refl

make_cmd-error :
    (c : Client) (name : Text) (ty : Option TermType) (arg : Option Arg)
    → error_of (make_cmd c name ty arg).term ≡ or_else (error_of c.term) (arg_error arg)
unfolding make_cmd
make_cmd-error c name ty none = ground arith
make_cmd-error c name ty (some a) = ground arith

-- A chain ends in an error exactly when the client or an argument has one, and then with the first.
pub chain-error :
    (c : Client) (ks : List Call)
    → error_of (chain c ks).term ≡ or_else (error_of c.term) (first_error ks)
chain-error c [] = sym (or_else-none (error_of c.term))
chain-error c (k ∷ ks) =
    chain-error (step c k) ks
    ∙ ap (λ o. or_else o (first_error ks)) (make_cmd-error c k.name (some k.term_type) k.arg)
    ∙ or_else_assoc (error_of c.term) (arg_error k.arg) (first_error ks)
