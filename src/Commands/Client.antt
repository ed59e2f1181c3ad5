-- ===== src/Commands/Client.antt =====
-- `Client` of src/lib.rs, src/commands/util.rs, and the macro `with_args!` of src/macros.rs.
-- A logger is the list of the commands that it was made for, the last one first.
pub mod Chain
pub mod Wire
use reql.Base.{Text, codes, Bool, false, Option, none, some, List, [], ◌∷◌, ◌++◌, if◌then◌else◌}
use reql.Errors.{Result, ok, err}
use reql.Proto.{
  TermType, Term, Terms, TermPairs, term, new_term, no_terms, a_term, no_pairs, a_pair, push_terms,
  push_pairs, push_arg, is_new,
}
use reql.Commands.Arg.{Arg}

pub record Client : Type 0 where
  pub term : Result Term
  pub query : Text
  pub write : Bool
  pub logger : List Text

unfoldable pub new_client : Client
new_client = record { term = ok new_term; query = codes "r"; write = false; logger = [] }

-- `Client::set_term`, `Client::term`
abbrev pub set_term : Client → Result Term → Client
set_term c t = record c { term = t }

abbrev pub term_of : Client → Result Term
term_of c = c.term

unfoldable pub with_logger : Client → List Text → Client
with_logger c logger = record c { logger = logger }

-- The arguments and options one after the other.
abbrev pub push_all_terms : Terms → Terms → Terms
push_all_terms ts no_terms = ts
push_all_terms ts (a_term u us) = push_all_terms (push_terms ts u) us

abbrev pub push_all_pairs : TermPairs → TermPairs → TermPairs
push_all_pairs ps no_pairs = ps
push_all_pairs ps (a_pair k v qs) = push_all_pairs (push_pairs ps k v) qs

-- `with_args!`: a term with a type is one argument; one of the macro `args!` gives its parts.
unfoldable pub splice_args : Term → Term → Term
splice_args (term ty d ts ps) (term (some uy) e us qs) =
    push_arg (term ty d ts ps) (term (some uy) e us qs)
splice_args (term ty d ts ps) (term none e us qs) =
    term ty d (push_all_terms ts us) (push_all_pairs ps qs)

-- The command's type, and what it is called on as its first argument.
unfoldable pub start_term : Option TermType → Term → Term
start_term ty t = term ty none (if is_new t then no_terms else a_term t no_terms) no_pairs

abbrev pub call_text : Text → Text → Text → Text
call_text query name args = query ++ (codes "." ++ (name ++ (codes "(" ++ (args ++ codes ")"))))

-- The call of a command on a client whose term is `t`.
abbrev pub call : Client → Term → Text → Option TermType → Option Arg → Client
call c t name ty none =
    with_logger
      (record new_client { term = ok (start_term ty t); query = call_text c.query name [] })
      (name ∷ c.logger)
call c t name ty (some arg) = elim arg.term [
  | ok a ↦
      with_logger
        (record new_client {
          term = ok (splice_args (start_term ty t) a);
          query = call_text c.query name arg.string;
        })
        (name ∷ c.logger)
  | err e ↦ record new_client { term = err e; query = call_text c.query name arg.string }
]

unfoldable pub make_cmd : Client → Text → Option TermType → Option Arg → Client
unfolding splice_args start_term new_client with_logger
make_cmd c name ty args = elim c.term [ ok t ↦ call c t name ty args | err e ↦ c ]

abbrev extend : Client → Term → Arg → Client
extend c t arg = elim arg.term [
  | ok a ↦
      with_logger
        (record c {
          term = ok (splice_args t a);
          query = c.query ++ (codes ".with_args(" ++ (arg.string ++ codes ")"));
        })
        (codes "with_args" ∷ c.logger)
  | err e ↦ record c {
    term = err e;
    query = c.query ++ (codes ".with_args(" ++ (arg.string ++ codes ")"));
  }
]

unfoldable pub with_args : Client → Arg → Client
unfolding splice_args with_logger
with_args c arg = elim c.term [ ok t ↦ extend c t arg | err e ↦ c ]
