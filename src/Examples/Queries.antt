-- ===== src/Examples/Queries.antt =====
-- Queries built and written: the functions of src/types.rs, src/macros.rs and src/commands/ at
-- concrete inputs. The numbers of the term types are those of the protocol; a double is written by
-- its bit pattern.
use mathlib.Core.Option
use reql.Base.{
  ℕ, codes, join, trim_right, show, show-IsSolid, true, Option, none, some, ◌≡◌, refl, List, [],
  ◌∷◌, ◌++◌,
}
use reql.Errors.{Error, ok, err}
use reql.Proto.{
  Formats, TermType, data_term, make_array, var, func, command, Term, term, new_term, no_terms,
  a_term, no_pairs, a_pair,
}
use reql.Proto.Commands.{Command}
use reql.Types.Value.{Value, array, number, null, a_value, no_values}
use reql.Types.FromJson.{from_json, datum_term, num_datum, str_datum}
use reql.Types.Json.{Json, Jsons, int, float, str, arr, nil, cons, end, render, render_items, ◌+++◌}
use reql.Types.Wire.{is_plain, wire, wire_datum}
use reql.Types.Encode.{encode, encode_datum}
use reql.Types.Correct.{encode-wire}
use reql.Types.Coercion.{coerces, Outcome, from_json-coerces}
use reql.Types.Values.{value_json}
use reql.Types.Read.{read_json, shape}
use reql.Types.Read.Strings.{show-IsWord}
use reql.Types.Read.Written.{read_json-from_json}
use reql.Commands.Arg.{Arg, of_term, new_arg, add_arg, add_opt}
use reql.Commands.Client.{Client, new_client, make_cmd}
use reql.Commands.Client.Chain.{Call, chain, error_of, or_else, first_error, chain-error}
use reql.Commands.Client.Wire.{array_of, object_of, make_cmd-wire}
use reql.Commands.Closure.{lambda, make_var, numbers, lambda-wire}
use reql.Derive.Tokens.{Trees, no_trees}
use reql.Derive.Emit.Numbers.{closure_tokens}
use reql.Io.Options.{connection_options-comma}

abbrev pub number_of : TermType → ℕ
number_of data_term = 1
number_of make_array = 2
number_of var = 10
number_of func = 69
number_of (command Command.db) = 14
number_of (command Command.add) = 24
number_of (command c) = 15

abbrev pub formats : Formats
formats = record { term_value = number_of; format_f64 = show; f64_of = λ n. n }

abbrev as_f64 : ℕ → Option ℕ
as_f64 n = some n

-- r.db("a")
abbrev pub db_call : Term
db_call =
    term (some (command Command.db)) none (a_term (datum_term (str_datum (codes "a"))) no_terms)
      no_pairs

abbrev pub db_json : Jsons
db_json = cons (arr (cons (int 14) (cons (arr (cons (str (codes "a")) nil)) nil))) nil

db_call-wire : wire formats db_call ≡ some db_json
unfolding wire wire_datum is_plain
db_call-wire = refl

db_call_text : encode formats db_call ≡ some (codes "[14,[\"a\"]]")
unfolding encode encode_datum join show trim_right
db_call_text = refl

encode-wire_example : encode formats db_call ≡ some (render_items formats db_json)
encode-wire_example = encode-wire formats show-IsSolid db_call db_json db_call-wire

-- [null, 7]
abbrev pair_value : Value
pair_value = array (a_value null (a_value (number 7) no_values))

abbrev pair_json : Json
pair_json = arr (cons (int 2) (cons (arr (cons Json.null (cons (float 7) nil))) nil))

read_json-from_json_example :
    (t : Term) × (from_json as_f64 pair_value ≡ ok t)
    × (encode formats t ≡ some (render formats pair_json))
    × (read_json (render formats pair_json) ≡ some (shape formats pair_json))
read_json-from_json_example =
    read_json-from_json formats as_f64 show-IsWord pair_value pair_json (unfold value_json in refl)

from_json-coerces_example : Outcome as_f64 (coerces as_f64 pair_value) (from_json as_f64 pair_value)
from_json-coerces_example = from_json-coerces as_f64 pair_value

-- r.db("a").table("t")
abbrev pub table_arg : Arg
table_arg = of_term (datum_term (str_datum (codes "t")))

abbrev pub db_client : Client
db_client = record { term = ok db_call; query = codes "r.db(\"a\")"; write = true; logger = [] }

make_cmd-wire_example :
    (u : Term) × ((make_cmd db_client
        (codes "table")
        (some (command Command.table))
        (some table_arg)).term
      ≡ ok u)
    × (wire formats u
        ≡ some (
            cons
              (arr (
                cons
                  (int 15)
                  (array_of (db_json +++ cons (str (codes "t")) nil) +++ object_of end)))
              nil))
make_cmd-wire_example =
    make_cmd-wire formats db_client (codes "table") Command.table table_arg db_call
      (datum_term (str_datum (codes "t"))) db_json (cons (str (codes "t")) nil) end refl refl
      (unfold wire wire_datum is_plain in refl) (unfold wire wire_datum is_plain in refl)

abbrev bad_arg : Arg
bad_arg = record new_arg { term = err (Error.compile (codes "no")) }

abbrev calls : List Call
calls =
    record { name = codes "table"; term_type = command Command.table; arg = some bad_arg }
    ∷ record { name = codes "count"; term_type = command Command.count; arg = none }
    ∷ []

chain-error_example :
    error_of (chain db_client calls).term ≡ or_else (error_of db_client.term) (first_error calls)
chain-error_example = chain-error db_client calls

-- |x| x.add(…) with its parameter at the second token, kept to the variable itself.
abbrev first_var : List Client → Client
first_var [] = new_client
first_var (c ∷ cs) = c

abbrev var_term : Term
var_term = term (some var) none (a_term (datum_term (num_datum 1)) no_terms) no_pairs

abbrev var_json : Jsons
var_json = cons (arr (cons (int 10) (cons (arr (cons (float 1) nil)) nil))) nil

lambda-wire_example :
    (c : Client) × (lambda formats (1 ∷ []) first_var ≡ some c)
    × (t : Term) × (c.term ≡ ok t)
    × (wire formats t
        ≡ some (
            cons
              (arr (
                cons (int 69) (
                  cons
                    (arr (
                      cons
                        (arr (cons (int 2) (cons (arr (numbers formats (1 ∷ []))) nil)))
                        var_json))
                    nil)))
              nil))
lambda-wire_example =
    lambda-wire formats (1 ∷ []) first_var var_term var_json (unfold make_var in refl)
      (unfold wire wire_datum in refl)

abbrev flat : Option Client → Client
flat none = new_client
flat (some c) = c

-- `|x| … |y| …`
abbrev outer_tokens : Trees
outer_tokens = closure_tokens (codes "x" ∷ []) no_trees

abbrev inner_tokens : Trees
inner_tokens = closure_tokens (codes "y" ∷ []) no_trees

-- {durability: "soft"} behind a connection
abbrev soft : Term
soft = term none none (a_term (datum_term (str_datum (codes "soft"))) no_terms) no_pairs

abbrev soft_options : Term
soft_options = term none none no_terms (a_pair (codes "durability") soft no_pairs)

abbrev soft_connection : Term
soft_connection =
    term none none (a_term new_term no_terms) (a_pair (codes "durability") soft no_pairs)

soft_text : encode formats soft_options ≡ some (codes "{\"durability\":\"soft\"}")
unfolding encode encode_datum join show trim_right
soft_text = refl

connection_options-comma_example :
    encode formats soft_connection ≡ Option.map (λ s. codes "," ++ s) (encode formats soft_options)
unfolding add_arg add_opt
connection_options-comma_example =
    connection_options-comma formats 3 (codes "durability") soft [] soft_options soft_connection
      refl refl
