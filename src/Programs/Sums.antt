-- ===== src/Programs/Sums.antt =====
-- examples/map.rs: the sums of three sequences, element by element.
use reql.Base.{ℕ, Text, codes, Option, none, some, List, [], ◌∷◌, ◌++◌, ◌⊎◌, inl, inr}
use reql.Errors.{Error}
use reql.Types.Value.{Values, number, array, no_values, a_value}
use reql.Commands.Arg.{Arg, new_arg, set_string, add_arg, of_client, of_value, of_connection}
use reql.Commands.Client.{Client, new_client, with_logger}
use reql.Commands.Closure.{lambda}
use reql.Commands.Methods.Queries
use reql.Commands.Methods.Values.{add}
use reql.Io.Response.{Document, expected}
use reql.Programs.{Ran, panicked, printed, Setting, with_core, connecting, run_query, each_result}
use reql.Programs.ServerTable.{local_server}

-- `json!([…])`
abbrev pub json_numbers : List ℕ → Values
json_numbers [] = no_values
json_numbers (n ∷ ns) = a_value (number n) (json_numbers ns)

abbrev pub client_arg : Client → Arg
client_arg c = of_client c.query c.term

-- The closure `|val1, val2, val3| { val1.add(val2).add(val3) }`, which is given three variables.
abbrev pub add_all : List Client → Client
add_all (val1 ∷ val2 ∷ val3 ∷ []) = add (add val1 (client_arg val2)) (client_arg val3)
add_all _ = new_client

-- What stands in `args!` of the query.
abbrev pub sum_text : Text
sum_text = codes "sequence1, sequence2, sequence3, |val1, val2, val3| { val1.add(val2).add(val3) }"

module _ {T : Type 0} (m : Setting T) where
  abbrev pub sum_line : Option (Document T) ⊎ Error → List Text
  sum_line (inl (some (expected sum))) = m.shows.item sum ∷ []
  sum_line (inl res) = (codes "unexpected response from DB: " ++ m.shows.result res) ∷ []
  sum_line (inr error) = m.shows.error error ∷ []

  abbrev pub sequence : List ℕ → Arg
  sequence ns = of_value m.as_f64 (m.shows.json (array (json_numbers ns))) (array (json_numbers ns))

  -- `args!(sequence1, sequence2, sequence3, |val1, val2, val3| { … })`; the parameters are the
  -- tokens 1, 2 and 3 of the closure. `none` is the panic of `unwrap` in `func!`.
  abbrev pub with_closure : Option Client → Option Arg
  with_closure none = none
  with_closure (some func) =
      let args = set_string new_arg (codes "args!(" ++ (m.stringify sum_text ++ codes ")")) in
      let sequences =
        add_arg
          (add_arg (add_arg args (sequence (100 ∷ 200 ∷ 300 ∷ 400 ∷ [])))
            (sequence (10 ∷ 20 ∷ 30 ∷ 40 ∷ [])))
          (sequence (1 ∷ 2 ∷ 3 ∷ 4 ∷ [])) in
      some (add_arg sequences (client_arg func))

  abbrev pub sum_args : Option Arg
  sum_args = with_closure (lambda m.formats (1 ∷ 2 ∷ 3 ∷ []) add_all)

  abbrev pub with_args_of : Option Arg → (Arg → Ran) → Ran
  with_args_of none k = panicked
  with_args_of (some arg) k = k arg

  unfoldable pub sums : Ran
  unfolding new_client with_logger
  sums =
      let r = with_logger new_client [] in
      with_core m m.core λ remote. connecting m r (local_server m remote) λ conn w.
        with_args_of sum_args λ args.
          run_query m w (Queries.map r args) (of_connection conn)
            λ sum. printed (each_result sum_line (m.streams.wait sum))
