-- ===== src/Programs/Answered.antt =====
-- examples/blocking.rs, from `Client::new()` to the last line that it prints.
use reql.Base.{ℕ, Text, codes, none, some, List, ◌⊎◌, ◌≡◌, refl}
use reql.Errors.{ok}
use reql.Proto.{Formats, Term, term, new_term, no_terms, a_term, no_pairs, command}
use reql.Proto.Commands.{Command}
use reql.Types.FromJson.{from_json, str_datum, datum_term}
use reql.Types.Json.{Json, nil, cons, arr, int, str}
use reql.Commands.Client.{new_client, make_cmd}
use reql.Io.Frame.{Session}
use reql.Io.Cluster.{Config}
use reql.Io.Submit.{Env, Request, Loop, finished, submit}
use reql.Io.Calls.{Started}
use reql.Programs.{Setting}
use reql.Programs.Printed.{sent_all}
use reql.Programs.ServerTable.{rows}

-- What `r.db("rethinkdb").table("server_status")` is, and the JSON that it stands for.
abbrev pub rows_term : Term
rows_term =
    term (some (command Command.table)) none
      (a_term
        (term (some (command Command.db)) none
          (a_term (datum_term (str_datum (codes "rethinkdb"))) no_terms) no_pairs)
        (a_term (datum_term (str_datum (codes "server_status"))) no_terms))
      no_pairs

-- The request for the rows with the settings of a connection.
abbrev pub rows_request : Config → Request
rows_request cfg = record {
  term = rows_term;
  opts = new_term;
  retries = cfg.opts.retries;
  reproducible = cfg.opts.reproducible;
}

-- The thread of a request sends what `submit` sends, and is done.
abbrev pub Serves : {T : Type 0} → Setting T → Env T → ℕ → List (Session ⊎ Text) → Type 0
Serves m v fuel sessions =
    (s : Started) (l : Loop _)
    → submit v s.request fuel sessions ≡ finished l
    → m.answers s ≡ sent_all l.running.sent

module _ {T : Type 0} (m : Setting T) where
  rows_term_lem : (rows m new_client).term ≡ ok rows_term
  unfolding make_cmd new_client from_json
  rows_term_lem = refl

abbrev rows_json : Formats → Json
rows_json f =
    let ty = λ (c : Command). int (f.term_value (command c)) in
    let db = arr (cons (ty Command.db) (cons (arr (cons (str (codes "rethinkdb")) nil)) nil)) in
    arr
      (cons (ty Command.table) (cons (arr (cons db (cons (str (codes "server_status")) nil))) nil))
