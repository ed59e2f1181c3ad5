-- ===== src/Programs/ServerTable.antt =====
-- examples/blocking.rs, examples/minimal.rs and examples/server-status.rs: the rows of the table
-- `server_status`, and the changes of these.
use reql.Base.{ℕ, Text, codes, Option, none, some, List, [], ◌∷◌, ◌++◌, ◌⊎◌, inl, inr}
use reql.Errors.{Error}
use reql.Commands.Arg.{
  Arg, new_arg, set_string, add_arg, of_str, of_handle, of_connection, create_term_pair,
}
use reql.Commands.Client.{Client, new_client, with_logger, with_args}
use reql.Commands.Methods.Queries.{db, table}
use reql.Commands.Methods.Tables.{changes}
use reql.Derive.Emit.Run.{add_result}
use reql.Io.Response.{Document, expected, unexpected}
use reql.Io.Maintain.{include_initial}
use reql.Programs.{Ran, printed, Setting, with_core, connecting, run_query, each_result}
use reql.Programs.Futures.{Line}

module _ {T : Type 0} (m : Setting T) where
  -- The bodies of the loops: one line for each result.
  abbrev pub row_line : Option (Document T) ⊎ Error → List Text
  row_line (inl (some (expected status))) = m.shows.item status ∷ []
  row_line (inl (some (unexpected status))) =
      (codes "unexpected response from server: " ++ m.shows.value status) ∷ []
  row_line (inl none) = codes "got no documents in the database" ∷ []
  row_line (inr error) = m.shows.error error ∷ []

  abbrev pub change_line : Option (Document T) ⊎ Error → List Text
  change_line (inl (some (expected change))) = m.shows.item change ∷ []
  change_line (inl res) = (codes "unexpected response from server: " ++ m.shows.result res) ∷ []
  change_line (inr error) = m.shows.error error ∷ []

  -- `r.db("rethinkdb").table("server_status")`
  abbrev pub rows : Client → Client
  rows r =
      table (db r (of_str m.as_f64 (codes "rethinkdb"))) (of_str m.as_f64 (codes "server_status"))

  -- blocking.rs: the results one after the other.
  unfoldable pub blocking : Ran
  unfolding new_client
  blocking = with_core m m.core λ remote. connecting m new_client (of_handle remote) λ conn w.
      run_query m w (rows new_client) (of_connection conn)
        λ stati. printed (each_result row_line (m.streams.wait stati))

  -- minimal.rs: closures print the documents and the errors, and the loop waits for them.
  abbrev pub print_row : Option (Document T) → Line (Unit {0}) Error
  print_row status = (row_line (inl status), inl tt)

  abbrev pub print_error : Error → Line (Unit {0}) (Unit {0})
  print_error error = (m.shows.error error ∷ [], inr tt)

  abbrev pub nothing : Unit {0} ⊎ Unit {0} → List Text
  nothing res = []

  unfoldable pub minimal : Ran
  unfolding new_client
  minimal = with_core m m.core λ remote. connecting m new_client (of_handle remote) λ conn w.
      run_query m w (rows new_client) (of_connection conn) λ query.
        let stati = m.streams.or_else print_error (m.streams.and_then print_row query) in
        printed (each_result nothing (m.streams.wait stati))

  -- `args!(core.handle(), {servers: ["localhost"]})`
  abbrev pub local_server : ℕ → Arg
  local_server remote =
      let text = m.stringify (codes "core.handle(), {servers: [\"localhost\"]}") in
      let args =
        add_arg (set_string new_arg (codes "args!(" ++ (text ++ codes ")"))) (of_handle remote) in
      let host = add_arg new_arg (of_str m.as_f64 (codes "localhost")) in
      add_result args (create_term_pair (codes "servers") (add_arg new_arg (add_arg new_arg host)))

  -- server-status.rs
  unfoldable pub server_status : Ran
  unfolding with_logger with_args
  server_status =
      let r = with_logger new_client [] in
      with_core m m.core λ remote. connecting m r (local_server remote) λ conn w.
        run_query m w (with_args (changes (rows r)) (include_initial m.as_f64 m.stringify))
          (of_connection conn) λ stati. printed (each_result change_line (m.streams.wait stati))
