-- ===== src/Io/Maintain.antt =====
-- The thread of `Connection::maintain` in src/commands/io/mod.rs: it asks for the changes of the
-- server table, handles the answers one after the other, sleeps, and asks again.
-- What waiting for the stream of a request hands out is given.
pub mod Lives
use reql.Base.{ℕ, ◌+◌, Text, codes, true, Option, List, [], ◌∷◌, ◌++◌}
use reql.Errors.{Result, ok, err}
use reql.Commands.Arg.{
  Arg, new_arg, set_string, add_arg, of_str, of_bool, of_connection, create_term_pair,
}
use reql.Commands.Client.{Client, new_client, with_args}
use reql.Commands.Methods.Queries.{db, table}
use reql.Commands.Methods.Tables.{changes}
use reql.Derive.Emit.Run.{add_result}
use reql.Io.Response.{Item}
use reql.Io.Cluster.{Network, World}
use reql.Io.Cluster.Status.{ServerStatus, Change, handle_item}
use reql.Io.Calls.{Started, run}

-- What is read of the server table.
abbrev pub Answers : Type 0 → Type 0
Answers T = List (Item (Change (ServerStatus T) (ServerStatus T)))

-- Where the thread stands: at `run`, in the loop over the results, or in the panic of `unwrap`.
pub data Phase (T : Type 0) : Type 0 where
  asking panicked : Phase T
  reading : Answers T → Phase T

-- What the thread takes from other code: whether a number is a double, the text that `args!` has of
-- its input, and the network.
pub record Around : Type 0 where
  pub as_f64 : ℕ → Option ℕ
  pub stringify : Text → Text
  pub network : Network

-- `args!({include_initial: true})`
abbrev pub include_initial : (ℕ → Option ℕ) → (Text → Text) → Arg
include_initial as_f64 stringify =
    let text = stringify (codes "{include_initial: true}") in
    add_result (set_string new_arg (codes "args!(" ++ (text ++ codes ")")))
      (create_term_pair (codes "include_initial") (add_arg new_arg (of_bool as_f64 true)))

module _ (a : Around) (conn : ℕ) where
  unfoldable pub status_query : Client
  unfolding new_client with_args
  status_query =
      with_args
        (changes (
          table (db new_client (of_str a.as_f64 (codes "rethinkdb")))
            (of_str a.as_f64 (codes "server_status"))))
        (include_initial a.as_f64 a.stringify)

  module _ {T : Type 0} where
    abbrev pub after_ask : World → (Started → Answers T) → Result Started → Phase T × World
    after_ask w answers (ok s) = (reading (answers s), w)
    after_ask w answers (err e) = (panicked, w)

    -- One act of the thread.
    unfoldable pub act : (Started → Answers T) → Phase T → World → Phase T × World
    act answers asking w = after_ask w answers (run w status_query (of_connection conn))
    act answers (reading []) w = (asking, record w { clock = w.clock + 500 })
    act answers (reading (i ∷ is)) w = (reading is, handle_item a.network conn w i)
    act answers panicked w = (panicked, w)
