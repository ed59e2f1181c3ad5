-- ===== src/Programs/Lines.antt =====
-- examples/map.rs and examples/server-status.rs, once the driver has started their requests.
use reql.Base.{ℕ, some, List, [], ◌≡◌, ap}
use reql.Errors.{ok}
use reql.Commands.Arg.{Arg, of_connection}
use reql.Commands.Client.{Client, new_client, with_logger, with_args}
use reql.Commands.Methods.Queries
use reql.Commands.Methods.Tables.{changes}
use reql.Io.Response.{Item}
use reql.Io.Cluster.{World}
use reql.Io.Calls.{Started, connect, run}
use reql.Programs.{printed, Setting}
use reql.Programs.Futures.{IsStreams}
use reql.Programs.Printed.{sent_all, lines_of, each_result-sent_all}
use reql.Programs.ServerTable.{change_line, rows, local_server, server_status}
use reql.Io.Maintain.{include_initial}
use reql.Programs.Sums.{sum_line, sum_args, sums}

abbrev logged : Client
logged = with_logger new_client []

module _ {T : Type 0} (m : Setting T) (streams : IsStreams m.streams) (remote c : ℕ) (w : World)
    (s : Started) (items : List (Item T)) (core : m.core ≡ some remote)
    (connects : connect m.outside m.conn m.world logged (local_server m remote) ≡ (ok c, w))
    (answers : m.answers s ≡ sent_all items) where
  pub server_status_lem :
      run w
          (with_args (changes (rows m logged)) (include_initial m.as_f64 m.stringify))
          (of_connection c)
        ≡ ok s
      → server_status m ≡ printed (lines_of (change_line m) items)
  unfolding server_status
  server_status_lem runs =
      rw (core, connects, runs, answers)
        (ap printed (each_result-sent_all m.streams streams (change_line m) items))

  pub sums_lem :
      (args : Arg)
      → sum_args m ≡ some args
      → run w (Queries.map logged args) (of_connection c) ≡ ok s
      → sums m ≡ printed (lines_of (sum_line m) items)
  unfolding sums
  sums_lem args summed runs =
      rw (core, connects, summed, runs, answers)
        (ap printed (each_result-sent_all m.streams streams (sum_line m) items))
