-- ===== src/Examples/Calls.antt =====
-- `connect` and the stream of a response, src/commands/io/mod.rs, at concrete inputs.
use reql.Base.{ℕ, false, true, none, some, List, [], ◌∷◌, ◌++◌, map, ◌≡◌, refl, inl}
use reql.Errors.{ok, err, from_io}
use reql.Proto.{new_term}
use reql.Commands.Arg.{Arg}
use reql.Commands.Client.{new_client}
use reql.Io.Response.{Item, expected}
use reql.Io.Cluster.{World}
use reql.Io.Calls.{Started, run, Outside, connect, closed, message, as_answer}
use reql.Io.Calls.Laws.{LeavesNone, connect-LeavesNone}
use reql.Io.Calls.Polls.{polls, ends, polls-drain}
use reql.Examples.Clusters.{network, resolve, world}

abbrev pub outside : Outside
outside = record { resolve = resolve; network = network; open_pool = λ conn w. (inl 4, w) }

abbrev pub arg : Arg
arg = record { string = []; term = ok new_term; pool = none; remote = some 1 }

connect-LeavesNone_example : LeavesNone 2 (connect outside 2 world new_client arg)
connect-LeavesNone_example = connect-LeavesNone outside 2 (λ w cfg h. (cfg, h)) world new_client arg

abbrev items : List (Item ℕ)
items = ok (some (expected 3)) ∷ err (from_io []) ∷ ok none ∷ []

polls-drain_example :
    (polls 3 (record { done = false; rx = map message items ++ closed ∷ [] })
      ≡ (map as_answer items, record { done = false; rx = closed ∷ [] }))
    × (polls {T = ℕ} 2 (record { done = false; rx = closed ∷ [] })
        ≡ (ends 2, record { done = true; rx = [] }))
polls-drain_example = polls-drain items 1 []

abbrev pooled_world : World
pooled_world = record world { pools = λ conn. some 4 }

abbrev pub run_arg : Arg
run_arg = record arg { pool = some 2 }

abbrev started : Started
started = record {
  request = record { term = new_term; opts = new_term; retries = 5; reproducible = false };
  pool = 4;
}

run_starts : run pooled_world new_client run_arg ≡ ok started
unfolding run new_client
run_starts = refl
