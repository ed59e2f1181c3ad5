-- ===== src/Examples/Lifetimes.antt =====
-- A connection from its start, with what the threads do to it (src/commands/io/mod.rs).
use reql.Base.{text_eq, ◌∷◌, ℕ, codes, none, some, [], ◌≡◌, refl}
use reql.Errors.{ok}
use reql.Proto.{new_term}
use reql.Commands.Client.{new_client}
use reql.Io.Cluster.{
  Server, Config, Change, World, apply_change, set_latency, reset_cluster, set_pool, measure_all,
  measure,
}
use reql.Io.Response.{expected}
use reql.Io.Cluster.Status
use reql.Io.Cluster.Status.{ServerStatus, handle_item}
use reql.Io.Cluster.Status.Follows.{handle_item-Follows}
use reql.Io.Calls.{Started, run, connect}
use reql.Io.Maintain.{Around, Answers, asking, act}
use reql.Io.Maintain.Lives.{acts, still, more, Lives, connect-Lives}
use reql.Io.Threads.{Steps, changes, here, after, no_connections}
use reql.Io.Threads.Paths.{connect-Steps}
use reql.Io.Threads.Runs.{started, run-Steps}
use reql.Io.Cluster.Settings.{set_config, read_config, apply_options, find_servers}
use reql.Io.Cluster.Maps.{assign, insert, lookup}
use reql.Examples.Clusters.{config, world, network, resolve}
use reql.Examples.Calls.{outside, arg, run_arg}

abbrev opened_world : World
opened_world = (connect outside 2 (no_connections 0) new_client arg).1

connect-Steps_example : Steps resolve network (no_connections 0) opened_world
connect-Steps_example = connect-Steps outside 2 here (no_connections 0) new_client arg refl

-- The server table reports a server.
abbrev change : Change
change = record { new_val = some (codes "near", []); old_val = none }

abbrev later_world : World
later_world = apply_change network 2 change opened_world

has_pool : opened_world.pools 2 ≡ some 4
unfolding connect new_client set_config set_latency reset_cluster set_pool assign read_config
    apply_options find_servers measure_all measure insert
has_pool = refl

run-Steps_example :
    (cfg : Config) × (opened_world.configs 2 ≡ some cfg)
    × ((later : ℕ) × (run later_world new_client run_arg
          ≡ ok (started new_term new_term cfg.opts later)))
unfolding new_client
run-Steps_example =
    run-Steps resolve network 0 opened_world later_world new_client run_arg 2 4 new_term new_term
      (connect-Steps outside 2 here (no_connections 0) new_client arg refl)
      (after opened_world opened_world later_world (here opened_world)
        (changes 2 change opened_world))
      has_pool refl refl refl

-- A row of the server table.
abbrev status : ServerStatus ℕ
status = record {
  id = codes "1";
  name = codes "near";
  network = record {
    canonical_addresses = record { host = codes "::1"; port = 29015 } ∷ [];
    cluster_port = 29015;
    connected_to = [];
    hostname = codes "near";
    http_admin_port = 8080;
    reql_port = 28015;
    time_connected = 0;
  };
  process = record {
    argv = [];
    cache_size_mb = 0;
    pid = 1;
    time_started = 0;
    version = codes "2.3";
  };
}

abbrev status_change : Status.Change (ServerStatus ℕ) (ServerStatus ℕ)
status_change = record {
  old_val = none;
  new_val = some status;
  result_type = none;
  old_offset = none;
  new_offset = none;
  state = none;
}

handle_item-Follows_example :
    (cfg : Config) × ((handle_item network 0 world (ok (some (expected status_change)))).configs 0
      ≡ some cfg)
    × ((server : Server) × (lookup (codes "near") cfg.cluster ≡ some server)
        × (server.addresses ≡ record { host = codes "::1"; port = 28015 } ∷ []))
    × (lookup (codes "far") cfg.cluster ≡ lookup (codes "far") config.cluster)
    × (cfg.opts ≡ config.opts)
unfolding text_eq
handle_item-Follows_example =
    handle_item-Follows network 0 world config status_change status (codes "far") refl refl refl

abbrev around : Around
around = record { as_f64 = λ n. some n; stringify = λ s. s; network = network }

-- What the thread does while the first query of a connection is on its way.
abbrev none_read : Started → Answers ℕ
none_read s = ok (some (expected status_change)) ∷ []

connects : connect outside 2 (no_connections 0) new_client arg ≡ (ok 2, opened_world)
unfolding connect new_client set_config set_latency reset_cluster set_pool assign read_config
    apply_options find_servers measure_all measure insert
connects = refl

connect-Lives_example : Lives resolve around 2 (act around 2 none_read asking opened_world)
connect-Lives_example =
    connect-Lives resolve around 2 outside (no_connections 0) opened_world new_client arg 2 _
      (λ w cfg h. (cfg, h)) connects
      (more _ _ _ (still (asking, opened_world)) (acts none_read asking opened_world))
