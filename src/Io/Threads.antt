-- ===== src/Io/Threads.antt =====
-- What the threads of the driver do to the maps CONFIG and POOL, one write at a time and in any
-- order (src/commands/io/mod.rs and pool.rs): each of these calls holds the lock of its map while it
-- writes.
pub mod Keeps
pub mod Paths
pub mod Runs
pub mod Table
use reql.Base.{ℕ, ◌+◌, Text, List, Option, none, some, ◌⊎◌, ◌≡◌}
use reql.Proto.{Term}
use reql.Io.Cluster.{
  Address, Config, Change, Network, World, set_latency, set_pool, reset_cluster, apply_change,
}
use reql.Io.Cluster.Settings.{set_config}

module _ (resolve : Text → List Address ⊎ Text) (net : Network) where
  -- `connect` stores the settings of a connection whose identifier is new, and its pool after these;
  -- the threads of the pool measure the latencies, and the thread of `maintain` empties the cluster
  -- and handles the changes of the server table.
  pub data Step : World → World → Type 0 where
    stores :
        (conn : ℕ) (t : Term) (w : World)
        → w.configs conn ≡ none
        → Step w (set_config resolve conn t w).1
    measures : (conn : ℕ) (w : World) → Step w (set_latency net conn w).1
    pools :
        (conn pool : ℕ) (cfg : Config) (w : World)
        → w.configs conn ≡ some cfg
        → Step w (set_pool conn pool w)
    resets : (conn : ℕ) (w : World) → Step w (reset_cluster conn w)
    changes : (conn : ℕ) (change : Change) (w : World) → Step w (apply_change net conn change w)
    waits : (n : ℕ) (w : World) → Step w (record w { clock = w.clock + n })

  pub data Steps : World → World → Type 0 where
    here : (w : World) → Steps w w
    after : (u v w : World) → Steps u v → Step v w → Steps u w

-- No connection yet.
abbrev pub no_connections : ℕ → World
no_connections n = record { configs = λ conn. none; pools = λ conn. none; clock = n }
