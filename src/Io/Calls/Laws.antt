-- ===== src/Io/Calls/Laws.antt =====
-- What a connection is like when `connect` returns, and what `run` needs.
use reql.Base.{ap, ◌∙◌, ℕ, suc, Text, codes, Option, none, some, [], ◌≡◌, refl, ◌⊎◌, inl, inr}
use reql.Errors.{Result, ok, err, from_io}
use reql.Proto.{Term}
use reql.Commands.Arg.{Arg}
use reql.Commands.Client.{Client}
use reql.Io.Handshake.{Crates}
use reql.Io.Cluster.{Config, World, set_latency, set_pool, emptied, reset_cluster, sort_servers}
use reql.Io.Cluster.Maps.{assign-same}
use reql.Io.Cluster.Settings.{set_config}
use reql.Io.Cluster.Settings.Laws.{Stored, set_config-Stored}
use reql.Io.Cluster.Dial.{ended, new, try_addresses, addresses_of}
use reql.Io.Calls.{
  Outside, connect, connect_client, connect_args, with_remote, measured, settled, opened,
}

-- The connection has a configuration with no server.
abbrev pub Emptied : ℕ → World → Type 0
Emptied conn w = (cfg : Config) × (w.configs conn ≡ some cfg) × (cfg.cluster ≡ [])

-- What `connect` leaves: on success its connection, with no server.
abbrev pub LeavesNone : ℕ → Result ℕ × World → Type 0
LeavesNone conn (ok c, w) = (c ≡ conn) × Emptied conn w
LeavesNone conn (err e, w) = Unit

-- Opening a pool leaves the connection a configuration, whatever it does to the latencies.
abbrev pub KeepsConfig : Outside → ℕ → Type 0
KeepsConfig o conn =
    (w : World) (cfg : Config)
    → w.configs conn ≡ some cfg
    → (cfg' : Config) × ((o.open_pool conn w).1.configs conn ≡ some cfg')

Emptied-reset_cluster :
    (conn : ℕ) (w : World) (cfg : Config)
    → w.configs conn ≡ some cfg
    → Emptied conn (reset_cluster conn w)
unfolding reset_cluster
Emptied-reset_cluster conn w cfg h = rw h (_, assign-same conn _ w.configs, refl)

LeavesNone-opened :
    (conn : ℕ) (r : ℕ ⊎ Text) (w : World) (cfg : Config)
    → w.configs conn ≡ some cfg
    → LeavesNone conn (opened conn (r, w))
unfolding set_pool
LeavesNone-opened conn (inl pool) w cfg h =
    (refl, Emptied-reset_cluster conn (set_pool conn pool w) cfg h)
LeavesNone-opened conn (inr e) w cfg h = tt

module _ (o : Outside) (conn : ℕ) (keeps : KeepsConfig o conn) where
  LeavesNone-settled :
      (w : World) (cfg : Config)
      → w.configs conn ≡ some cfg
      → LeavesNone conn (settled o conn (ok tt, w))
  unfolding set_latency
  LeavesNone-settled w cfg h = rw h (
      let measured_config = assign-same conn _ w.configs in
      let (cfg', h') = keeps _ _ measured_config in LeavesNone-opened conn _ _ cfg' h')

  LeavesNone-Stored :
      (r : Result (Unit {0}) × World) (w : World)
      → Stored conn w r
      → LeavesNone conn (settled o conn r)
  LeavesNone-Stored (ok u, w') w (cfg, e, filled) =
      LeavesNone-settled w' cfg
        (ap (λ (x : World). x.configs conn) e ∙ assign-same conn cfg w.configs)
  LeavesNone-Stored (err e, w') w h = tt

  -- When `connect` succeeds, and opening the pool has kept the configuration, its connection is
  -- configured, and its cluster is empty: the servers that it was given are gone, and those of the
  -- server table have not been asked for.
  pub connect-LeavesNone :
      (w : World) (client : Client) (arg : Arg) → LeavesNone conn (connect o conn w client arg)
  unfolding connect
  connect-LeavesNone w client arg = of_client client.term
    where
      of_remote :
          (aterm : Term) (remote : Option ℕ) → LeavesNone conn (with_remote o conn w aterm remote)
      of_remote aterm none = tt
      of_remote aterm (some remote) =
          LeavesNone-Stored (set_config o.resolve conn aterm w) w
            (set_config-Stored o.resolve conn aterm w)

      of_args : (t : Result Term) → LeavesNone conn (connect_args o conn w arg t)
      of_args (ok aterm) = of_remote aterm arg.remote
      of_args (err e) = tt

      of_client : (t : Result Term) → LeavesNone conn (connect_client o conn w t arg)
      of_client (ok cterm) = of_args arg.term
      of_client (err e) = tt

-- What `connect` leaves: on success its connection, with a pool.
abbrev pub LeavesPool : ℕ → Result ℕ × World → Type 0
LeavesPool conn (ok c, w) = (pool : ℕ) × (w.pools c ≡ some pool)
LeavesPool conn (err e, w) = Unit

reset_cluster-pools :
    (conn : ℕ) (w : World) (o : Option Config) → (emptied conn w o).pools ≡ w.pools
reset_cluster-pools conn w none = refl
reset_cluster-pools conn w (some cfg) = refl

LeavesPool-opened : (conn : ℕ) (r : (ℕ ⊎ Text) × World) → LeavesPool conn (opened conn r)
unfolding set_pool reset_cluster
LeavesPool-opened conn (inl pool, w) = (
  pool,
  ap (λ (pools : ℕ → Option ℕ). pools conn)
        (reset_cluster-pools conn (set_pool conn pool w) (w.configs conn))
      ∙ assign-same conn pool w.pools,
)
LeavesPool-opened conn (inr e, w) = tt

module _ (o : Outside) (conn : ℕ) where
  LeavesPool-measured : (r : Result (Unit {0}) × World) → LeavesPool conn (measured o conn r)
  LeavesPool-measured (ok u, w) = LeavesPool-opened conn (o.open_pool conn w)
  LeavesPool-measured (err e, w) = tt

  LeavesPool-settled : (r : Result (Unit {0}) × World) → LeavesPool conn (settled o conn r)
  LeavesPool-settled (ok u, w) = LeavesPool-measured (set_latency o.network conn w)
  LeavesPool-settled (err e, w) = tt

  -- A connection that `connect` gives has a pool.
  pub connect-LeavesPool :
      (w : World) (client : Client) (arg : Arg) → LeavesPool conn (connect o conn w client arg)
  unfolding connect
  connect-LeavesPool w client arg = of_client client.term
    where
      of_remote :
          (aterm : Term) (remote : Option ℕ) → LeavesPool conn (with_remote o conn w aterm remote)
      of_remote aterm none = tt
      of_remote aterm (some remote) = LeavesPool-settled (set_config o.resolve conn aterm w)

      of_args : (t : Result Term) → LeavesPool conn (connect_args o conn w arg t)
      of_args (ok aterm) = of_remote aterm arg.remote
      of_args (err e) = tt

      of_client : (t : Result Term) → LeavesPool conn (connect_client o conn w t arg)
      of_client (ok cterm) = of_args arg.term
      of_client (err e) = tt

-- A session that is asked for while the cluster is empty is refused at once.
pub new-Emptied :
    {S : Type 0} (crates : Crates S) (o : Outside) (fuel conn : ℕ) (w : World)
    → Emptied conn w
    → new crates o.network (suc fuel) conn w
      ≡ ended (err (from_io (codes "failed to connect to any server"))) w
unfolding new try_addresses sort_servers addresses_of
new-Emptied crates o fuel conn w (cfg, h, e) = rw (h, e) refl
