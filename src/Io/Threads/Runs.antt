-- ===== src/Io/Threads/Runs.antt =====
-- `run` on a connection that has got its pool (src/commands/io/mod.rs).
use reql.Base.{ℕ, Text, some, List, ◌⊎◌, ◌≡◌, ap}
use reql.Errors.{ok}
use reql.Proto.{Term}
use reql.Commands.Arg.{Arg}
use reql.Commands.Client.{Client}
use reql.Io.Cluster.{Address, Opts, Config, Network, World}
use reql.Io.Calls.{Started, run}
use reql.Io.Threads.{Steps, no_connections}
use reql.Io.Threads.Keeps.{Has, Sound, Keeps-Steps, Sound-Keeps}

-- The request for `cterm` with the options `aterm`, under these settings.
abbrev pub started : Term → Term → Opts → ℕ → Started
started cterm aterm opts pool = record {
  request = record {
    term = cterm;
    opts = aterm;
    retries = opts.retries;
    reproducible = opts.reproducible;
  };
  pool = pool;
}

run-Has :
    (w : World) (client : Client) (arg : Arg) (conn pool : ℕ) (cterm aterm : Term) (opts : Opts)
    → client.term ≡ ok cterm
    → arg.term ≡ ok aterm
    → arg.pool ≡ some conn
    → w.pools conn ≡ some pool
    → Has opts (w.configs conn)
    → run w client arg ≡ ok (started cterm aterm opts pool)
unfolding run
run-Has w client arg conn pool cterm aterm opts c a p q h =
    rw (c, a, p, q, h.found) (ap (λ o. ok (started cterm aterm o pool)) h.same)

-- Once a connection has its pool, every later call of `run` on it starts a request, and its settings
-- are those that the connection has had: whatever steps the threads have done from the start on, in
-- whatever order.
pub run-Steps :
    (resolve : Text → List Address ⊎ Text) (net : Network) (n : ℕ) (v w : World) (client : Client)
    (arg : Arg) (conn pool : ℕ) (cterm aterm : Term)
    → Steps resolve net (no_connections n) v
    → Steps resolve net v w
    → v.pools conn ≡ some pool
    → client.term ≡ ok cterm
    → arg.term ≡ ok aterm
    → arg.pool ≡ some conn
    → (cfg : Config) × (v.configs conn ≡ some cfg)
      × ((later : ℕ) × (run w client arg ≡ ok (started cterm aterm cfg.opts later)))
run-Steps resolve net n v w client arg conn pool cterm aterm s t q c a p =
    let sound : Sound v =
      Sound-Keeps (no_connections n) v (Keeps-Steps net resolve (no_connections n) v s)
        (λ k p e. cc) in
    let (cfg, h) = sound conn pool q in
    let k = Keeps-Steps net resolve v w t in
    let (later, e) = k.pool conn pool q in
    (
      cfg,
      h,
      (later, run-Has w client arg conn later cterm aterm cfg.opts c a p e (k.settings conn cfg h)),
    )
