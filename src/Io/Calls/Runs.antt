-- ===== src/Io/Calls/Runs.antt =====
-- What `run` of src/commands/io/mod.rs needs, and the request that it makes.
use reql.Base.{ℕ, Option, none, some, ◌≡◌, refl, ◌↔◌, subst}
use reql.Errors.{Result, ok, err}
use reql.Proto.{Term}
use reql.Commands.Arg.{Arg}
use reql.Commands.Client.{Client}
use reql.Io.Cluster.{Config, World}
use reql.Io.Calls.{Started, run, run_client, run_args, connected, pooled, configured}

-- A client and arguments without errors, a connection among them that has a pool and a
-- configuration, and the request made of them.
pub record IsRun (w : World) (client : Client) (arg : Arg) (s : Started) : Type 0 where
  pub conn : ℕ
  pub cfg : Config
  pub client_term : client.term ≡ ok s.request.term
  pub arg_term : arg.term ≡ ok s.request.opts
  pub connection : arg.pool ≡ some conn
  pub pool : w.pools conn ≡ some s.pool
  pub config : w.configs conn ≡ some cfg
  pub retries : cfg.opts.retries ≡ s.request.retries
  pub reproducible : cfg.opts.reproducible ≡ s.request.reproducible

ok-injective : {a b : Started} → ok a ≡ ok b → a ≡ b
ok-injective h = cc

module _ (w : World) (client : Client) (arg : Arg) (s : Started) where
  configured-IsRun :
      (t u : Term) (conn pool : ℕ) (c : Option Config)
      → client.term ≡ ok t
      → arg.term ≡ ok u
      → arg.pool ≡ some conn
      → w.pools conn ≡ some pool
      → w.configs conn ≡ c
      → configured t u pool c ≡ ok s
      → IsRun w client arg s
  configured-IsRun t u conn pool none e e' p q c h = cc
  configured-IsRun t u conn pool (some cfg) e e' p q c h =
      subst (λ r. IsRun w client arg r) (ok-injective h)
        (record {
          conn = conn;
          cfg = cfg;
          client_term = e;
          arg_term = e';
          connection = p;
          pool = q;
          config = c;
          retries = refl;
          reproducible = refl;
        })

  pooled-IsRun :
      (t u : Term) (conn : ℕ) (pool : Option ℕ)
      → client.term ≡ ok t
      → arg.term ≡ ok u
      → arg.pool ≡ some conn
      → w.pools conn ≡ pool
      → pooled w t u conn pool ≡ ok s
      → IsRun w client arg s
  pooled-IsRun t u conn none e e' p q h = cc
  pooled-IsRun t u conn (some pool) e e' p q h =
      configured-IsRun t u conn pool (w.configs conn) e e' p q refl h

  connected-IsRun :
      (t u : Term) (conn : Option ℕ)
      → client.term ≡ ok t
      → arg.term ≡ ok u
      → arg.pool ≡ conn
      → connected w t u conn ≡ ok s
      → IsRun w client arg s
  connected-IsRun t u none e e' p h = cc
  connected-IsRun t u (some conn) e e' p h = pooled-IsRun t u conn (w.pools conn) e e' p refl h

  run_args-IsRun :
      (t : Term) (u : Result Term)
      → client.term ≡ ok t
      → arg.term ≡ u
      → run_args w t arg u ≡ ok s
      → IsRun w client arg s
  run_args-IsRun t (ok u) e e' h = connected-IsRun t u arg.pool e e' refl h
  run_args-IsRun t (err m) e e' h = cc

  run_client-IsRun :
      (t : Result Term) → client.term ≡ t → run_client w t arg ≡ ok s → IsRun w client arg s
  run_client-IsRun (ok t) e h = run_args-IsRun t arg.term e refl h
  run_client-IsRun (err m) e h = cc

  -- `run` starts a request exactly if the client and the arguments have no error and a connection
  -- with a pool and a configuration, and the request is made of these.
  pub run_iff : (run w client arg ≡ ok s) ↔ IsRun w client arg s
  unfolding run
  run_iff = (
    run_client-IsRun client.term refl,
    λ r.
        rw (r.client_term, r.arg_term, r.connection, r.pool, r.config, r.retries, r.reproducible)
          refl,
  )
