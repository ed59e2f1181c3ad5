-- ===== src/Io/Calls.antt =====
-- `connect`, `run` and the stream of a response, of src/commands/io/mod.rs.
-- The identifier of a new connection is given. Starting the thread of a request gives the request
-- and its pool; the thread of `maintain` is left out, so what is here of it is what it does first.
pub mod Laws
pub mod Polls
pub mod Runs
use reql.Base.{
  ℕ, zero, suc, Text, codes, Bool, true, false, Option, none, some, List, [], ◌∷◌, ◌⊎◌, inl, inr,
}
use reql.Errors.{Error, Result, ok, err, from_driver, from_io, other}
use reql.Proto.{Term}
use reql.Commands.Arg.{Arg}
use reql.Commands.Client.{Client}
use reql.Io.Response.{Item, Document}
use reql.Io.Submit.{Request}
use reql.Io.Cluster.{Address, Config, Network, World, set_latency, set_pool, reset_cluster}
use reql.Io.Cluster.Settings.{set_config}

-- The request that `run` hands to its thread, and the pool that it takes its sessions from.
pub record Started : Type 0 where
  pub request : Request
  pub pool : ℕ

abbrev pub configured : Term → Term → ℕ → Option Config → Result Started
configured cterm aterm pool none = err (from_io (codes "a tokio handle is required"))
configured cterm aterm pool (some cfg) = ok (record {
  request = record {
    term = cterm;
    opts = aterm;
    retries = cfg.opts.retries;
    reproducible = cfg.opts.reproducible;
  };
  pool = pool;
})

abbrev pub pooled : World → Term → Term → ℕ → Option ℕ → Result Started
pooled w cterm aterm conn none = err (from_driver (other (codes "bug: connection not in POOL")))
pooled w cterm aterm conn (some pool) = configured cterm aterm pool (w.configs conn)

abbrev pub connected : World → Term → Term → Option ℕ → Result Started
connected w cterm aterm none = err (from_driver (other (codes "`run` requires a connection")))
connected w cterm aterm (some conn) = pooled w cterm aterm conn (w.pools conn)

abbrev pub run_args : World → Term → Arg → Result Term → Result Started
run_args w cterm arg (err e) = err e
run_args w cterm arg (ok aterm) = connected w cterm aterm arg.pool

abbrev pub run_client : World → Result Term → Arg → Result Started
run_client w (err e) arg = err e
run_client w (ok cterm) arg = run_args w cterm arg arg.term

unfoldable pub run : World → Client → Arg → Result Started
run w client arg = run_client w client.term arg

-- What `connect` takes from other code: the addresses of a host, the network, and `r2d2::Pool::new`,
-- which opens sessions and gives the pool or its error.
pub record Outside : Type 0 where
  pub resolve : Text → List Address ⊎ Text
  pub network : Network
  pub open_pool : ℕ → World → (ℕ ⊎ Text) × World

-- `conn.maintain()`, up to the start of its thread, whose first result it does not wait for.
abbrev pub maintain : ℕ → World → World
maintain conn w = reset_cluster conn w

abbrev pub opened : ℕ → (ℕ ⊎ Text) × World → Result ℕ × World
opened conn (inl pool, w) = (ok conn, maintain conn (set_pool conn pool w))
opened conn (inr e, w) = (err (from_io e), w)

module _ (o : Outside) where
  abbrev pub measured : ℕ → Result (Unit {0}) × World → Result ℕ × World
  measured conn (ok u, w) = opened conn (o.open_pool conn w)
  measured conn (err e, w) = (err e, w)

  abbrev pub settled : ℕ → Result (Unit {0}) × World → Result ℕ × World
  settled conn (ok u, w) = measured conn (set_latency o.network conn w)
  settled conn (err e, w) = (err e, w)

  abbrev pub with_remote : ℕ → World → Term → Option ℕ → Result ℕ × World
  with_remote conn w aterm none =
      (err (from_io (codes "a futures handle is required for `connect`")), w)
  with_remote conn w aterm (some remote) = settled conn (set_config o.resolve conn aterm w)

  abbrev pub connect_args : ℕ → World → Arg → Result Term → Result ℕ × World
  connect_args conn w arg (err e) = (err e, w)
  connect_args conn w arg (ok aterm) = with_remote conn w aterm arg.remote

  abbrev pub connect_client : ℕ → World → Result Term → Arg → Result ℕ × World
  connect_client conn w (err e) arg = (err e, w)
  connect_client conn w (ok cterm) arg = connect_args conn w arg arg.term

  unfoldable pub connect : ℕ → World → Client → Arg → Result ℕ × World
  connect conn w client arg = connect_client conn w client.term arg

-- What `poll` of the channel finds, and `Async` of the crate futures.
pub data RxPoll (T : Type 0) : Type 0 where
  empty closed broken : RxPoll T
  message : Item T → RxPoll T

pub data Async (A : Type 0) : Type 0 where
  not_ready : Async A
  ready : A → Async A

abbrev pub Answer : Type 0 → Type 0
Answer T = Result (Async (Option (Option (Document T))))

-- `Response`: what the channel will be found to hold, poll by poll; after that it stays empty.
pub record Response (T : Type 0) : Type 0 where
  pub done : Bool
  pub rx : List (RxPoll T)

module _ {T : Type 0} where
  abbrev pub as_answer : Item T → Answer T
  as_answer (ok d) = ok (ready (some d))
  as_answer (err e) = err e

  abbrev pub received : RxPoll T → List (RxPoll T) → Answer T × Response T
  received empty rx = (ok not_ready, record { done = false; rx = rx })
  received (message item) rx = (as_answer item, record { done = false; rx = rx })
  received closed rx = (ok (ready none), record { done = true; rx = rx })
  received broken rx = (
    err (from_driver (other (codes "an error occured while processing the stream"))),
    record { done = true; rx = rx },
  )

  abbrev pub poll_rx : List (RxPoll T) → Answer T × Response T
  poll_rx [] = received empty []
  poll_rx (p ∷ rx) = received p rx

  abbrev pub poll_with : Bool → List (RxPoll T) → Answer T × Response T
  poll_with true rx = (ok (ready none), record { done = true; rx = rx })
  poll_with false rx = poll_rx rx

  unfoldable pub poll : Response T → Answer T × Response T
  poll r = poll_with r.done r.rx
