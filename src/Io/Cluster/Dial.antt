-- ===== src/Io/Cluster/Dial.antt =====
-- `Session::new` of src/commands/io/pool.rs: the servers are tried by growing latency; after a
-- refusal all latencies are measured again and the whole search starts anew.
-- A call of itself costs one unit of fuel.
pub mod Fresh
pub mod Endless
use reql.Base.{
  ℕ, zero, suc, ◌+◌, Text, codes, Bool, false, Option, none, some, List, [], ◌∷◌, ◌++◌, map,
}
use reql.Errors.{Error, Result, ok, err, from_io}
use reql.Io.Stream.{Stream}
use reql.Io.Frame.{Session, Act}
use reql.Io.Handshake.{Crates, Credentials, handshake, Probe, is_valid}
use reql.Io.Cluster.{
  Address, Server, Opts, Config, Reply, Network, World, sort_servers, set_latency,
}
use reql.Io.Cluster.Maps.{OrderMap}

-- How a search ends: with a result, by the panic of `config()`, or not within the fuel.
pub data Search : Type 0 where
  ended : Result Session → World → Search
  panicked out_of_fuel : Search

abbrev pub servers_of : OrderMap Server → List Server
servers_of m = map (λ p. p.1) m

-- The addresses in the order in which they are tried.
unfoldable pub addresses_of : List Server → List Address
addresses_of [] = []
addresses_of (s ∷ ss) = s.addresses ++ addresses_of ss

abbrev pub dial_order : Config → List Address
dial_order cfg = addresses_of (sort_servers (servers_of cfg.cluster))

abbrev pub credentials : Opts → Credentials
credentials opts = record { user = opts.user; password = opts.password }

abbrev pub new_session : Stream → Session
new_session stream = record { id = 0; broken = false; stream = stream }

abbrev pub shaken : Result (Unit {0}) × Session → Result Session
shaken (ok u, c) = ok c
shaken (err e, c) = err e

abbrev pub after_search : (World → Search) → Search → Search
after_search next (ended (ok c) w) = ended (ok c) w
after_search next (ended (err e) w) = next w
after_search next panicked = panicked
after_search next out_of_fuel = out_of_fuel

abbrev pub after_refusal : (World → Search) → (World → Search) → Result (Unit {0}) × World → Search
after_refusal again next (err e, w) = ended (err e) w
after_refusal again next (ok u, w) = after_search next (again w)

abbrev pub ticked : World → World
ticked w = record w { clock = w.clock + 1 }

-- A stream that is open: its address is asked for, and the handshake is made.
abbrev pub opened : {S : Type 0} → Crates S → Opts → Stream → Option Text → Result Session
opened crates opts stream none = shaken (handshake crates (credentials opts) (new_session stream))
opened crates opts stream (some e) = err (from_io e)

module _ {S : Type 0} (crates : Crates S) (net : Network) where
  abbrev pub dialled :
      (World → Search) → (World → Search) → ℕ → Opts → World → Option Reply → Search
  dialled again next conn opts w none = after_refusal again next (set_latency net conn (ticked w))
  dialled again next conn opts w (some reply) =
      ended (opened crates opts reply.stream reply.local_addr) (ticked w)

  unfoldable pub try_addresses : (World → Search) → ℕ → Opts → List Address → World → Search
  try_addresses again conn opts [] w =
      ended (err (from_io (codes "failed to connect to any server"))) w
  try_addresses again conn opts (a ∷ more) w =
      dialled again (try_addresses again conn opts more) conn opts w (net w.clock a)

  abbrev pub search_in : (World → Search) → ℕ → World → Option Config → Search
  search_in again conn w none = panicked
  search_in again conn w (some cfg) = try_addresses again conn cfg.opts (dial_order cfg) w

  unfoldable pub new : ℕ → ℕ → World → Search
  new zero conn w = out_of_fuel
  new (suc fuel) conn w = search_in (new fuel conn) conn w (w.configs conn)

  -- `ManageConnection` for `SessionManager`, by which the pool opens, checks and drops sessions.
  abbrev pub manager_connect : ℕ → ℕ → World → Search
  manager_connect fuel conn w = new fuel conn w

abbrev pub manager_is_valid : Probe → Act (Unit {0})
manager_is_valid p conn = is_valid p conn

abbrev pub has_broken : Session → Bool
has_broken conn = conn.broken
