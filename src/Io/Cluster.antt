-- ===== src/Io/Cluster.antt =====
-- The servers of a connection: `Server`, `Opts` and `Config` of src/lib.rs, the maps CONFIG and POOL
-- and the functions of `Connection` and `Server` in src/commands/io/mod.rs, and `Session::new` of
-- pool.rs.
-- A connection is a number. A latency is in milliseconds. The network is a function of time: each
-- call of `TcpStream::connect` takes one tick, and finds a stream or none.
pub mod Maps
pub mod Settings
pub mod Dial
pub mod Order
pub mod Status
use reql.Base.{
  ℕ, ◌+◌, ◌-◌, ◌^◌, Text, codes, Bool, true, false, Option, none, some, List, [], ◌∷◌, ltb,
  if◌then◌else◌,
}
use reql.Errors.{Error, Result, ok, err, from_driver, other}
use reql.Io.Stream.{Stream}
use reql.Io.Cluster.Maps.{OrderMap, insert, remove, lookup, assign}

-- `SocketAddr`.
pub record Address : Type 0 where
  pub host : Text
  pub port : ℕ

pub record Server : Type 0 where
  pub name : Text
  pub addresses : List Address
  pub latency : ℕ

pub record Opts : Type 0 where
  pub db : Text
  pub user : Text
  pub password : Text
  pub retries : ℕ
  pub reproducible : Bool
  pub tls : Option Text

-- `Config`, less the reactor's handle and the logger.
pub record Config : Type 0 where
  pub cluster : OrderMap Server
  pub opts : Opts

-- What `TcpStream::connect` has when it succeeds: the time that it took, the stream, and the
-- message of `local_addr()`, if that fails.
pub record Reply : Type 0 where
  pub elapsed : ℕ
  pub stream : Stream
  pub local_addr : Option Text

abbrev pub Network : Type 0
Network = ℕ → Address → Option Reply

-- CONFIG and POOL, the pools being numbered, and the time.
pub record World : Type 0 where
  pub configs : ℕ → Option Config
  pub pools : ℕ → Option ℕ
  pub clock : ℕ

abbrev pub default_opts : Opts
default_opts = record {
  db = codes "test";
  user = codes "admin";
  password = [];
  retries = 5;
  reproducible = false;
  tls = none;
}

abbrev pub new_server : Text → List Address → Server
new_server host addresses = record { name = host; addresses = addresses; latency = 2 ^ 64 - 1 }

-- `servers.sort()`, a stable sort by latency.
unfoldable pub insert_server : Server → List Server → List Server
insert_server s [] = s ∷ []
insert_server s (t ∷ ts) =
    let rest = insert_server s ts in if ltb t.latency s.latency then t ∷ rest else s ∷ t ∷ ts

unfoldable pub sort_servers : List Server → List Server
sort_servers [] = []
sort_servers (s ∷ ss) = insert_server s (sort_servers ss)

-- A change of the table `server_status`: the name and the addresses of the new and the old row.
pub record Change : Type 0 where
  pub new_val : Option (Text × List Address)
  pub old_val : Option Text

abbrev pub changed_old : Option Text → World → Config → Config × ℕ
changed_old none w cfg = (cfg, w.clock)
changed_old (some name) w cfg = (record cfg { cluster = remove name cfg.cluster }, w.clock)

abbrev pub with_latency : Server → Option ℕ → Server
with_latency s none = s
with_latency s (some l) = record s { latency = l }

abbrev first_answer : ℕ → Option ℕ × ℕ → Option Reply → Option ℕ × ℕ
first_answer clock rest none = rest
first_answer clock rest (some reply) = (some reply.elapsed, clock + 1)

module _ (net : Network) where
  -- The time that the first address to answer takes, and the time after the last attempt.
  unfoldable pub measure : ℕ → List Address → Option ℕ × ℕ
  measure clock [] = (none, clock)
  measure clock (a ∷ more) =
      let rest = measure (clock + 1) more in first_answer clock rest (net clock a)

  -- `Server::set_latency`.
  abbrev pub server_latency : ℕ → Server → Server × ℕ
  server_latency clock s =
      let found = measure clock s.addresses in (with_latency s found.0, found.1)

  unfoldable pub measure_all : ℕ → OrderMap Server → OrderMap Server × ℕ
  measure_all clock [] = ([], clock)
  measure_all clock ((k, s) ∷ kss) =
      let one = server_latency clock s in
      let rest = measure_all one.1 kss in ((k, one.0) ∷ rest.0, rest.1)

  abbrev pub measured : ℕ → World → Option Config → Result (Unit {0}) × World
  measured conn w none = (
    err (from_driver (other (codes "conn.set_latency() called before setting configuration"))),
    w,
  )
  measured conn w (some cfg) =
      let found = measure_all w.clock cfg.cluster in
      (
        ok tt,
        record w {
          configs = assign conn (record cfg { cluster = found.0 }) w.configs;
          clock = found.1;
        },
      )

  -- `Connection::set_latency`.
  unfoldable pub set_latency : ℕ → World → Result (Unit {0}) × World
  set_latency conn w = measured conn w (w.configs conn)

  abbrev pub changed : Change → Option (Text × List Address) → World → Config → Config × ℕ
  changed change none w cfg = changed_old change.old_val w cfg
  changed change (some (name, addresses)) w cfg =
      let found = server_latency w.clock (new_server name addresses) in
      (record cfg { cluster = insert name found.0 cfg.cluster }, found.1)

  abbrev pub changed_config : ℕ → Change → World → Option Config → World
  changed_config conn change w none = w
  changed_config conn change w (some cfg) =
      let done = changed change change.new_val w cfg in
      record w { configs = assign conn done.0 w.configs; clock = done.1 }

  -- What the loop of `Connection::maintain` makes of one change.
  unfoldable pub apply_change : ℕ → Change → World → World
  apply_change conn change w = changed_config conn change w (w.configs conn)

abbrev pub emptied : ℕ → World → Option Config → World
emptied conn w none = w
emptied conn w (some cfg) = record w {
  configs = assign conn (record cfg { cluster = [] }) w.configs;
}

unfoldable pub reset_cluster : ℕ → World → World
reset_cluster conn w = emptied conn w (w.configs conn)

unfoldable pub set_pool : ℕ → ℕ → World → World
set_pool conn pool w = record w { pools = assign conn pool w.pools }
