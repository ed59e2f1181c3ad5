-- ===== src/Io/Cluster/Status.antt =====
-- The rows of the server table, `ServerStatus` and `Change` of types/src/lib.rs, and what the thread
-- of `Connection::maintain` in src/commands/io/mod.rs makes of each answer to its query.
-- The identifiers are texts, a double is its 64-bit pattern, and a time is of any type.
pub mod Follows
use reql.Base.{ℕ, Text, Bool, Option, none, some, List, [], ◌∷◌, map}
use reql.Errors.{Result, ok, err}
use reql.Io.Response.{Document, Item, expected, unexpected}
use reql.Io.Cluster.{Address, Change as Row, Network as Sockets, World, apply_change}

pub record CanonicalAddress : Type 0 where
  pub host : Text
  pub port : ℕ

pub record Network (T : Type 0) : Type 0 where
  pub canonical_addresses : List CanonicalAddress
  pub cluster_port : ℕ
  pub connected_to : List (Text × Bool)
  pub hostname : Text
  pub http_admin_port : ℕ
  pub reql_port : ℕ
  pub time_connected : T

pub record Process (T : Type 0) : Type 0 where
  pub argv : List Text
  pub cache_size_mb : ℕ
  pub pid : ℕ
  pub time_started : T
  pub version : Text

pub record ServerStatus (T : Type 0) : Type 0 where
  pub id : Text
  pub name : Text
  pub network : Network T
  pub process : Process T

pub record Change (O N : Type 0) : Type 0 where
  pub old_val : Option O
  pub new_val : Option N
  pub result_type : Option Text
  pub old_offset : Option ℕ
  pub new_offset : Option ℕ
  pub state : Option Text

-- The hosts of a server, each with the port for queries; the port for the cluster is not used.
abbrev pub sockets : ℕ → List CanonicalAddress → List Address
sockets reql_port [] = []
sockets reql_port (a ∷ more) = record { host = a.host; port = reql_port } ∷ sockets reql_port more

module _ {T : Type 0} where
  abbrev pub new_row : Option (ServerStatus T) → Option (Text × List Address)
  new_row none = none
  new_row (some s) = some (s.name, sockets s.network.reql_port s.network.canonical_addresses)

  abbrev pub old_row : Option (ServerStatus T) → Option Text
  old_row none = none
  old_row (some s) = some s.name

  abbrev pub row : Change (ServerStatus T) (ServerStatus T) → Row
  row c = record { new_val = new_row c.new_val; old_val = old_row c.old_val }

  -- One answer; an error and what is no change are printed.
  unfoldable pub handle_item :
      Sockets → ℕ → World → Item (Change (ServerStatus T) (ServerStatus T)) → World
  handle_item net conn w (ok (some (expected c))) = apply_change net conn (row c) w
  handle_item net conn w (ok (some (unexpected v))) = w
  handle_item net conn w (ok none) = w
  handle_item net conn w (err e) = w

  unfoldable pub handle_items :
      Sockets → ℕ → World → List (Item (Change (ServerStatus T) (ServerStatus T))) → World
  handle_items net conn w [] = w
  handle_items net conn w (i ∷ is) = handle_items net conn (handle_item net conn w i) is
