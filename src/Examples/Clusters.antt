-- ===== src/Examples/Clusters.antt =====
-- The servers of a connection, src/commands/io/mod.rs and pool.rs, at concrete inputs.
use reql.Base.{
  zero, suc, Text, codes, none, some, List, [], ◌∷◌, ◌++◌, ◌≡◌, ◌≢◌, refl, ◌⊎◌, inl, true,
}
use reql.Proto.{TermPairs, new_term, no_pairs, a_pair, push_arg}
use reql.Types.FromJson.{datum_term, bool_datum}
use reql.Io.Stream.{Stream}
use reql.Io.Cluster.{
  Address, Server, Config, Network, World, default_opts, new_server, sort_servers, insert_server,
}
use reql.Io.Cluster.Dial.{out_of_fuel, new, dial_order, addresses_of}
use reql.Io.Cluster.Dial.Fresh.{Found, new-Found}
use reql.Io.Cluster.Dial.Endless.{new-endless}
use reql.Io.Cluster.Settings.{set_config, apply_options, no_settings, find_datum}
use reql.Io.Cluster.Settings.Laws.{IsOk, Stored, apply_options-IsOk, set_config-Stored}
use reql.Examples.Handshakes.{crates}

abbrev address : Address
address = record { host = codes "::1"; port = 28015 }

abbrev near : Server
near = record { name = codes "near"; addresses = address ∷ []; latency = 3 }

abbrev far : Server
far = new_server (codes "far") (address ∷ [])

abbrev pub config : Config
config = record { cluster = (codes "far", far) ∷ (codes "near", near) ∷ []; opts = default_opts }

abbrev pub world : World
world = record { configs = λ conn. some config; pools = λ conn. none; clock = 0 }

abbrev greeting : Stream
greeting = record {
  input = codes "{v}" ++ 0 ∷ (codes "{a}" ++ 0 ∷ (codes "{}" ++ 0 ∷ []));
  output = [];
  faults = [];
}

-- The first attempt is refused, the others are answered.
abbrev pub network : Network
network zero a = none
network (suc clock) a = some (record { elapsed = 1; stream = greeting; local_addr = none })

abbrev refusing : Network
refusing clock a = none

new-Found_example : Found crates network (new crates network 2 0 world)
new-Found_example = new-Found crates network 2 0 world

some_address : dial_order config ≢ []
unfolding sort_servers insert_server addresses_of
some_address h = cc

new-endless_example : new crates refusing 9 0 world ≡ out_of_fuel
new-endless_example =
    new-endless refusing (λ clock a. refl) crates 9 0 world config refl some_address

abbrev pub resolve : Text → List Address ⊎ Text
resolve host = inl (address ∷ [])

set_config-Stored_example : Stored 0 world (set_config resolve 0 new_term world)
set_config-Stored_example = set_config-Stored resolve 0 new_term world

-- The user's name is a boolean.
abbrev untyped : TermPairs
untyped = a_pair (codes "user") (push_arg new_term (datum_term (bool_datum true))) no_pairs

apply_options-IsOk_example : IsOk (apply_options no_settings untyped)
unfolding find_datum
apply_options-IsOk_example = apply_options-IsOk untyped no_settings (λ h. cc, tt)
