-- ===== src/Io/Cluster/Status/Follows.antt =====
-- What a connection knows after an answer about the server table (src/commands/io/mod.rs).
use reql.Base.{ℕ, Text, text_eq, false, Option, none, some, ◌≡◌, refl}
use reql.Errors.{ok}
use reql.Io.Response.{expected}
use reql.Io.Cluster.{
  Server, Config, World, Network as Sockets, apply_change, with_latency, server_latency, new_server,
}
use reql.Io.Cluster.Maps.{lookup, assign-same, lookup-insert, lookup-insert_other}
use reql.Io.Cluster.Status.{ServerStatus, Change, sockets, handle_item}

addresses-with_latency : (s : Server) (o : Option ℕ) → (with_latency s o).addresses ≡ s.addresses
addresses-with_latency s none = refl
addresses-with_latency s (some l) = refl

-- An answer with a new row makes the row's server known, at its hosts and the port for queries, in
-- place of what was known under its name; what is known of any other server stays, and so do the
-- settings.
pub handle_item-Follows :
    {T : Type 0} (net : Sockets) (conn : ℕ) (w : World) (cfg : Config)
    (c : Change (ServerStatus T) (ServerStatus T)) (s : ServerStatus T) (other : Text)
    → w.configs conn ≡ some cfg
    → c.new_val ≡ some s
    → text_eq s.name other ≡ false
    → (cfg' : Config) × ((handle_item net conn w (ok (some (expected c)))).configs conn ≡ some cfg')
      × ((server : Server) × (lookup s.name cfg'.cluster ≡ some server)
          × (server.addresses ≡ sockets s.network.reql_port s.network.canonical_addresses))
      × (lookup other cfg'.cluster ≡ lookup other cfg.cluster)
      × (cfg'.opts ≡ cfg.opts)
unfolding handle_item apply_change
handle_item-Follows net conn w cfg c s other h new differs =
    let server = new_server s.name (sockets s.network.reql_port s.network.canonical_addresses) in
    let (known, clock) = server_latency net w.clock server in
    rw (h, new)
      (
        _,
        assign-same conn _ w.configs,
        (known, lookup-insert s.name known cfg.cluster, addresses-with_latency server _),
        lookup-insert_other s.name other known cfg.cluster differs,
        refl,
      )
