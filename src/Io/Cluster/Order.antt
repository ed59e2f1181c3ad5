-- ===== src/Io/Cluster/Order.antt =====
-- The order in which the servers are tried (`Ord` for `Server` of src/commands/io/mod.rs, and the
-- sort of pool.rs), and what a change of the server table leaves in the cluster.
use mathlib.Core.List.{Perm}
use mathlib.Core.List.Perm
use reql.Base.{
  ℕ, ◌≤◌, ltb, Bool, true, false, Bool-cases, some, List, [], ◌∷◌, ◌≡◌, refl, inl, inr, arith, Text,
  if◌then◌else◌,
}
use reql.Io.Cluster.{
  Server, Config, World, Network, Address, Change, insert_server, sort_servers, apply_change,
  server_latency, new_server,
}
use reql.Io.Cluster.Maps.{lookup, lookup-insert, assign-same}

-- Every server is at least as near as the next one.
abbrev pub Ordered : List Server → Type 0
Ordered [] = Unit
Ordered (s ∷ []) = Unit
Ordered (s ∷ t ∷ ts) = (s.latency ≤ t.latency) × Ordered (t ∷ ts)

cons-Ordered :
    (b : Bool) (t u s : Server) (rest us : List Server)
    → t.latency ≤ u.latency
    → t.latency ≤ s.latency
    → Ordered (if b then u ∷ rest else s ∷ us)
    → Ordered (t ∷ (if b then u ∷ rest else s ∷ us))
cons-Ordered true t u s rest us h h' o = (h, o)
cons-Ordered false t u s rest us h h' o = (h', o)

insert_server-Ordered : (s : Server) (l : List Server) → Ordered l → Ordered (insert_server s l)
unfolding insert_server
insert_server-Ordered s [] h = tt
insert_server-Ordered s (t ∷ []) h = elim (Bool-cases (ltb t.latency s.latency)) [
  | inl e ↦ rw e (ground arith, tt)
  | inr e ↦ rw e (ground arith, tt)
]
insert_server-Ordered s (t ∷ u ∷ us) (h, hs) = elim (Bool-cases (ltb t.latency s.latency)) [
  | inl e ↦ rw e (
      cons-Ordered (ltb u.latency s.latency) t u s (insert_server s us) (u ∷ us) h (ground arith)
        (insert_server-Ordered s (u ∷ us) hs))
  | inr e ↦ rw e (ground arith, (h, hs))
]

insert_server-Perm : (s : Server) (l : List Server) → Perm (s ∷ l) (insert_server s l)
unfolding insert_server
insert_server-Perm s [] = Perm.refl (s ∷ [])
insert_server-Perm s (t ∷ ts) = elim (Bool-cases (ltb t.latency s.latency)) [
  | inl e ↦ rw e (Perm.trans (Perm.swap t s ts) (Perm.cons t (insert_server-Perm s ts)))
  | inr e ↦ rw e (Perm.refl (s ∷ t ∷ ts))
]

-- The servers are tried by growing latency, and all of them are.
pub sort_servers-Ordered : (l : List Server) → Ordered (sort_servers l) × Perm l (sort_servers l)
unfolding sort_servers
sort_servers-Ordered [] = (tt, Perm.refl [])
sort_servers-Ordered (s ∷ ss) =
    let (h, p) = sort_servers-Ordered ss in
    (
      insert_server-Ordered s (sort_servers ss) h,
      Perm.trans (Perm.cons s p) (insert_server-Perm s (sort_servers ss)),
    )

-- A server that the table has anew is in the cluster afterwards, with its latency measured, and the
-- settings stay.
pub apply_change-Known :
    (net : Network) (conn : ℕ) (change : Change) (w : World) (cfg : Config) (name : Text)
    (addresses : List Address)
    → w.configs conn ≡ some cfg
    → change.new_val ≡ some (name, addresses)
    → (cfg' : Config) × ((apply_change net conn change w).configs conn ≡ some cfg')
      × (lookup name cfg'.cluster ≡ some (server_latency net w.clock (new_server name addresses)).0)
      × (cfg'.opts ≡ cfg.opts)
unfolding apply_change
apply_change-Known net conn change w cfg name addresses h new =
    rw (h, new) (_, assign-same conn _ w.configs, lookup-insert name _ cfg.cluster, refl)
