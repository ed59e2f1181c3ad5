-- ===== src/Io/Cluster/Dial/Endless.antt =====
-- A search that never ends: `Session::new` of src/commands/io/pool.rs when every server refuses.
use reql.Base.{ℕ, zero, suc, ◌+◌, none, some, List, [], ◌∷◌, ◌≡◌, ◌≢◌, refl}
use reql.Errors.{ok}
use reql.Io.Handshake.{Crates}
use reql.Io.Cluster.{
  Address, Server, Config, Network, World, measure, measure_all, set_latency, server_latency,
}
use reql.Io.Cluster.Maps.{OrderMap, assign-same}
use reql.Io.Cluster.Dial.{Search, out_of_fuel, new, try_addresses, dial_order}

-- No address answers, whenever it is asked.
abbrev pub Refuses : Network → Type 0
Refuses net = (clock : ℕ) (a : Address) → net clock a ≡ none

module _ (net : Network) (refuses : Refuses net) where
  measure-none : (clock : ℕ) (addresses : List Address) → (measure net clock addresses).0 ≡ none
  unfolding measure
  measure-none clock [] = refl
  measure-none clock (a ∷ more) = rw (refuses clock a) (measure-none (clock + 1) more)

  measure_all-same : (clock : ℕ) (m : OrderMap Server) → (measure_all net clock m).0 ≡ m
  unfolding measure_all
  measure_all-same clock [] = refl
  measure_all-same clock ((k, s) ∷ kss) =
      rw (measure-none clock s.addresses, measure_all-same (server_latency net clock s).1 kss) refl

  set_latency-ok :
      (conn : ℕ) (w : World) (cfg : Config)
      → w.configs conn ≡ some cfg
      → ((set_latency net conn w).0 ≡ ok tt) × ((set_latency net conn w).1.configs conn ≡ some cfg)
  unfolding set_latency
  set_latency-ok conn w cfg h =
      rw (h, assign-same, measure_all-same w.clock cfg.cluster) (refl, refl)

  module _ {S : Type 0} (crates : Crates S) where
    try_addresses-endless :
        (again : World → Search) (conn : ℕ) (cfg : Config)
        → ((w : World) → w.configs conn ≡ some cfg → again w ≡ out_of_fuel)
        → (l : List Address) → l ≢ []
        → (w : World) → w.configs conn ≡ some cfg
        → try_addresses crates net again conn cfg.opts l w ≡ out_of_fuel
    unfolding try_addresses
    try_addresses-endless again conn cfg endless [] some_address w h = absurd (some_address refl)
    try_addresses-endless again conn cfg endless (a ∷ more) some_address w h =
        let next = record w { clock = w.clock + 1 } in
        let (done, kept) = set_latency-ok conn next cfg h in
        rw (refuses w.clock a, done, endless (set_latency net conn next).1 kept) refl

    -- If no address answers, a connection with an address is never told that there is no server:
    -- no fuel is enough.
    pub new-endless :
        (fuel conn : ℕ) (w : World) (cfg : Config)
        → w.configs conn ≡ some cfg
        → dial_order cfg ≢ []
        → new crates net fuel conn w ≡ out_of_fuel
    unfolding new
    new-endless zero conn w cfg h some_address = refl
    new-endless (suc fuel) conn w cfg h some_address = rw h (
        try_addresses-endless (new crates net fuel conn) conn cfg
          (λ w' h'. new-endless fuel conn w' cfg h' some_address) (dial_order cfg) some_address w h)
