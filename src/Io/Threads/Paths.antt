-- ===== src/Io/Threads/Paths.antt =====
-- `Session::new` and `connect` as steps of Io/Threads (src/commands/io/mod.rs and pool.rs).
use reql.Base.{ℕ, zero, suc, Text, Option, none, some, List, [], ◌∷◌, ◌⊎◌, inl, inr, ◌≡◌, ap, ◌∙◌}
use reql.Errors.{Result, ok, err}
use reql.Proto.{Term}
use reql.Commands.Arg.{Arg}
use reql.Commands.Client.{Client}
use reql.Io.Handshake.{Crates}
use reql.Io.Cluster.{Address, Opts, Config, Reply, Network, World, set_latency, set_pool}
use reql.Io.Cluster.Maps.{assign-same}
use reql.Io.Cluster.Settings.Laws.{Stored, set_config-Stored}
use reql.Io.Cluster.Dial.{
  Search, ended, panicked, out_of_fuel, new, try_addresses, search_in, dialled, after_search,
  after_refusal, ticked,
}
use reql.Io.Calls.{
  Outside, connect, connect_client, connect_args, with_remote, settled, measured, opened,
}
use reql.Io.Threads.{stores, measures, pools, resets, waits, Steps, here, after}
use reql.Io.Threads.Keeps.{Configured, Keeps-Steps}

module _ {S : Type 0} (crates : Crates S) (resolve : Text → List Address ⊎ Text)
    (net : Network) where
  -- The world that a search leaves is reached from `u`.
  abbrev pub Walked : World → Search → Type 0
  Walked u (ended r w) = Steps resolve net u w
  Walked u panicked = Unit
  Walked u out_of_fuel = Unit

  abbrev Walks : World → (World → Search) → Type 0
  Walks u f = (w : World) → Steps resolve net u w → Walked u (f w)

  Walked-after_search :
      (u : World) (next : World → Search) (s : Search)
      → Walked u s
      → Walks u next
      → Walked u (after_search next s)
  Walked-after_search u next (ended (ok c) w) h hs = h
  Walked-after_search u next (ended (err e) w) h hs = hs w h
  Walked-after_search u next panicked h hs = tt
  Walked-after_search u next out_of_fuel h hs = tt

  Walked-after_refusal :
      (u : World) (again next : World → Search) (r : Result (Unit {0})) (w : World)
      → Steps resolve net u w
      → Walks u again
      → Walks u next
      → Walked u (after_refusal again next (r, w))
  Walked-after_refusal u again next (ok v) w s h hs =
      Walked-after_search u next (again w) (h w s) hs
  Walked-after_refusal u again next (err e) w s h hs = s

  Walked-dialled :
      (u : World) (again next : World → Search) (conn : ℕ) (opts : Opts) (w : World)
      (r : Option Reply)
      → Steps resolve net u w
      → Walks u again
      → Walks u next
      → Walked u (dialled crates net again next conn opts w r)
  Walked-dialled u again next conn opts w none s h hs =
      Walked-after_refusal u again next _ _
        (after u (ticked w) _ (after u w _ s (waits 1 w)) (measures conn (ticked w))) h hs
  Walked-dialled u again next conn opts w (some reply) s h hs = after u w _ s (waits 1 w)

  Walked-try_addresses :
      (u : World) (again : World → Search) (conn : ℕ) (opts : Opts) (addresses : List Address)
      → Walks u again
      → Walks u (try_addresses crates net again conn opts addresses)
  unfolding try_addresses
  Walked-try_addresses u again conn opts [] h w s = s
  Walked-try_addresses u again conn opts (a ∷ more) h w s =
      Walked-dialled u again _ conn opts w (net w.clock a) s h
        (Walked-try_addresses u again conn opts more h)

  Walked-search_in :
      (u : World) (again : World → Search) (conn : ℕ) (w : World) (c : Option Config)
      → Steps resolve net u w
      → Walks u again
      → Walked u (search_in crates net again conn w c)
  Walked-search_in u again conn w none s h = tt
  Walked-search_in u again conn w (some cfg) s h =
      Walked-try_addresses u again conn cfg.opts _ h w s

  -- A search only measures latencies and takes time.
  pub new-Walked : (fuel conn : ℕ) (u : World) → Walks u (new crates net fuel conn)
  unfolding new
  new-Walked zero conn u w s = tt
  new-Walked (suc fuel) conn u w s =
      Walked-search_in u (new crates net fuel conn) conn w (w.configs conn) s
        (new-Walked fuel conn u)

-- The pool is opened with such steps.
abbrev pub OpensBySteps : Outside → ℕ → Type 0
OpensBySteps o conn = (w : World) → Steps o.resolve o.network w (o.open_pool conn w).1

module _ (o : Outside) (conn : ℕ) (opens : OpensBySteps o conn) where
  abbrev Reached : World → World → Type 0
  Reached u w = Steps o.resolve o.network u w

  Reached-opened :
      (u : World) (r : ℕ ⊎ Text) (w : World)
      → Reached u w
      → Configured conn w
      → Reached u (opened conn (r, w)).1
  Reached-opened u (inl pool) w s (cfg, h) =
      after u (set_pool conn pool w) _ (after u w _ s (pools conn pool cfg w h))
        (resets conn (set_pool conn pool w))
  Reached-opened u (inr e) w s h = s

  Steps_append : (u v w : World) → Reached u v → Reached v w → Reached u w
  Steps_append u _ _ s (here v) = s
  Steps_append u _ _ s (after v x w t k) = after u x w (Steps_append u v x s t) k

  Reached-measured :
      (u : World) (r : Result (Unit {0})) (w : World)
      → Reached u w
      → Configured conn w
      → Reached u (measured o conn (r, w)).1
  Reached-measured u (ok v) w s (cfg, h) =
      let w' = (o.open_pool conn w).1 in
      let kept = (Keeps-Steps o.network o.resolve w w' (opens w)).settings conn cfg h in
      Reached-opened u _ w' (Steps_append u w w' s (opens w)) (kept.config, kept.found)
  Reached-measured u (err e) w s h = s

  Reached-settled :
      (u : World) (r : Result (Unit {0})) (w : World)
      → Reached u w
      → Stored conn u (r, w)
      → Reached u (settled o conn (r, w)).1
  Reached-settled u (ok v) w s (cfg, e, filled) =
      let w' = (set_latency o.network conn w).1 in
      let t = after u w w' s (measures conn w) in
      let h : w.configs conn ≡ some cfg =
        ap (λ (x : World). x.configs conn) e ∙ assign-same conn cfg u.configs in
      let kept =
        (Keeps-Steps o.network o.resolve w w' (after w w w' (here w) (measures conn w))).settings
          conn cfg h in
      Reached-measured u _ w' t (kept.config, kept.found)
  Reached-settled u (err e) w s h = s

  -- `connect` for a new identifier does steps of Io/Threads only.
  pub connect-Steps :
      (u : World) (client : Client) (arg : Arg)
      → u.configs conn ≡ none
      → Reached u (connect o conn u client arg).1
  unfolding connect
  connect-Steps u client arg fresh = of_client client.term
    where
      of_remote :
          (aterm : Term) (remote : Option ℕ) → Reached u (with_remote o conn u aterm remote).1
      of_remote aterm none = here u
      of_remote aterm (some remote) =
          Reached-settled u _ _ (after u u _ (here u) (stores conn aterm u fresh))
            (set_config-Stored o.resolve conn aterm u)

      of_args : (t : Result Term) → Reached u (connect_args o conn u arg t).1
      of_args (ok aterm) = of_remote aterm arg.remote
      of_args (err e) = here u

      of_client : (t : Result Term) → Reached u (connect_client o conn u t arg).1
      of_client (ok cterm) = of_args arg.term
      of_client (err e) = here u
