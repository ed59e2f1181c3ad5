-- ===== src/Io/Threads/Keeps.antt =====
-- What a connection keeps while the threads do their steps (src/commands/io/mod.rs).
use reql.Base.{
  ℕ, ◌+◌, Text, ◌==◌, ==_iff, Bool-cases, Option, none, some, List, ◌⊎◌, inl, inr, ◌≡◌, refl, sym,
  ◌∙◌, ap, subst, if◌then◌else◌,
}
use reql.Errors.{Result, ok, err}
use reql.Io.Cluster.{
  Address, Opts, Config, Change, Network, World, changed_old, measured, changed, changed_config,
  emptied, set_latency, set_pool, reset_cluster, apply_change,
}
use reql.Io.Cluster.Maps.{assign}
use reql.Io.Cluster.Settings.{set_config}
use reql.Io.Cluster.Settings.Laws.{Stored, set_config-Stored}
use reql.Io.Threads.{Step, stores, measures, pools, resets, changes, waits, Steps, here, after}

-- A configuration with these settings.
pub record Has (opts : Opts) (c : Option Config) : Type 0 where
  pub config : Config
  pub found : c ≡ some config
  pub same : config.opts ≡ opts

-- The connection has a pool, or a configuration.
abbrev pub Pooled : ℕ → World → Type 0
Pooled conn w = (pool : ℕ) × (w.pools conn ≡ some pool)

abbrev pub Configured : ℕ → World → Type 0
Configured conn w = (cfg : Config) × (w.configs conn ≡ some cfg)

-- What is configured stays so, with its settings; what has a pool keeps one; a new pool stands for
-- settings.
pub record Keeps (w w' : World) : Type 0 where
  pub settings :
      (conn : ℕ) (cfg : Config) → w.configs conn ≡ some cfg → Has cfg.opts (w'.configs conn)
  pub pool : (conn pool : ℕ) → w.pools conn ≡ some pool → Pooled conn w'
  pub older : (conn pool : ℕ) → w'.pools conn ≡ some pool → Pooled conn w ⊎ Configured conn w'

-- A pool stands for settings.
abbrev pub Sound : World → Type 0
Sound w = (conn pool : ℕ) → w.pools conn ≡ some pool → Configured conn w

assign-Has :
    (conn : ℕ) (cfg : Config) (m : ℕ → Option Config)
    → ((old : Config) → m conn ≡ some old → cfg.opts ≡ old.opts)
    → (k : ℕ) (old : Config) → m k ≡ some old
    → Has old.opts (assign conn cfg m k)
unfolding assign
assign-Has conn cfg m same k old h = elim (Bool-cases (k == conn)) [
  | inl q ↦ rw q (record {
    config = cfg;
    found = refl;
    same = same old (ap m (sym ((==_iff k conn).0 q)) ∙ h);
  })
  | inr q ↦ rw q (record { config = old; found = h; same = refl })
]

Keeps-assign :
    (conn clock : ℕ) (cfg : Config) (w : World)
    → ((old : Config) → w.configs conn ≡ some old → cfg.opts ≡ old.opts)
    → Keeps w (record w { configs = assign conn cfg w.configs; clock = clock })
Keeps-assign conn clock cfg w same = record {
  settings = assign-Has conn cfg w.configs same;
  pool = λ k p h. (p, h);
  older = λ k p h. inl (p, h);
}

some-opts : (c d : Config) (o : Option Config) → o ≡ some c → o ≡ some d → c.opts ≡ d.opts
some-opts c d o h k = ap opts_or (sym h ∙ k)
  where
    opts_or : Option Config → Opts
    opts_or none = c.opts
    opts_or (some e) = e.opts

pub Keeps-refl : (w : World) → Keeps w w
Keeps-refl w = record {
  settings = λ conn cfg h. record { config = cfg; found = h; same = refl };
  pool = λ conn p h. (p, h);
  older = λ conn p h. inl (p, h);
}

pub Keeps-trans : (u v w : World) → Keeps u v → Keeps v w → Keeps u w
Keeps-trans u v w h k = record {
  settings = λ conn cfg e.
      let a = h.settings conn cfg e in
      let b = k.settings conn a.config a.found in
      record { config = b.config; found = b.found; same = b.same ∙ a.same };
  pool = λ conn p e. let (p', e') = h.pool conn p e in k.pool conn p' e';
  older = λ conn p e. carried conn (k.older conn p e);
}
  where
    first : (conn : ℕ) → Pooled conn u ⊎ Configured conn v → Pooled conn u ⊎ Configured conn w
    first conn (inl q) = inl q
    first conn (inr (cfg, e)) = let b = k.settings conn cfg e in inr (b.config, b.found)

    carried : (conn : ℕ) → Pooled conn v ⊎ Configured conn w → Pooled conn u ⊎ Configured conn w
    carried conn (inl (p, e)) = first conn (h.older conn p e)
    carried conn (inr c) = inr c

-- The settings of the configuration that stands there are `opts`.
Keeps-update :
    (conn clock : ℕ) (cfg new : Config) (w : World)
    → w.configs conn ≡ some cfg
    → new.opts ≡ cfg.opts
    → Keeps w (record w { configs = assign conn new w.configs; clock = clock })
Keeps-update conn clock cfg new w h same =
    Keeps-assign conn clock new w λ old k. same ∙ some-opts cfg old (w.configs conn) h k

Keeps-clock : (clock : ℕ) (w : World) → Keeps w (record w { clock = clock })
Keeps-clock clock w = record {
  settings = λ conn cfg h. record { config = cfg; found = h; same = refl };
  pool = λ conn p h. (p, h);
  older = λ conn p h. inl (p, h);
}

Keeps-Stored :
    (conn : ℕ) (w : World) (r : Result (Unit {0}) × World)
    → w.configs conn ≡ none
    → Stored conn w r
    → Keeps w r.1
Keeps-Stored conn w (ok u, w') fresh (cfg, e, _) =
    subst (λ x. Keeps w x) (sym e) (Keeps-assign conn w.clock cfg w (λ old h. cc))
Keeps-Stored conn w (err e, w') fresh h = subst (λ x. Keeps w x) (sym h) (Keeps-refl w)

Keeps-set_pool :
    (conn pool : ℕ) (cfg : Config) (w : World)
    → w.configs conn ≡ some cfg
    → Keeps w (set_pool conn pool w)
unfolding set_pool assign
Keeps-set_pool conn pool cfg w c = record {
  settings = λ k cfg h. record { config = cfg; found = h; same = refl };
  pool = λ k p h. elim (Bool-cases (k == conn)) [ inl q ↦ (pool, rw q refl) | inr q ↦ (p, rw q h) ];
  older = λ k p h. elim (Bool-cases (k == conn)) [
    | inl q ↦ inr (cfg, ap w.configs ((==_iff k conn).0 q) ∙ c)
    | inr q ↦ inl (p, subst (λ b. (if b then some pool else w.pools k) ≡ some p) q h)
  ];
}

Keeps-emptied :
    (conn : ℕ) (w : World) (c : Option Config) → w.configs conn ≡ c → Keeps w (emptied conn w c)
Keeps-emptied conn w none h = Keeps-refl w
Keeps-emptied conn w (some cfg) h = Keeps-update conn w.clock cfg _ w h refl

module _ (net : Network) where
  Keeps-measured :
      (conn : ℕ) (w : World) (c : Option Config)
      → w.configs conn ≡ c
      → Keeps w (measured net conn w c).1
  Keeps-measured conn w none h = Keeps-refl w
  Keeps-measured conn w (some cfg) h = Keeps-update conn _ cfg _ w h refl

  opts-changed_old :
      (old : Option Text) (w : World) (cfg : Config) → (changed_old old w cfg).0.opts ≡ cfg.opts
  opts-changed_old none w cfg = refl
  opts-changed_old (some name) w cfg = refl

  opts-changed :
      (change : Change) (new : Option (Text × List Address)) (w : World) (cfg : Config)
      → (changed net change new w cfg).0.opts ≡ cfg.opts
  opts-changed change none w cfg = opts-changed_old change.old_val w cfg
  opts-changed change (some (name, addresses)) w cfg = refl

  Keeps-changed_config :
      (conn : ℕ) (change : Change) (w : World) (c : Option Config)
      → w.configs conn ≡ c
      → Keeps w (changed_config net conn change w c)
  Keeps-changed_config conn change w none h = Keeps-refl w
  Keeps-changed_config conn change w (some cfg) h =
      Keeps-update conn _ cfg _ w h (opts-changed change change.new_val w cfg)

  module _ (resolve : Text → List Address ⊎ Text) where
    pub Keeps-Step : (w w' : World) → Step resolve net w w' → Keeps w w'
    unfolding set_latency reset_cluster apply_change
    Keeps-Step _ _ (stores conn t w fresh) =
        Keeps-Stored conn w (set_config resolve conn t w) fresh (set_config-Stored resolve conn t w)
    Keeps-Step _ _ (measures conn w) = Keeps-measured conn w (w.configs conn) refl
    Keeps-Step _ _ (pools conn pool cfg w h) = Keeps-set_pool conn pool cfg w h
    Keeps-Step _ _ (resets conn w) = Keeps-emptied conn w (w.configs conn) refl
    Keeps-Step _ _ (changes conn change w) =
        Keeps-changed_config conn change w (w.configs conn) refl
    Keeps-Step _ _ (waits n w) = Keeps-clock (w.clock + n) w

    pub Keeps-Steps : (w w' : World) → Steps resolve net w w' → Keeps w w'
    Keeps-Steps _ _ (here w) = Keeps-refl w
    Keeps-Steps _ _ (after u v w s t) = Keeps-trans u v w (Keeps-Steps u v s) (Keeps-Step v w t)

pub Sound-Keeps : (w w' : World) → Keeps w w' → Sound w → Sound w'
Sound-Keeps w w' k h conn pool e = by_age (k.older conn pool e)
  where
    by_age : Pooled conn w ⊎ Configured conn w' → Configured conn w'
    by_age (inl (p, q)) =
        let (cfg, c) = h conn p q in let b = k.settings conn cfg c in (b.config, b.found)
    by_age (inr c) = c
