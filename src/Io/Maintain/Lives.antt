-- ===== src/Io/Maintain/Lives.antt =====
-- The thread of `Connection::maintain` (src/commands/io/mod.rs) among the other threads.
use reql.Base.{ℕ, Text, some, [], ◌∷◌, List, none, ◌⊎◌, ◌≡◌, ◌≢◌, refl, subst}
use reql.Errors.{ok, err}
use reql.Types.FromJson.{from_json}
use reql.Commands.Arg.{Arg, add_arg, add_opt, create_term_pair}
use reql.Commands.Client.{Client, make_cmd, new_client, with_args}
use reql.Io.Response.{Item, expected, unexpected}
use reql.Io.Cluster.{Address, World}
use reql.Io.Cluster.Status.{ServerStatus, Change, row, handle_item}
use reql.Io.Calls.{Started, Outside, connect, run}
use reql.Io.Calls.Laws.{KeepsConfig, LeavesNone, LeavesPool, connect-LeavesNone, connect-LeavesPool}
use reql.Io.Threads.{Step, changes, waits}
use reql.Io.Threads.Keeps.{Keeps, Keeps-refl, Keeps-Step, Pooled, Configured}
use reql.Io.Maintain.{Answers, Phase, asking, panicked, reading, Around, status_query, act}

module _ (resolve : Text → List Address ⊎ Text) (a : Around) (conn : ℕ) {T : Type 0} where
  -- The thread acts, with any answers, or another thread writes.
  pub data Beat : Phase T × World → Phase T × World → Type 0 where
    acts :
        (answers : Started → Answers T) (p : Phase T) (w : World)
        → Beat (p, w) (act a conn answers p w)
    others : (p : Phase T) (w w' : World) → Step resolve a.network w w' → Beat (p, w) (p, w')

  pub data Beats : Phase T × World → Phase T × World → Type 0 where
    still : (x : Phase T × World) → Beats x x
    more : (x y z : Phase T × World) → Beats x y → Beat y z → Beats x z

  -- The connection has its pool and its settings, and the thread has not panicked.
  pub record Lives (x : Phase T × World) : Type 0 where
    pub pool : Pooled conn x.1
    pub config : Configured conn x.1
    pub phase : x.0 ≢ panicked

  Lives-Keeps :
      (p q : Phase T) (w w' : World) → q ≢ panicked → Keeps w w' → Lives (p, w) → Lives (q, w')
  Lives-Keeps p q w w' ne k h =
      let (pool, pooled) = h.pool in
      let (cfg, configured) = h.config in
      let kept = k.settings conn cfg configured in
      record { pool = k.pool conn pool pooled; config = (kept.config, kept.found); phase = ne }

  Keeps-handle_item :
      (w : World) (i : Item (Change (ServerStatus T) (ServerStatus T)))
      → Keeps w (handle_item a.network conn w i)
  unfolding handle_item
  Keeps-handle_item w (ok (some (expected c))) =
      Keeps-Step a.network resolve w _ (changes conn (row c) w)
  Keeps-handle_item w (ok (some (unexpected v))) = Keeps-refl w
  Keeps-handle_item w (ok none) = Keeps-refl w
  Keeps-handle_item w (err e) = Keeps-refl w

  Lives-asked :
      (answers : Started → Answers T) (w : World)
      → Lives (asking, w)
      → Lives (act a conn answers asking w)
  unfolding act status_query run make_cmd new_client with_args add_arg add_opt create_term_pair
      from_json
  Lives-asked answers w h =
      let (pool, pooled) = h.pool in
      let (cfg, configured) = h.config in
      rw (pooled, configured)
        (record { pool = (pool, pooled); config = (cfg, configured); phase = λ e. cc })

  Lives-act :
      (answers : Started → Answers T) (p : Phase T) (w : World)
      → Lives (p, w)
      → Lives (act a conn answers p w)
  unfolding act
  Lives-act answers asking w h = Lives-asked answers w h
  Lives-act answers (reading []) w h =
      Lives-Keeps (reading []) asking w _ (λ e. cc) (Keeps-Step a.network resolve w _ (waits 500 w))
        h
  Lives-act answers (reading (i ∷ is)) w h =
      Lives-Keeps (reading (i ∷ is)) (reading is) w _ (λ e. cc) (Keeps-handle_item w i) h
  Lives-act answers panicked w h = absurd (h.phase refl)

  Lives-Beat : (x y : Phase T × World) → Beat x y → Lives x → Lives y
  Lives-Beat _ _ (acts answers p w) h = Lives-act answers p w h
  Lives-Beat _ _ (others p w w' s) h =
      Lives-Keeps p p w w' h.phase (Keeps-Step a.network resolve w w' s) h

  Lives-Beats : (x y : Phase T × World) → Beats x y → Lives x → Lives y
  Lives-Beats _ _ (still x) h = h
  Lives-Beats _ _ (more x y z s t) h = Lives-Beat y z t (Lives-Beats x y s h)

  -- The thread of a connection that has a pool and settings goes on for good.
  maintain-Lives :
      (w : World) (y : Phase T × World)
      → Pooled conn w
      → Configured conn w
      → Beats (asking, w) y
      → Lives y
  maintain-Lives w y p c s =
      Lives-Beats (asking, w) y s (record { pool = p; config = c; phase = λ e. cc })

  Lives-connected :
      (w : World) (c : ℕ) (y : Phase T × World)
      → LeavesNone conn (ok c, w)
      → LeavesPool conn (ok c, w)
      → Beats (asking, w) y
      → Lives y
  Lives-connected w c y (same, (cfg, configured, empty)) (pool, pooled) s =
      maintain-Lives w y (subst (λ k. Pooled k w) same (pool, pooled)) (cfg, configured) s

  -- When `connect` gives a connection, and opening its pool has kept the configuration, the thread
  -- that `maintain` has started for it never panics at its `unwrap` of `run`, whatever the server
  -- answers and the other threads write in between; and the connection keeps a pool and settings.
  pub connect-Lives :
      (o : Outside) (w₀ w : World) (client : Client) (arg : Arg) (c : ℕ) (y : Phase T × World)
      → KeepsConfig o conn
      → connect o conn w₀ client arg ≡ (ok c, w)
      → Beats (asking, w) y
      → Lives y
  connect-Lives o w₀ w client arg c y keeps e s =
      Lives-connected w c y
        (subst (LeavesNone conn) e (connect-LeavesNone o conn keeps w₀ client arg))
        (subst (LeavesPool conn) e (connect-LeavesPool o conn w₀ client arg)) s
