-- ===== src/Io/Cluster/Settings/Laws.antt =====
-- What `Connection::set_config` of src/commands/io/mod.rs accepts, and what it stores.
use reql.Base.{
  ap, ℕ, Text, codes, Bool, true, false, List, [], ◌∷◌, ◌≡◌, ◌≢◌, refl, ◌⊎◌, if◌then◌else◌, text_eq,
}
use reql.Errors.{Result, ok, err, ◌>>=◌}
use reql.Proto.{Datum, Term, TermPairs, no_pairs, a_pair, optargs_of}
use reql.Io.Cluster.{Address, Server, Config, World, new_server}
use reql.Io.Cluster.Maps.{OrderMap, insert, assign}
use reql.Io.Cluster.Settings.{
  find_datum, take_hosts, Settings, updated, set_hosts, set_db, set_user, set_password,
  set_reproducible, r_str, r_bool, apply_option, apply_options, or_localhost, find_servers,
  read_config, set_config, stored, no_settings, resolved_or,
}

abbrev pub IsOk : {A : Type 0} → Result A → Type 0
IsOk {A = A} r = (a : A) × (r ≡ ok a)

IsOk-if : {A : Type 0} (b : Bool) (x y : Result A) → IsOk x → IsOk y → IsOk (if b then x else y)
IsOk-if true x y h h' = h
IsOk-if false x y h h' = h'

IsOk-take_hosts :
    (hosts : List Text) (key : Text) (ds : List Datum) → IsOk (take_hosts hosts key ds)
IsOk-take_hosts hosts key [] = (hosts, refl)
IsOk-take_hosts hosts key (d ∷ ds) = IsOk-take_hosts _ key ds

IsOk-updated : {A : Type 0} (f : A → Settings) (r : Result A) → IsOk r → IsOk (updated f r)
IsOk-updated f r (a, e) = (f a, ap (updated f) e)

IsOk-apply_option :
    (s : Settings) (key : Text) (ds : List Datum) → ds ≢ [] → IsOk (apply_option s key ds)
unfolding apply_option
IsOk-apply_option s key [] h = absurd (h refl)
IsOk-apply_option s key (d ∷ ds) h =
    IsOk-if (text_eq key (codes "db")) _ _ (set_db s (r_str d), refl)
      (IsOk-if (text_eq key (codes "user")) _ _ (set_user s (r_str d), refl)
        (IsOk-if (text_eq key (codes "password")) _ _ (set_password s (r_str d), refl)
          (IsOk-if (text_eq key (codes "reproducible")) _ _ (set_reproducible s (r_bool d), refl)
            (IsOk-if (text_eq key (codes "servers")) _ _
              (IsOk-updated (set_hosts s) _ (IsOk-take_hosts s.hosts key (d ∷ ds))) (s, refl)))))

-- Every option has a datum in its value.
abbrev pub Filled : TermPairs → Type 0
Filled no_pairs = Unit
Filled (a_pair key val more) = (find_datum val ≢ []) × Filled more

IsOk-bind :
    {A B : Type 0} (r : Result A) (f : A → Result B)
    → IsOk r
    → ((a : A) → IsOk (f a))
    → IsOk (r >>= f)
IsOk-bind r f (a, e) h = rw e (h a)

-- Options are read with no error whatever the types of their data, if each has a datum.
pub apply_options-IsOk : (ps : TermPairs) (s : Settings) → Filled ps → IsOk (apply_options s ps)
unfolding apply_options
apply_options-IsOk no_pairs s h = (s, refl)
apply_options-IsOk (a_pair key val more) s (h, hs) =
    IsOk-bind (apply_option s key (find_datum val)) _ (IsOk-apply_option s key (find_datum val) h)
      (λ s'. apply_options-IsOk more s' hs)

if-cons-ne-nil :
    {A : Type 0} (b : Bool) (p q : A) (ps qs : List A) → (if b then p ∷ ps else q ∷ qs) ≢ []
if-cons-ne-nil true p q ps qs h = cc
if-cons-ne-nil false p q ps qs h = cc

insert-ne-nil : {A : Type 0} (key : Text) (a : A) (m : OrderMap A) → insert key a m ≢ []
unfolding insert
insert-ne-nil key a [] h = cc
insert-ne-nil key a ((k, b) ∷ kbs) h =
    if-cons-ne-nil (text_eq k key) (k, a) (k, b) kbs (insert key a kbs) h

-- What a result has, if it is one.
abbrev OnOk : {A : Type 0} → (A → Type 0) → Result A → Type 0
OnOk P (ok a) = P a
OnOk P (err e) = Unit

OnOk-bind :
    {A B : Type 0} (P : B → Type 0) (r : Result A) (f : A → Result B)
    → ((a : A) → OnOk P (f a))
    → OnOk P (r >>= f)
OnOk-bind P (ok a) f h = h a
OnOk-bind P (err e) f h = tt

-- What `set_config` leaves: on success the connection has a configuration with a server, and all
-- else is as it was; on an error everything is.
abbrev pub Stored : ℕ → World → Result (Unit {0}) × World → Type 0
Stored conn w (ok u, w') =
    (cfg : Config) × (w' ≡ record w { configs = assign conn cfg w.configs }) × (cfg.cluster ≢ [])
Stored conn w (err e, w') = w' ≡ w

module _ (resolve : Text → List Address ⊎ Text) where
  find_servers-filled :
      (hosts : List Text) (cluster : OrderMap Server)
      → cluster ≢ []
      → OnOk (λ m. m ≢ []) (find_servers resolve cluster hosts)
  unfolding find_servers
  find_servers-filled [] cluster h = h
  find_servers-filled (host ∷ hosts) cluster h =
      OnOk-bind _ (resolved_or resolve host (resolve host)) _ λ addresses.
        find_servers-filled hosts _ (insert-ne-nil host (new_server host addresses) cluster)

  find_servers-start :
      (hosts : List Text) → OnOk (λ m. m ≢ []) (find_servers resolve [] (or_localhost hosts))
  unfolding find_servers
  find_servers-start [] =
      OnOk-bind _ (resolved_or resolve (codes "localhost") (resolve (codes "localhost"))) _
        λ addresses. find_servers-filled [] _ (insert-ne-nil _ _ [])
  find_servers-start (host ∷ hosts) =
      OnOk-bind _ (resolved_or resolve host (resolve host)) _
        λ addresses. find_servers-filled hosts _ (insert-ne-nil _ _ [])

  read_config-filled : (t : Term) → OnOk (λ cfg. cfg.cluster ≢ []) (read_config resolve t)
  unfolding read_config
  read_config-filled t = OnOk-bind _ (apply_options no_settings (optargs_of t)) _ λ s.
      with_servers s (find_servers resolve [] (or_localhost s.hosts)) (find_servers-start s.hosts)
    where
      with_servers :
          (s : Settings) (r : Result (OrderMap Server))
          → OnOk (λ m. m ≢ []) r
          → OnOk
              (λ (cfg : Config). cfg.cluster ≢ [])
              (r >>= λ m. ok (record { cluster = m; opts = s.opts }))
      with_servers s (ok m) h = h
      with_servers s (err e) h = tt

  Stored-stored :
      (conn : ℕ) (w : World) (r : Result Config)
      → OnOk (λ cfg. cfg.cluster ≢ []) r
      → Stored conn w (stored conn w r)
  Stored-stored conn w (ok cfg) h = (cfg, refl, h)
  Stored-stored conn w (err e) h = refl

  pub set_config-Stored :
      (conn : ℕ) (t : Term) (w : World) → Stored conn w (set_config resolve conn t w)
  unfolding set_config
  set_config-Stored conn t w = Stored-stored conn w (read_config resolve t) (read_config-filled t)
