-- ===== src/Io/Cluster/Settings.antt =====
-- `Connection::set_config` of src/commands/io/mod.rs: the settings in the options of `connect`, and
-- the servers that they name.
pub mod Laws
use reql.Base.{
  ℕ, ◌+◌, Text, codes, show, text_eq, Bool, Option, none, some, List, [], ◌∷◌, ◌++◌, ◌⊎◌, inl, inr,
  if◌then◌else◌,
}
use reql.Errors.{Result, ok, err, ◌>>=◌, from_driver, from_io, other}
use reql.Proto.{
  Datum, datum, Term, Terms, TermPairs, term, no_terms, a_term, no_pairs, a_pair, optargs_of,
}
use reql.Io.Cluster.{Address, Server, Opts, Config, World, default_opts, new_server}
use reql.Io.Cluster.Maps.{OrderMap, insert, assign}

-- The data of a term, from the left to the right.
unfoldable mutual
  pub find_datum : Term → List Datum
  find_datum (term ty (some d) ts ps) = d ∷ []
  find_datum (term ty none ts ps) = find_datum_args ts

  pub find_datum_args : Terms → List Datum
  find_datum_args no_terms = []
  find_datum_args (a_term t ts) = find_datum t ++ find_datum_args ts

-- `datum.take_r_str()` and `datum.get_r_bool()`: the field, whatever the datum's type.
abbrev pub r_str : Datum → Text
r_str (datum ty b n s ds ps) = s

abbrev pub r_bool : Datum → Bool
r_bool (datum ty b n s ds ps) = b

abbrev must_be : Text → Text → Text
must_be key what = codes "`" ++ (key ++ (codes "` must be a " ++ what))

abbrev pub take_string : Text → List Datum → Result Text
take_string key [] = err (from_driver (other (must_be key (codes "string"))))
take_string key (d ∷ ds) = ok (r_str d)

abbrev pub take_bool : Text → List Datum → Result Bool
take_bool key [] = err (from_driver (other (must_be key (codes "boolean"))))
take_bool key (d ∷ ds) = ok (r_bool d)

-- The settings read so far.
pub record Settings : Type 0 where
  pub hosts : List Text
  pub opts : Opts

abbrev pub take_hosts : List Text → Text → List Datum → Result (List Text)
take_hosts hosts key [] = ok hosts
take_hosts hosts key (d ∷ ds) =
    take_string key (d ∷ []) >>= λ host. take_hosts (hosts ++ host ∷ []) key ds

abbrev pub set_db : Settings → Text → Settings
set_db s x = record s { opts = record s.opts { db = x } }

abbrev pub set_user : Settings → Text → Settings
set_user s x = record s { opts = record s.opts { user = x } }

abbrev pub set_password : Settings → Text → Settings
set_password s x = record s { opts = record s.opts { password = x } }

abbrev pub set_reproducible : Settings → Bool → Settings
set_reproducible s x = record s { opts = record s.opts { reproducible = x } }

abbrev pub set_hosts : Settings → List Text → Settings
set_hosts s x = record s { hosts = x }

abbrev pub updated : {A : Type 0} → (A → Settings) → Result A → Result Settings
updated f (ok x) = ok (f x)
updated f (err e) = err e

-- One option: its key and the data of its value.
unfoldable pub apply_option : Settings → Text → List Datum → Result Settings
apply_option s key val =
    if text_eq key (codes "db")
    then updated (set_db s) (take_string key val)
    else if text_eq key (codes "user")
    then updated (set_user s) (take_string key val)
    else if text_eq key (codes "password")
    then updated (set_password s) (take_string key val)
    else if text_eq key (codes "reproducible")
    then updated (set_reproducible s) (take_bool key val)
    else if text_eq key (codes "servers")
    then updated (set_hosts s) (take_hosts s.hosts key val)
    else ok s

unfoldable pub apply_options : Settings → TermPairs → Result Settings
apply_options s no_pairs = ok s
apply_options s (a_pair key val more) =
    apply_option s key (find_datum val) >>= λ s'. apply_options s' more

abbrev pub or_localhost : List Text → List Text
or_localhost [] = codes "localhost" ∷ []
or_localhost (h ∷ hs) = h ∷ hs

abbrev pub no_settings : Settings
no_settings = record { hosts = []; opts = default_opts }

abbrev pub stored : ℕ → World → Result Config → Result (Unit {0}) × World
stored conn w (ok cfg) = (ok tt, record w { configs = assign conn cfg w.configs })
stored conn w (err e) = (err e, w)

abbrev resolved : List Address ⊎ Text → Result (List Address)
resolved (inl addresses) = ok addresses
resolved (inr e) = err (from_io e)

-- `to_socket_addrs` is the parameter `resolve`; a host that it does not know is tried with the
-- default port behind it.
module _ (resolve : Text → List Address ⊎ Text) where
  abbrev resolved_or : Text → List Address ⊎ Text → Result (List Address)
  resolved_or host (inl addresses) = ok addresses
  resolved_or host (inr e) = resolved (resolve (host ++ (codes ":" ++ show 28015)))

  unfoldable pub find_servers : OrderMap Server → List Text → Result (OrderMap Server)
  find_servers cluster [] = ok cluster
  find_servers cluster (host ∷ hosts) = resolved_or host (resolve host) >>= λ addresses.
      find_servers (insert host (new_server host addresses) cluster) hosts

  unfoldable pub read_config : Term → Result Config
  read_config t = do
    s ← apply_options no_settings (optargs_of t)
    cluster ← find_servers [] (or_localhost s.hosts)
    ok (record { cluster = cluster; opts = s.opts })

  unfoldable pub set_config : ℕ → Term → World → Result (Unit {0}) × World
  set_config conn t w = stored conn w (read_config t)
