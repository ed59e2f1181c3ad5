-- ===== src/Io/Cluster/Dial/Fresh.antt =====
-- What a session that `Session::new` of src/commands/io/pool.rs returns has behind it.
use reql.Base.{
  ℕ, zero, suc, Text, false, Option, none, some, List, [], ◌∷◌, ◌≡◌, refl, ap, sym, ◌∙◌,
}
use reql.Errors.{Result, ok, err}
use reql.Io.Frame.{Session}
use reql.Io.Handshake.{Crates, handshake}
use reql.Io.Handshake.Effects.{handshake-OnlyStream}
use reql.Io.Cluster.{Address, Opts, Config, Reply, Network, World}
use reql.Io.Cluster.Dial.{
  Search, ended, panicked, out_of_fuel, new, try_addresses, search_in, dialled, after_search,
  after_refusal, opened, shaken, credentials, new_session,
}

module _ {S : Type 0} (crates : Crates S) (net : Network) where
  -- A session from the network: the stream of an answer, on which the handshake has ended well.
  pub record IsFresh (c : Session) : Type 0 where
    pub opts : Opts
    pub clock : ℕ
    pub address : Address
    pub reply : Reply
    pub answered : net clock address ≡ some reply
    pub shook : handshake crates (credentials opts) (new_session reply.stream) ≡ (ok tt, c)
    pub token : c.id ≡ 0
    pub whole : c.broken ≡ false

  -- If the search ends with a session, it is fresh.
  abbrev pub Found : Search → Type 0
  Found (ended (ok c) w) = IsFresh c
  Found (ended (err e) w) = Unit
  Found panicked = Unit
  Found out_of_fuel = Unit

  Found-shaken :
      (opts : Opts) (clock : ℕ) (a : Address) (reply : Reply) (w : World) (r : Result (Unit {0}))
      (c : Session)
      → net clock a ≡ some reply
      → handshake crates (credentials opts) (new_session reply.stream) ≡ (r, c)
      → Found (ended (shaken (r, c)) w)
  Found-shaken opts clock a reply w (ok u) c e h = record {
    opts = opts;
    clock = clock;
    address = a;
    reply = reply;
    answered = e;
    shook = h;
    token =
        ap (λ (x : Result (Unit {0}) × Session). x.1.id) (sym h)
        ∙ ((handshake-OnlyStream crates (credentials opts)).at (new_session reply.stream)).0;
    whole =
        ap (λ (x : Result (Unit {0}) × Session). x.1.broken) (sym h)
        ∙ ((handshake-OnlyStream crates (credentials opts)).at (new_session reply.stream)).1;
  }
  Found-shaken opts clock a reply w (err m) c e h = tt

  Found-opened :
      (opts : Opts) (clock : ℕ) (a : Address) (reply : Reply) (local : Option Text) (w : World)
      → net clock a ≡ some reply
      → Found (ended (opened crates opts reply.stream local) w)
  Found-opened opts clock a reply none w e = Found-shaken opts clock a reply w _ _ e refl
  Found-opened opts clock a reply (some m) w e = tt

  Found-after_search :
      (next : World → Search) (s : Search)
      → Found s
      → ((w : World) → Found (next w))
      → Found (after_search next s)
  Found-after_search next (ended (ok c) w) h hs = h
  Found-after_search next (ended (err e) w) h hs = hs w
  Found-after_search next panicked h hs = tt
  Found-after_search next out_of_fuel h hs = tt

  Found-after_refusal :
      (again next : World → Search) (r : Result (Unit {0})) (w : World)
      → ((w : World) → Found (again w))
      → ((w : World) → Found (next w))
      → Found (after_refusal again next (r, w))
  Found-after_refusal again next (ok u) w h hs = Found-after_search next (again w) (h w) hs
  Found-after_refusal again next (err e) w h hs = tt

  Found-dialled :
      (again next : World → Search) (conn : ℕ) (opts : Opts) (w : World) (a : Address)
      (r : Option Reply)
      → net w.clock a ≡ r
      → ((w : World) → Found (again w))
      → ((w : World) → Found (next w))
      → Found (dialled crates net again next conn opts w r)
  Found-dialled again next conn opts w a none e h hs = Found-after_refusal again next _ _ h hs
  Found-dialled again next conn opts w a (some reply) e h hs =
      Found-opened opts w.clock a reply reply.local_addr _ e

  Found-try_addresses :
      (again : World → Search) (conn : ℕ) (opts : Opts) (addresses : List Address)
      → ((w : World) → Found (again w))
      → (w : World) → Found (try_addresses crates net again conn opts addresses w)
  unfolding try_addresses
  Found-try_addresses again conn opts [] h w = tt
  Found-try_addresses again conn opts (a ∷ more) h w =
      Found-dialled again _ conn opts w a (net w.clock a) refl h
        (Found-try_addresses again conn opts more h)

  Found-search_in :
      (again : World → Search) (conn : ℕ) (w : World) (cfg : Option Config)
      → ((w : World) → Found (again w))
      → Found (search_in crates net again conn w cfg)
  Found-search_in again conn w none h = tt
  Found-search_in again conn w (some cfg) h = Found-try_addresses again conn cfg.opts _ h w

  -- Whatever the fuel, a session that is found is fresh: the network gave its stream, the handshake
  -- ended well, its token is 0 and it is not marked as broken.
  pub new-Found : (fuel conn : ℕ) (w : World) → Found (new crates net fuel conn w)
  unfolding new
  new-Found zero conn w = tt
  new-Found (suc fuel) conn w =
      Found-search_in (new crates net fuel conn) conn w (w.configs conn) (new-Found fuel conn)
