-- ===== src/Io/Submit.antt =====
-- `Request::conn`, `Request::submit` and `Request::process` of src/commands/io/request.rs: a query
-- is written, its responses are read until the last one, and failures are tried again.
-- The sessions that the pool hands out are given, in order: a session, or the message of the
-- pool's error. A session given back is not modelled. Logging is left out.
pub mod Endless
pub mod Written
pub mod Process
pub mod Attempts
pub mod Silence
pub mod Answer
use reql.Base.{
  ℕ, zero, suc, ◌+◌, ◌-◌, ◌%◌, ◌^◌, Text, codes, starts_with, ltb, ◌==◌, Bool, true, false, not,
  ◌&&◌, ◌||◌, Option, none, some, List, [], ◌∷◌, ◌++◌, length, ◌⊎◌, inl, inr, if◌then◌else◌,
}
use reql.Base
use reql.Errors.{Error, Result, ok, err, from_driver, from_get_timeout, other}
use reql.Proto.{Formats, Term}
use reql.Types.Encode.{encode}
use reql.Io.Frame.{Session, QueryType, write_query, wrap_query}
use reql.Io.Response.{ResponseType, Decoder, Item, Running, handle}

-- What the request loop takes from other crates, and `error.description()`.
pub record Env (T : Type 0) : Type 0 where
  pub decoder : Decoder T
  pub formats : Formats
  pub query_value : QueryType → ℕ
  pub description : Error → Text

-- The parts of a request that do not change.
pub record Request : Type 0 where
  pub term : Term
  pub opts : Term
  pub retries : ℕ
  pub reproducible : Bool

module _ {T : Type 0} (v : Env T) where
  abbrev pub not_primary : Text
  not_primary = codes "Cannot perform write: primary replica for shard"

  abbrev pub Processed : Type 0
  Processed = Option (Result (Unit {0}) × Running T)

  -- A later part of the answer is asked for by CONTINUE.
  abbrev pub asked : (Running T → Processed) → Running T → Result (Unit {0}) × Session → Processed
  asked again s (ok _, c) = again (record s { conn = c })
  asked again s (err e, c) = some (err e, record s { conn = c; write = true; retry = true })

  abbrev pub flagged : Running T → Bool → Running T
  flagged s true = record s { write = true; retry = true }
  flagged s false = s

  abbrev pub after_handle :
      (Running T → Processed) → Result (Option ResponseType) × Running T → Processed
  after_handle again (ok (some ResponseType.success_partial), s) =
      asked again s (write_query (wrap_query v.query_value QueryType.continue_ none none) s.conn)
  after_handle again (ok (some t), s) = some (ok tt, s)
  after_handle again (ok none, s) =
      some (err (from_driver (other (codes "Response::handle() unexpectedly returned None"))), s)
  after_handle again (err e, s) =
      some (err e, flagged s (starts_with not_primary (v.description e)))

  -- `none`: the fuel ran out.
  unfoldable pub process : ℕ → Running T → Processed
  process zero s = none
  process (suc n) s =
      after_handle (process n) (handle v.decoder (record s { retry = false; write = false }))

-- Where the loop stands: the request on its way, what the pool has left, the number of the attempt
-- and whether it opens a new connection.
pub record Loop (T : Type 0) : Type 0 where
  pub running : Running T
  pub pool : List (Session ⊎ Text)
  pub i : ℕ
  pub connect : Bool

-- How one round of the loop ends. `panicked` is a panic of `encode`, `stuck` no outcome of the
-- code: the fuel of `process` ran out.
pub data Round (T : Type 0) : Type 0 where
  left again : Loop T → Round T
  panicked stuck : Round T

abbrev pub next_id : Session → Session
next_id c = record c { id = (c.id + 1) % 2 ^ 64 }

-- `Request::conn`: the next session of the pool under a new token. An empty list is a timeout.
abbrev pub get_conn : List (Session ⊎ Text) → Result Session × List (Session ⊎ Text)
get_conn [] = (err (from_get_timeout (codes "timed out waiting for connection")), [])
get_conn (inl c ∷ pool) = (ok (next_id c), pool)
get_conn (inr e ∷ pool) = (err (from_get_timeout e), pool)

module _ {T : Type 0} (v : Env T) (q : Request) where
  -- `i == retries - 1` in 64 bits.
  abbrev pub is_last : ℕ → Bool
  is_last i = i == ((q.retries + (2 ^ 64 - 1)) % 2 ^ 64)

  abbrev pub send_error : Error → Loop T → Loop T
  send_error e s = record s { running = record s.running { sent = s.running.sent ++ err e ∷ [] } }

  -- `i += 1` in 64 bits; with overflow checks, which are not modelled, the wrap is a panic.
  abbrev pub next : Loop T → Loop T
  next s = record s { i = (s.i + 1) % 2 ^ 64 }

  -- A failed attempt: the error is sent if it is final, and then the loop is left unless the
  -- query is reproducible.
  abbrev pub failed : Bool → Error → Loop T → Round T
  failed false e s = again (next s)
  failed true e s = if q.reproducible then again (next (send_error e s)) else left (send_error e s)

  abbrev pub some_text : Text → Option Text
  some_text [] = none
  some_text (c ∷ s) = some (c ∷ s)

  -- The query's text.
  unfoldable pub query_text : Option Text
  query_text = Base.◌>>=◌ (encode v.formats q.term) λ commands.
      Base.◌>>=◌ (encode v.formats q.opts)
        λ opts. some (wrap_query v.query_value QueryType.start (some commands) (some_text opts))

  abbrev pub after_process : Loop T → Option (Result (Unit {0}) × Running T) → Round T
  after_process s none = stuck
  after_process s (some (ok _, r)) = left (record s { running = r })
  after_process s (some (err e, r)) =
      failed (is_last s.i || not r.retry) e (record s { running = r })

  -- Every response takes a byte of the input at least.
  abbrev pub respond : Loop T → Round T
  respond s = after_process s (process v (length s.running.conn.stream.input + 1) s.running)

  abbrev pub after_write : Loop T → Result (Unit {0}) × Session → Round T
  after_write s (ok _, c) =
      respond (record s { running = record s.running { conn = c }; connect = q.reproducible })
  after_write s (err e, c) =
      failed (is_last s.i) e (record s { running = record s.running { conn = c }; connect = true })

  abbrev pub submit_text : Loop T → Option Text → Round T
  submit_text s none = panicked
  submit_text s (some text) =
      if s.running.write || q.reproducible
      then after_write s (write_query text s.running.conn)
      else respond s

  abbrev pub reconnected : Loop T → Result Session × List (Session ⊎ Text) → Round T
  reconnected s (ok c, pool) =
      submit_text (record s { running = record s.running { conn = c; write = true }; pool = pool })
        query_text
  reconnected s (err e, pool) = failed (is_last s.i) e (record s { pool = pool })

  unfoldable pub round : Loop T → Round T
  round s = if s.connect then reconnected s (get_conn s.pool) else submit_text s query_text

  -- How a request ends: with the loop left, with the one error that there is no session, or in a
  -- panic. `unfinished` is no outcome of the code: the fuel ran out.
  pub data Ended : Type 0 where
    finished : Loop T → Ended
    refused : Error → Ended
    crashed unfinished : Ended

  abbrev pub after_round : (Loop T → Ended) → Round T → Ended
  after_round rest (left s) = finished s
  after_round rest (again s) = rest s
  after_round rest panicked = crashed
  after_round rest stuck = unfinished

  unfoldable pub loop : ℕ → Loop T → Ended
  loop zero s = unfinished
  loop (suc n) s = elim (ltb s.i q.retries || q.reproducible) [
    | true ↦ after_round (loop n) (round s)
    | false ↦ finished s
  ]

  abbrev pub begin : ℕ → Result Session × List (Session ⊎ Text) → Ended
  begin fuel (ok c, pool) = loop fuel (record {
    running = record { conn = c; write = true; retry = false; sent = [] };
    pool = pool;
    i = 0;
    connect = false;
  })
  begin fuel (err e, pool) = refused e

  -- `Request::submit` on the sessions that the pool will give.
  unfoldable pub submit : ℕ → List (Session ⊎ Text) → Ended
  submit fuel pool = begin fuel (get_conn pool)
