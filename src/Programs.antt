-- ===== src/Programs.antt =====
-- The programs of examples/: what they share, and what they take from other code.
pub mod Futures
pub mod ServerTable
pub mod Sums
pub mod Printed
pub mod Lines
pub mod Arguments
pub mod Answered
pub mod Alike
use reql.Base.{ℕ, Text, codes, Option, none, some, List, [], ◌∷◌, ◌++◌, ◌⊎◌, inl, inr}
use reql.Errors.{Error, Result, ok, err}
use reql.Proto.{Formats}
use reql.Types.Value.{Value}
use reql.Commands.Arg.{Arg}
use reql.Commands.Client.{Client}
use reql.Io.Response.{Document}
use reql.Io.Cluster.{World}
use reql.Io.Calls.{Outside, Started, connect, run, Response}
use reql.Programs.Futures.{Streams, Line}

-- How a program ends: in the panic of an `unwrap`, or with its lines printed.
pub data Ran : Type 0 where
  panicked : Ran
  printed : List Text → Ran

-- The `{:?}` texts of what is printed, and the text of a JSON value.
pub record Shows (T : Type 0) : Type 0 where
  pub item : T → Text
  pub value : Value → Text
  pub result : Option (Document T) → Text
  pub error : Error → Text
  pub json : Value → Text

-- What a program meets: the handle of `Core::new()` unless that fails, what `connect` takes from
-- other code, the identifier of the connection, what the driver's maps hold, what the thread of a
-- request puts on its channel, the streams of the crate futures, and the text that a macro has of
-- its input.
pub record Setting (T : Type 0) : Type 1 where
  pub core : Option ℕ
  pub outside : Outside
  pub conn : ℕ
  pub world : World
  pub answers : Started → Response T
  pub streams : Streams T
  pub shows : Shows T
  pub stringify : Text → Text
  pub formats : Formats
  pub as_f64 : ℕ → Option ℕ

-- `unwrap()`
abbrev pub unwrapped {ℓ} : {A : Type ℓ} → Result A → (A → Ran) → Ran
unwrapped (ok a) k = k a
unwrapped (err e) k = panicked

module _ {T : Type 0} (m : Setting T) where
  -- `let core = Core::new().unwrap();`
  abbrev pub with_core : Option ℕ → (ℕ → Ran) → Ran
  with_core none k = panicked
  with_core (some remote) k = k remote

  abbrev pub with_conn : Result ℕ × World → (ℕ → World → Ran) → Ran
  with_conn (c, w) k = unwrapped c (λ conn. k conn w)

  -- `let conn = r.connect(arg).unwrap();`
  abbrev pub connecting : Client → Arg → (ℕ → World → Ran) → Ran
  connecting r arg k = with_conn (connect m.outside m.conn m.world r arg) k

  -- `query.run::<T>(conn).unwrap()`, whose stream `k` reads.
  abbrev pub run_query :
      World → Client → Arg → (m.streams.Stream (Option (Document T)) Error → Ran) → Ran
  run_query w query arg k =
      unwrapped (run w query arg) (λ started. k (m.streams.of_response (m.answers started)))

-- `for res in stream.wait() { … }`: the lines that are printed while a result is waited for, and
-- those that the body prints of it.
unfoldable pub each_result : {A E : Type 0} → (A ⊎ E → List Text) → List (Line A E) → List Text
each_result body [] = []
each_result body ((said, res) ∷ rest) = said ++ (body res ++ each_result body rest)
