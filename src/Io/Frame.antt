-- ===== src/Io/Frame.antt =====
-- `Session` of src/lib.rs, and `write_query`, `read_query` and `wrap_query` of
-- src/commands/io/mod.rs.
pub mod RoundTrip
pub mod Effects
use reql.Base.{
  ℕ, ◌+◌, ◌%◌, ◌^◌, Text, codes, show, length, Bool, true, false, Option, none, some, List, [], ◌∷◌,
  ◌++◌,
}
use reql.Errors.{Result, ok, err, Error}
use reql.Io.Bytes.{le_bytes, le_value}
use reql.Io.Stream.{Stream, write, read}

pub record Session : Type 0 where
  pub id : ℕ
  pub broken : Bool
  pub stream : Stream

-- A call that changes a session, and may fail.
abbrev pub Act {ℓ} : Type ℓ → Type ℓ
Act A = Session → Result A × Session

abbrev pub continue {ℓ κ} : {A : Type ℓ} {B : Type κ} → Result A → (A → Act B) → Act B
continue (ok a) k c = k a c
continue (err e) k c = (err e, c)

infixl 5 ◌>>=◌ ◌>>◌
abbrev pub ◌>>=◌ {ℓ κ} : {A : Type ℓ} {B : Type κ} → Act A → (A → Act B) → Act B
◌>>=◌ m k c = continue (m c).0 k (m c).1

abbrev pub ◌>>◌ {ℓ κ} : {A : Type ℓ} {B : Type κ} → Act A → Act B → Act B
m >> k = m >>= λ _. k

-- An error on the stream marks the session as broken.
abbrev pub settle {ℓ} : {A : Type ℓ} → Session → Result A × Stream → Result A × Session
settle c (ok a, s) = (ok a, record c { stream = s })
settle c (err e, s) = (err e, record c { stream = s; broken = true })

abbrev pub put : Text → Act (Unit {0})
put bytes c = settle c (write c.stream bytes)

abbrev pub get : ℕ → Act Text
get n c = settle c (read c.stream n)

-- The token, the length as a `u32`, the query, and the flush, which writes nothing.
abbrev pub send : ℕ → Text → Act (Unit {0})
send token query =
    put (le_bytes 8 token) >> put (le_bytes 4 (length query % 2 ^ 32)) >> put query >> put []

unfoldable pub write_query : Text → Act (Unit {0})
write_query query c = send c.id query c

-- The token of the response is read and dropped.
unfoldable pub read_query : Act Text
read_query = do token ← get 8; len ← get 4; get (le_value len)

pub data QueryType : Type 0 where
  start continue_ : QueryType

abbrev comma_then : Option Text → Text
comma_then none = []
comma_then (some s) = codes "," ++ s

-- `value` gives the number of a query type.
unfoldable pub wrap_query : (QueryType → ℕ) → QueryType → Option Text → Option Text → Text
wrap_query value ty query options =
    codes "[" ++ (show (value ty) ++ (comma_then query ++ (comma_then options ++ codes "]")))
