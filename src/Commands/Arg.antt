-- ===== src/Commands/Arg.antt =====
-- `Arg` of src/lib.rs and src/commands/args.rs, and the argument of each type that implements
-- `IntoArg`.
-- A connection is its uuid, a handle of the event loop an opaque number.
use reql.Base.{ℕ, Text, codes, Bool, Option, none, some, [], ◌++◌}
use reql.Errors.{Result, ok, err, ◌>>=◌}
use reql.Proto.{Term, new_term, push_arg, push_optarg}
use reql.Types.Encode.{quoted, show_bool}
use reql.Types.FromJson.{from_json}
use reql.Types.Value.{Value}

pub record Arg : Type 0 where
  pub string : Text
  pub term : Result Term
  pub pool : Option ℕ
  pub remote : Option ℕ

abbrev plain_arg : Text → Result Term → Arg
plain_arg s t = record { string = s; term = t; pool = none; remote = none }

-- `Arg::new()`
abbrev pub new_arg : Arg
new_arg = plain_arg [] (ok new_term)

abbrev pub set_string : Arg → Text → Arg
set_string a s = record a { string = s }

abbrev pub set_term : Arg → Result Term → Arg
set_term a t = record a { term = t }

-- `if let Some(x) = new { field = Some(x) }`
abbrev override {ℓ} : {A : Type ℓ} → Option A → Option A → Option A
override old none = old
override old (some x) = some x

-- The term with one more argument; the first error stays.
abbrev pub push_result : Result Term → Result Term → Result Term
push_result (ok t) (ok a) = ok (push_arg t a)
push_result (ok t) (err e) = err e
push_result (err e) a = err e

unfoldable pub add_arg : Arg → Arg → Arg
add_arg self arg = record {
  string = self.string;
  term = push_result self.term arg.term;
  pool = override self.pool arg.pool;
  remote = override self.remote arg.remote;
}

-- A pair of an option's name and its term.
abbrev push_pair : Result Term → Text → Term → Result Term
push_pair (ok t) k v = ok (push_optarg t k v)
push_pair (err e) k v = err e

unfoldable pub add_opt : Arg → Text × Term → Arg
add_opt self (k, v) = record self { term = push_pair self.term k v }

unfoldable pub create_term_pair : Text → Arg → Result (Text × Term)
create_term_pair key val = do t ← val.term; ok (key, push_arg new_term t)

-- `into_arg()` of an argument, which is itself.
abbrev pub of_arg : Arg → Arg
of_arg self = self

-- `into_arg()` of a client's query and term, a term, a text, a character, a number or boolean (by
-- its text), a JSON value, a connection and a handle.
abbrev pub of_client : Text → Result Term → Arg
of_client query t = plain_arg query t

abbrev pub of_term : Term → Arg
of_term t = plain_arg [] (ok t)

abbrev pub of_connection : ℕ → Arg
of_connection c = record { string = codes "conn"; term = ok new_term; pool = some c; remote = none }

abbrev pub of_handle : ℕ → Arg
of_handle r = record { string = codes "&handle"; term = ok new_term; pool = none; remote = some r }

abbrev pub of_remote : ℕ → Arg
of_remote r = record { string = codes "remote"; term = ok new_term; pool = none; remote = some r }

module _ (as_f64 : ℕ → Option ℕ) where
  abbrev pub of_string : Text → Arg
  of_string s = plain_arg (quoted s) (from_json as_f64 (Value.string s))

  -- Of a borrowed string, and of a string slice.
  abbrev pub of_string_ref : Text → Arg
  of_string_ref s = plain_arg (quoted s) (from_json as_f64 (Value.string s))

  abbrev pub of_str : Text → Arg
  of_str s = plain_arg (quoted s) (from_json as_f64 (Value.string s))

  abbrev pub of_char : Text → Arg
  of_char c = plain_arg (codes "'" ++ (c ++ codes "'")) (from_json as_f64 (Value.string c))

  -- `to_value` of serde_json for a float: one that is not a number or not finite (`none`) is null.
  abbrev pub float_value : Option ℕ → Value
  float_value none = Value.null
  float_value (some n) = Value.number n

  -- Of a number: its text, and its JSON number.
  abbrev pub of_f32 : Text → Option ℕ → Arg
  of_f32 s x = plain_arg s (from_json as_f64 (float_value x))

  abbrev pub of_i32 : Text → ℕ → Arg
  of_i32 s n = plain_arg s (from_json as_f64 (Value.number n))

  abbrev pub of_u32 : Text → ℕ → Arg
  of_u32 s n = plain_arg s (from_json as_f64 (Value.number n))

  abbrev pub of_f64 : Text → Option ℕ → Arg
  of_f64 s x = plain_arg s (from_json as_f64 (float_value x))

  abbrev pub of_i64 : Text → ℕ → Arg
  of_i64 s n = plain_arg s (from_json as_f64 (Value.number n))

  abbrev pub of_u64 : Text → ℕ → Arg
  of_u64 s n = plain_arg s (from_json as_f64 (Value.number n))

  abbrev pub of_bool : Bool → Arg
  of_bool b = plain_arg (show_bool b) (from_json as_f64 (Value.bool b))

  abbrev pub of_value : Text → Value → Arg
  of_value s v = plain_arg s (from_json as_f64 v)
