-- ===== src/Io/Response/Classify.antt =====
-- Which responses are errors, and which error each one is.
use reql.Base.{Text, false, Option, none, some, ◌≡◌, ◌↔◌, arith}
use reql.Errors.{
  Error, ok, err, compile, runtime, driver, query_logic, non_existence, resource_limit, user,
  internal, permission, availability, op_failed, op_indeterminate, other, response, db,
}
use reql.Types.Value.{array, string, a_value, no_values}
use reql.Io.Response.{ReqlResponse, ResponseType, Decoder, is_generic_error, classify}

module _ {T : Type 0} (d : Decoder T) where
  -- A response succeeds exactly when its type is known and no error type and it has no error
  -- number; it succeeds with its type.
  pub classify-ok :
      (resp : ReqlResponse) (t : ResponseType)
      → (classify d resp ≡ ok t)
        ↔ ((d.response_type resp.t ≡ some t) × (resp.e ≡ none) × (is_generic_error t ≡ false))
  unfolding classify
  classify-ok resp t = (λ h. ground arith, λ h. ground arith)

-- The text of the server that an error hands on.
abbrev pub message_in : Error → Option Text
message_in (compile m) = some m
message_in (runtime (query_logic m)) = some m
message_in (runtime (non_existence m)) = some m
message_in (runtime (resource_limit m)) = some m
message_in (runtime (user m)) = some m
message_in (runtime (internal m)) = some m
message_in (runtime (permission m)) = some m
message_in (runtime (availability (op_failed m))) = some m
message_in (runtime (availability (op_indeterminate m))) = some m
message_in (driver (other m)) = some m
message_in (driver (response (db (array (a_value (string m) no_values))))) = some m
message_in _ = none

module _ {T : Type 0} (d : Decoder T) where
  -- Where an error response of a known type holds one string, the error hands that string on,
  -- whatever its type and number.
  pub classify-carries :
      (resp : ReqlResponse) (t : ResponseType) (msg : Text) (e : Error)
      → d.response_type resp.t ≡ some t
      → resp.r ≡ array (a_value (string msg) no_values)
      → classify d resp ≡ err e
      → message_in e ≡ some msg
  unfolding classify
  classify-carries resp t msg e known one h = ground arith
