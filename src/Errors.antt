-- ===== src/Errors.antt =====
-- src/errors.rs: the driver's errors, their conversions, and results.
-- An error of another crate is carried by its message.
use reql.Base.{Text}
use reql.Types.Value.{Value}

pub data AvailabilityError : Type 0 where
  op_failed op_indeterminate : Text → AvailabilityError

pub data RuntimeError : Type 0 where
  query_logic non_existence resource_limit user internal timeout permission : Text → RuntimeError
  availability : AvailabilityError → RuntimeError

pub data ResponseError : Type 0 where
  parse : Text → ResponseError
  db : Value → ResponseError

pub data DriverError : Type 0 where
  auth scram io get_timeout json protobuf other : Text → DriverError
  response : ResponseError → DriverError

pub data Error : Type 0 where
  compile : Text → Error
  runtime : RuntimeError → Error
  driver : DriverError → Error

-- The `From` conversions that `?` applies.
abbrev pub from_driver : DriverError → Error
from_driver e = driver e

abbrev pub from_runtime : RuntimeError → Error
from_runtime e = runtime e

abbrev pub from_response : ResponseError → Error
from_response e = from_driver (response e)

abbrev pub from_availability : AvailabilityError → Error
from_availability e = from_runtime (availability e)

abbrev pub from_io : Text → Error
from_io e = from_driver (io e)

abbrev pub from_utf8 : Text → Error
from_utf8 e = from_response (parse e)

abbrev pub from_json_error : Text → Error
from_json_error e = from_driver (json e)

abbrev pub from_protobuf : Text → Error
from_protobuf e = from_driver (protobuf e)

abbrev pub from_get_timeout : Text → Error
from_get_timeout e = from_driver (get_timeout e)

abbrev pub from_scram : Text → Error
from_scram e = from_driver (scram e)

abbrev pub from_send_error : Text → Error
from_send_error e = from_driver (other e)

-- `Result<A>` of src/lib.rs, chained by `?`.
pub data Result {ℓ} (A : Type ℓ) : Type ℓ where
  ok : A → Result A
  err : Error → Result A

infixl 5 ◌>>=◌
abbrev pub ◌>>=◌ {ℓ κ} : {A : Type ℓ} {B : Type κ} → Result A → (A → Result B) → Result B
ok a >>= f = f a
err e >>= f = err e
