-- ===== src/Io/Response.antt =====
-- `Request::handle` of src/commands/io/request.rs: one response of the server, turned into the
-- documents or the error that the caller gets.
-- A 32-bit number of a response is its bit pattern. What `send` puts on the channel is appended to
-- `sent`; that the receiver may be gone is ignored, as the code ignores it.
pub mod Classify
use reql.Base.{
  ◌⊎◌, inl, inr, ℕ, ◌-◌, ◌^◌, Text, codes, show, ltb, Bool, true, false, ◌||◌, Option, none, some,
  List, [], ◌∷◌, ◌++◌, map, if◌then◌else◌,
}
use reql.Errors.{
  Error, Result, ok, err, ◌>>=◌, compile, from_driver, from_runtime, from_response,
  from_availability, from_json_error, other, internal, resource_limit, query_logic, non_existence,
  user, permission, op_failed, op_indeterminate, db,
}
use reql.Types.Value.{Value, Values, string, array, null, no_values, a_value}
use reql.Io.Frame.{Session, read_query}

pub data ResponseType : Type 0 where
  success_atom success_partial success_other client_error compile_error runtime_error : ResponseType

pub data ErrorType : Type 0 where
  internal_error resource_limit_error query_logic_error non_existence_error : ErrorType
  op_failed_error op_indeterminate_error user_error permission_error : ErrorType

-- `ReqlResponse` of src/lib.rs, less the fields `b`, `p` and `n`, which are never read.
pub record ReqlResponse : Type 0 where
  pub t : ℕ
  pub e : Option ℕ
  pub r : Value

-- `Document` of src/lib.rs, and what goes over the channel.
pub data Document (T : Type 0) : Type 0 where
  expected : T → Document T
  unexpected : Value → Document T

abbrev pub Item : Type 0 → Type 0
Item T = Result (Option (Document T))

-- What the driver takes from ql2 and serde_json: the types by their numbers, a response from its
-- bytes, and a value as a `T`, as a `Vec<T>` and as a `Vec<Value>`.
pub record Decoder (T : Type 0) : Type 0 where
  pub response_type : ℕ → Option ResponseType
  pub error_type : ℕ → Option ErrorType
  pub parse_response : Text → ReqlResponse ⊎ Text
  pub as_item : Value → Option T
  pub as_items : Value → Option (List T)
  pub as_values : Value → Option (List Value)

-- `format!("{}", t)` of an `i32`.
abbrev pub show_i32 : ℕ → Text
show_i32 t = if ltb t (2 ^ 31) then show t else codes "-" ++ show (2 ^ 32 - t)

abbrev pub is_generic_error : ResponseType → Bool
is_generic_error ResponseType.client_error = true
is_generic_error ResponseType.compile_error = true
is_generic_error ResponseType.runtime_error = true
is_generic_error _ = false

-- The message of an error response: its only element, a string.
abbrev pub error_message : Value → Result Text
error_message (array (a_value (string s) no_values)) = ok s
error_message r = err (from_response (db r))

-- The error for the number of an error type.
abbrev pub typed_error : ErrorType → Text → Error
typed_error internal_error msg = from_runtime (internal msg)
typed_error resource_limit_error msg = from_runtime (resource_limit msg)
typed_error query_logic_error msg = from_runtime (query_logic msg)
typed_error non_existence_error msg = from_runtime (non_existence msg)
typed_error op_failed_error msg = from_availability (op_failed msg)
typed_error op_indeterminate_error msg = from_availability (op_indeterminate msg)
typed_error user_error msg = from_runtime (user msg)
typed_error permission_error msg = from_runtime (permission msg)

abbrev pub generic_error : ResponseType → Text → Value → Option Error
generic_error ResponseType.client_error msg r = some (from_driver (other msg))
generic_error ResponseType.compile_error msg r = some (compile msg)
generic_error ResponseType.runtime_error msg r = some (from_response (db r))
generic_error _ msg r = none

-- The documents of a value that is no `T` and no list of them: a null is sent as `None`.
abbrev pub raw_item : {T : Type 0} → Value → Item T
raw_item null = ok none
raw_item v = ok (some (unexpected v))

abbrev unsupported : ℕ → Text
unsupported t =
    codes "Unsupported response type (" ++ (show_i32 t ++ codes "), returned by the database.")

module _ {T : Type 0} (d : Decoder T) where
  -- The message is read only where the response is an error.
  abbrev message_if : Bool → Value → Result Text
  message_if true r = error_message r
  message_if false r = ok []

  abbrev numbered_error : Value → Text → Option ErrorType → Error
  numbered_error r msg none = from_response (db r)
  numbered_error r msg (some e) = typed_error e msg

  abbrev is_some : Option ℕ → Bool
  is_some none = false
  is_some (some e) = true

  abbrev raise_generic : Option Error → ResponseType → Result ResponseType
  raise_generic none t = ok t
  raise_generic (some e) t = err e

  abbrev raise_error : ReqlResponse → ResponseType → Option ℕ → Text → Result ResponseType
  raise_error resp t (some e) msg = err (numbered_error resp.r msg (d.error_type e))
  raise_error resp t none msg = raise_generic (generic_error t msg resp.r) t

  abbrev check_type : ReqlResponse → Option ResponseType → Result ResponseType
  check_type resp none = err (from_driver (other (unsupported resp.t)))
  check_type resp (some t) = do
    msg ← message_if (is_some resp.e || is_generic_error t) resp.r
    raise_error resp t resp.e msg

  -- The type of a response that is no error, or its error.
  unfoldable pub classify : ReqlResponse → Result ResponseType
  classify resp = check_type resp (d.response_type resp.t)

  abbrev pub deliver_values : Value → Option (List Value) → List (Item T)
  deliver_values r none = raw_item r ∷ []
  deliver_values r (some vs) = map raw_item vs

  abbrev pub deliver_items : Value → Option (List T) → List (Item T)
  deliver_items r none = deliver_values r (d.as_values r)
  deliver_items r (some xs) = map (λ x. ok (some (expected x))) xs

  abbrev pub deliver_item : Value → Option T → List (Item T)
  deliver_item r none = deliver_items r (d.as_items r)
  deliver_item r (some x) = ok (some (expected x)) ∷ []

  -- What a successful response sends to the caller.
  unfoldable pub deliver : Value → List (Item T)
  deliver r = deliver_item r (d.as_item r)

  abbrev pub parsed : ReqlResponse ⊎ Text → Result ReqlResponse
  parsed (inl r) = ok r
  parsed (inr e) = err (from_json_error e)

  -- The response in the bytes of a message, with its type.
  unfoldable pub decode : Text → Result (ReqlResponse × ResponseType)
  decode bytes = do resp ← parsed (d.parse_response bytes); t ← classify resp; ok (resp, t)

-- A request on its way: the session it has, its flags, and what it has sent to the caller.
pub record Running (T : Type 0) : Type 0 where
  pub conn : Session
  pub write : Bool
  pub retry : Bool
  pub sent : List (Item T)

module _ {T : Type 0} (d : Decoder T) where
  abbrev pub handle_decoded :
      Running T → Result (ReqlResponse × ResponseType) → Result (Option ResponseType) × Running T
  handle_decoded s (err e) = (err e, s)
  handle_decoded s (ok (resp, t)) = (ok (some t), record s { sent = s.sent ++ deliver d resp.r })

  -- A response that cannot be read may be tried again; another error may not.
  abbrev pub handle_read :
      Running T → Result Text × Session → Result (Option ResponseType) × Running T
  handle_read s (err e, c) = (err e, record s { conn = c; retry = true })
  handle_read s (ok bytes, c) =
      handle_decoded (record s { conn = c; retry = false }) (decode d bytes)

  unfoldable pub handle : Running T → Result (Option ResponseType) × Running T
  unfolding read_query
  handle s = handle_read s (read_query s.conn)
