-- ===== src/Io/Handshake.antt =====
-- src/commands/io/handshake.rs: the messages that open a session, and the check of an idle one.
-- The handshake reads and writes the stream itself, so an error does not mark the session as broken.
-- A read that the stream's end cuts short is no error here, as for `BufRead::read_until`.
pub mod Transcript
pub mod Checks
pub mod Final
pub mod Effects
use reql.Base.{
  ℕ, ◌+◌, ◌%◌, ◌^◌, Text, codes, starts_with, ltb, ◌==◌, Bool, true, false, not, ◌&&◌, Option, none,
  some, List, [], ◌∷◌, ◌++◌, ◌⊎◌, inl, inr, leb, if◌then◌else◌,
}
use reql.Errors.{
  Error, Result, ok, err, from_driver, from_io, from_utf8, from_json_error, from_scram, auth,
}
use reql.Types.Value.{Value}
use reql.Io.Bytes.{le_bytes}
use reql.Io.Stream.{Stream, write}
use reql.Io.Frame.{Session, Act, ◌>>=◌, ◌>>◌, QueryType, write_query, read_query, wrap_query}
use reql.Io.Response.{ResponseType, ReqlResponse}

-- `Opts` of src/lib.rs, less `retries` and `tls`, which the handshake does not read.
pub record Credentials : Type 0 where
  pub user : Text
  pub password : Text

pub record ServerInfo : Type 0 where
  pub success : Bool
  pub min_protocol_version : ℕ
  pub max_protocol_version : ℕ
  pub server_version : Text

pub record AuthRequest : Type 0 where
  pub protocol_version : ℕ
  pub authentication_method : Text
  pub authentication : Text

pub record AuthResponse : Type 0 where
  pub success : Bool
  pub authentication : Option Text
  pub error_code : Option ℕ
  pub error : Option Text

-- What the handshake takes from other crates. `S` is the state of the crate scram, whose steps
-- fail with a message. `left` is what the buffered reader has not read ahead when it is dropped.
pub record Crates (S : Type 0) : Type 0 where
  pub version : ℕ
  pub left : Text → Text
  pub from_utf8_bytes : Text → Text ⊎ Text
  pub server_info : Text → ServerInfo ⊎ Text
  pub auth_response : Text → AuthResponse ⊎ Text
  pub request_bytes : AuthRequest → Text ⊎ Text
  pub confirmation_bytes : Text → Text ⊎ Text
  pub scram_new : Text → Text → S ⊎ Text
  pub client_first : S → S × Text
  pub handle_server_first : S → Text → S ⊎ Text
  pub client_final : S → S × Text
  pub handle_server_final : S → Text → Option Text

-- `?` on a result of another crate.
abbrev pub raise : {A : Type 0} → (Text → Error) → A ⊎ Text → Act A
raise from (inl a) c = (ok a, c)
raise from (inr e) c = (err (from e), c)

abbrev pub fail : {A : Type 0} → Error → Act A
fail e c = (err e, c)

abbrev pub done : {A : Type 0} → A → Act A
done a c = (ok a, c)

abbrev unmarked : {A : Type 0} → Session → Result A × Stream → Result A × Session
unmarked c (r, s) = (r, record c { stream = s })

-- `self.stream.write_all(bytes)?`.
abbrev pub emit : Text → Act (Unit {0})
emit bytes c = unmarked c (write c.stream bytes)

-- `read_until(b'\0')`: the bytes up to the first NUL, it included, and those behind it.
unfoldable pub read_until_nul : Text → Text × Text
read_until_nul [] = ([], [])
read_until_nul (b ∷ bs) =
    let more = read_until_nul bs in if b == 0 then (b ∷ [], bs) else (b ∷ more.0, more.1)

-- `resp.pop()`.
unfoldable pub drop_last : Text → Text
drop_last [] = []
drop_last (b ∷ []) = []
drop_last (b ∷ c ∷ bs) = b ∷ drop_last (c ∷ bs)

abbrev pub object_or_error : Text → Act Text
object_or_error resp = if starts_with (codes "{") resp then done resp else fail (from_io resp)

abbrev pub check_version : Text → ServerInfo → Act (Unit {0})
check_version resp info = if info.success then done tt else fail (from_io resp)

abbrev pub reason : Text → Option Text → Text
reason resp none = resp
reason resp (some e) = e

-- The pattern `Some(10...20)`.
abbrev pub is_auth_code : Option ℕ → Bool
is_auth_code none = false
is_auth_code (some code) = leb 10 code && leb code 20

unfoldable pub refusal : Text → AuthResponse → Error
refusal resp info =
    if is_auth_code info.error_code
    then from_driver (auth (reason resp info.error))
    else from_io (reason resp info.error)

-- Goes on where the server reports success.
abbrev pub if_accepted : Text → AuthResponse → Act (Unit {0}) → Act (Unit {0})
if_accepted resp info k = if info.success then k else fail (refusal resp info)

abbrev pub signature_outcome : Option Text → Act (Unit {0})
signature_outcome none = done tt
signature_outcome (some e) = fail (from_io e)

abbrev pub auth_request : Text → AuthRequest
auth_request client_first = record {
  protocol_version = 0;
  authentication_method = codes "SCRAM-SHA-256";
  authentication = client_first;
}

module _ {S : Type 0} (w : Crates S) where
  abbrev pub take_message : Act Text
  take_message c =
      let got = read_until_nul c.stream.input in
      (ok (drop_last got.0), record c { stream = record c.stream { input = w.left got.1 } })

  abbrev pub known_reason : Text → Act Text
  known_reason [] = fail (from_io (codes "unable to connect for an unknown reason"))
  known_reason (b ∷ bs) = raise from_utf8 (w.from_utf8_bytes (b ∷ bs)) >>= object_or_error

  unfoldable pub parse_server_response : Act Text
  parse_server_response = take_message >>= known_reason

  unfoldable pub parse_server_version : Act (Unit {0})
  parse_server_version = do
    resp ← parse_server_response
    info ← raise from_json_error (w.server_info resp)
    check_version resp info

  abbrev pub check_signature : S → Option Text → Act (Unit {0})
  check_signature scram none = done tt
  check_signature scram (some signature) = signature_outcome (w.handle_server_final scram signature)

  unfoldable pub parse_server_final : S → Act (Unit {0})
  parse_server_final scram = do
    resp ← parse_server_response
    info ← raise from_json_error (w.auth_response resp)
    if_accepted resp info (check_signature scram info.authentication)

  abbrev pub send_final : S × Text → Act (Unit {0})
  send_final (scram, proof) = do
    msg ← raise from_json_error (w.confirmation_bytes proof)
    emit (msg ++ 0 ∷ [])
    parse_server_final scram
    emit []

  abbrev pub answer : S → Option Text → Act (Unit {0})
  answer scram none = fail (from_io (codes "Server did not send authentication info."))
  answer scram (some challenge) = do
    scram ← raise from_scram (w.handle_server_first scram challenge)
    send_final (w.client_final scram)

  abbrev pub authenticate : S × Text → Act (Unit {0})
  authenticate (scram, client_first) = do
    msg ← raise from_json_error (w.request_bytes (auth_request client_first))
    emit (msg ++ 0 ∷ [])
    resp ← parse_server_response
    info ← raise from_json_error (w.auth_response resp)
    if_accepted resp info (answer scram info.authentication)

  unfoldable pub handshake : Credentials → Act (Unit {0})
  handshake opts = do
    emit (le_bytes 4 w.version)
    parse_server_version
    scram ← raise from_scram (w.scram_new opts.user opts.password)
    authenticate (w.client_first scram)

-- What the check of an idle session takes from other crates: `[1]` is `is_one`, an error of
-- `from_value` included.
pub record Probe : Type 0 where
  pub query_value : QueryType → ℕ
  pub response_type : ℕ → Option ResponseType
  pub parse_response : Text → ReqlResponse ⊎ Text
  pub as_integers : Value → List ℕ ⊎ Text
  pub debug : ReqlResponse → Text

abbrev pub is_one : List ℕ → Bool
is_one (n ∷ []) = n == 1
is_one _ = false

module _ (p : Probe) where
  abbrev pub unexpected_response : ReqlResponse → Error
  unexpected_response resp = from_io (codes "Unexpected response from server: " ++ p.debug resp)

  abbrev pub check_atom : ReqlResponse → List ℕ ⊎ Text → Result (Unit {0})
  check_atom resp (inl ns) = if is_one ns then ok tt else err (unexpected_response resp)
  check_atom resp (inr e) = err (from_json_error e)

  abbrev pub check_response : ReqlResponse → Option ResponseType → Result (Unit {0})
  check_response resp (some ResponseType.success_atom) = check_atom resp (p.as_integers resp.r)
  check_response resp _ = err (unexpected_response resp)

  abbrev pub parsed_check : ReqlResponse ⊎ Text → Result (Unit {0})
  parsed_check (inl resp) = check_response resp (p.response_type resp.t)
  parsed_check (inr e) = err (from_json_error e)

  -- What the bytes of the answer make of the check.
  unfoldable pub verdict : Text → Result (Unit {0})
  verdict bytes = parsed_check (p.parse_response bytes)

  abbrev pub next_token : Session → Session
  next_token c = record c { id = (c.id + 1) % 2 ^ 64 }

  abbrev pub probe : Text
  probe = wrap_query p.query_value QueryType.start (some (codes "1")) none

  unfoldable pub is_valid : Act (Unit {0})
  is_valid c = (do write_query probe; bytes ← read_query; λ c. (verdict bytes, c)) (next_token c)
