-- ===== src/Io/Handshake/Effects.antt =====
-- What `Session::handshake` of src/commands/io/handshake.rs leaves alone.
use reql.Base.{
  ℕ, Text, codes, starts_with, Bool, true, false, ◌++◌, ◌∷◌, [], ◌≡◌, refl, Option, some, none, ◌⊎◌,
  inl, inr, if◌then◌else◌,
}
use reql.Errors.{Error, Result, ok, err, from_json_error, from_scram, from_utf8, from_io}
use reql.Io.Bytes.{le_bytes}
use reql.Io.Frame.{Session, Act, ◌>>=◌, ◌>>◌, continue}
use reql.Io.Handshake.{
  Crates, Credentials, AuthResponse, raise, emit, done, parse_server_response, parse_server_version,
  parse_server_final, handshake, check_signature, signature_outcome, answer, known_reason,
  send_final, take_message, object_or_error, check_version, authenticate, auth_request, if_accepted,
  fail,
}

-- A call that changes the stream only.
pub record OnlyStream {ℓ} {A : Type ℓ} (m : Act A) : Type ℓ where
  pub at : (c : Session) → ((m c).1.id ≡ c.id) × ((m c).1.broken ≡ c.broken)

continue-only {ℓ κ} :
    {A : Type ℓ} {B : Type κ} (id : ℕ) (broken : Bool) (r : Result A) (c : Session) (k : A → Act B)
    → (c.id ≡ id) × (c.broken ≡ broken)
    → ((a : A) → OnlyStream (k a))
    → ((continue r k c).1.id ≡ id) × ((continue r k c).1.broken ≡ broken)
continue-only id broken (ok a) c k h ks = rw (← h.0, ← h.1) ((ks a).at c)
continue-only id broken (err e) c k h ks = h

OnlyStream-bind {ℓ κ} :
    {A : Type ℓ} {B : Type κ} (m : Act A) (k : A → Act B)
    → OnlyStream m
    → ((a : A) → OnlyStream (k a))
    → OnlyStream (m >>= k)
OnlyStream-bind m k h ks = record {
  at = λ c. continue-only c.id c.broken (m c).0 (m c).1 k (h.at c) ks;
}

OnlyStream-emit : (bytes : Text) → OnlyStream (emit bytes)
OnlyStream-emit bytes = record { at = λ c. (refl, refl) }

OnlyStream-done : {A : Type 0} (a : A) → OnlyStream (done a)
OnlyStream-done a = record { at = λ c. (refl, refl) }

OnlyStream-fail : {A : Type 0} (e : Error) → OnlyStream (fail {A = A} e)
OnlyStream-fail e = record { at = λ c. (refl, refl) }

OnlyStream-raise : {A : Type 0} (from : Text → Error) (r : A ⊎ Text) → OnlyStream (raise from r)
OnlyStream-raise from (inl a) = record { at = λ c. (refl, refl) }
OnlyStream-raise from (inr e) = record { at = λ c. (refl, refl) }

OnlyStream-if :
    {A : Type 0} (b : Bool) (m k : Act A)
    → OnlyStream m
    → OnlyStream k
    → OnlyStream (if b then m else k)
OnlyStream-if true m k h h' = h
OnlyStream-if false m k h h' = h'

module _ {S : Type 0} (w : Crates S) where
  OnlyStream-reason : (m : Text) → OnlyStream (known_reason w m)
  OnlyStream-reason [] = OnlyStream-fail _
  OnlyStream-reason (b ∷ bs) =
      OnlyStream-bind (raise from_utf8 (w.from_utf8_bytes (b ∷ bs))) object_or_error
        (OnlyStream-raise _ _)
        (λ resp.
          OnlyStream-if (starts_with (codes "{") resp) (done resp) (fail (from_io resp))
            (OnlyStream-done resp) (OnlyStream-fail _))

  OnlyStream-response : OnlyStream (parse_server_response w)
  unfolding parse_server_response
  OnlyStream-response =
      OnlyStream-bind (take_message w) (known_reason w) (record { at = λ c. (refl, refl) })
        OnlyStream-reason

  OnlyStream-accepted :
      (resp : Text) (info : AuthResponse) (k : Act (Unit {0}))
      → OnlyStream k
      → OnlyStream (if_accepted resp info k)
  OnlyStream-accepted resp info k h = OnlyStream-if _ _ _ h (OnlyStream-fail _)

  OnlyStream-signature :
      (scram : S) (signature : Option Text) → OnlyStream (check_signature w scram signature)
  OnlyStream-signature scram none = OnlyStream-done _
  OnlyStream-signature scram (some s) = of_outcome (w.handle_server_final scram s)
    where
      of_outcome : (r : Option Text) → OnlyStream (signature_outcome r)
      of_outcome none = OnlyStream-done _
      of_outcome (some e) = OnlyStream-fail _

  -- The server's answer is read and parsed, and the rest of the handshake gets it.
  OnlyStream-asked :
      {A : Type 0} (parse : Text → A ⊎ Text) (k : Text → A → Act (Unit {0}))
      → ((resp : Text) (a : A) → OnlyStream (k resp a))
      → OnlyStream
          (parse_server_response w >>= λ resp. raise from_json_error (parse resp) >>= k resp)
  OnlyStream-asked parse k h =
      OnlyStream-bind (parse_server_response w)
        (λ resp. raise from_json_error (parse resp) >>= k resp) OnlyStream-response
        (λ resp.
          OnlyStream-bind (raise from_json_error (parse resp)) (k resp) (OnlyStream-raise _ _)
            (h resp))

  -- What the crates give is sent with a NUL behind it.
  OnlyStream-sent :
      (r : Text ⊎ Text) (k : Act (Unit {0}))
      → OnlyStream k
      → OnlyStream (raise from_json_error r >>= λ msg. emit (msg ++ 0 ∷ []) >> k)
  OnlyStream-sent r k h =
      OnlyStream-bind (raise from_json_error r) (λ msg. emit (msg ++ 0 ∷ []) >> k)
        (OnlyStream-raise _ _)
        (λ msg. OnlyStream-bind (emit (msg ++ 0 ∷ [])) (λ _. k) (OnlyStream-emit _) (λ _. h))

  OnlyStream-final : (scram : S) → OnlyStream (parse_server_final w scram)
  unfolding parse_server_final
  OnlyStream-final scram =
      OnlyStream-asked w.auth_response
        (λ resp info. if_accepted resp info (check_signature w scram info.authentication))
        (λ resp info.
          OnlyStream-accepted resp info (check_signature w scram info.authentication)
            (OnlyStream-signature scram info.authentication))

  OnlyStream-answer : (scram : S) (challenge : Option Text) → OnlyStream (answer w scram challenge)
  OnlyStream-answer scram none = OnlyStream-fail _
  OnlyStream-answer scram (some challenge) =
      OnlyStream-bind (raise from_scram (w.handle_server_first scram challenge))
        (λ t. send_final w (w.client_final t)) (OnlyStream-raise _ _)
        (λ t.
          OnlyStream-sent (w.confirmation_bytes (w.client_final t).1)
            (parse_server_final w (w.client_final t).0 >> emit [])
            (OnlyStream-bind (parse_server_final w (w.client_final t).0) (λ _. emit [])
              (OnlyStream-final (w.client_final t).0) (λ _. OnlyStream-emit [])))

  OnlyStream-version : OnlyStream (parse_server_version w)
  unfolding parse_server_version
  OnlyStream-version =
      OnlyStream-asked w.server_info (λ resp info. check_version resp info)
        (λ resp info.
          OnlyStream-if info.success (done tt) (fail (from_io resp)) (OnlyStream-done tt)
            (OnlyStream-fail _))

  OnlyStream-authenticate : (s : S × Text) → OnlyStream (authenticate w s)
  OnlyStream-authenticate s = OnlyStream-sent (w.request_bytes (auth_request s.1)) _ (
      OnlyStream-asked w.auth_response
        (λ resp info. if_accepted resp info (answer w s.0 info.authentication))
        (λ resp info.
          OnlyStream-accepted resp info (answer w s.0 info.authentication)
            (OnlyStream-answer s.0 info.authentication)))

  -- However the handshake ends, the session's token and mark stay as they were.
  pub handshake-OnlyStream : (opts : Credentials) → OnlyStream (handshake w opts)
  unfolding handshake
  handshake-OnlyStream opts =
      let started = raise from_scram (w.scram_new opts.user opts.password) in
      OnlyStream-bind (emit (le_bytes 4 w.version)) _ (OnlyStream-emit _) λ _.
        OnlyStream-bind (parse_server_version w) _ OnlyStream-version λ _.
          OnlyStream-bind started (λ s. authenticate w (w.client_first s)) (OnlyStream-raise _ _)
            (λ s. OnlyStream-authenticate (w.client_first s))
