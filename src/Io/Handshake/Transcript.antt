-- ===== src/Io/Handshake/Transcript.antt =====
-- The messages of a whole handshake, `Session::handshake` of src/commands/io/handshake.rs.
use reql.Base.{
  ap, ℕ, Text, codes, starts_with, ◌==◌, Bool, true, false, [], ◌∷◌, ◌++◌, ◌≡◌, refl, Option, some,
  none, inl, All, append_assoc, append-nil,
}
use reql.Errors.{ok}
use reql.Io.Bytes.{le_bytes}
use reql.Io.Stream.{write}
use reql.Io.Frame.{Session}
use reql.Io.Frame.RoundTrip.{sound}
use reql.Io.Handshake.{
  Crates, Credentials, ServerInfo, AuthResponse, read_until_nul, drop_last, parse_server_response,
  parse_server_version, parse_server_final, handshake, auth_request, known_reason, emit,
  check_signature,
}

-- A message that the driver takes as a JSON object: text that starts with a brace and has no NUL.
pub record IsMessage {S : Type 0} (w : Crates S) (m : Text) : Type 0 where
  pub no_nul : All (λ b. (b == 0) ≡ false) m
  pub object : starts_with (codes "{") m ≡ true
  pub utf8 : w.from_utf8_bytes m ≡ inl m

-- The buffered reader takes nothing of the next message along: the server sends it when asked.
abbrev pub ReadsNoFurther : {S : Type 0} → Crates S → Type 0
ReadsNoFurther w = (rest : Text) → w.left rest ≡ rest

read_until_nul-append :
    (m rest : Text)
    → All (λ b. (b == 0) ≡ false) m
    → read_until_nul (m ++ 0 ∷ rest) ≡ (m ++ 0 ∷ [], rest)
unfolding read_until_nul
read_until_nul-append [] rest h = refl
read_until_nul-append (b ∷ m) rest (h, hs) = rw (h, read_until_nul-append m rest hs)

drop_last-snoc : (m : Text) (x : ℕ) → drop_last (m ++ x ∷ []) ≡ m
unfolding drop_last
drop_last-snoc [] x = refl
drop_last-snoc (b ∷ []) x = refl
drop_last-snoc (b ∷ c ∷ m) x = rw (drop_last-snoc (c ∷ m) x)

-- The signature in the server's last message, if it has one, is the one that the client expects.
abbrev pub Signed : {S : Type 0} → Crates S → S → Option Text → Type 0
Signed w scram none = Unit
Signed w scram (some signature) = w.handle_server_final scram signature ≡ none

-- What the crates make of the three messages of a server that lets the client in, and what the
-- client has to say: `first` and `proof`, the states of scram before and after the challenge.
pub record LetsIn {S : Type 0} (w : Crates S) (opts : Credentials)
    (hello challenge bye first proof : Text) (s t : S) (info : ServerInfo)
    (asked closed : AuthResponse) (nonce : Text) : Type 0 where
  pub hello_message : IsMessage w hello
  pub challenge_message : IsMessage w challenge
  pub bye_message : IsMessage w bye
  pub version : w.server_info hello ≡ inl info
  pub version_success : info.success ≡ true
  pub scram : w.scram_new opts.user opts.password ≡ inl s
  pub first_bytes : w.request_bytes (auth_request (w.client_first s).1) ≡ inl first
  pub challenge_parsed : w.auth_response challenge ≡ inl asked
  pub challenge_success : asked.success ≡ true
  pub challenge_nonce : asked.authentication ≡ some nonce
  pub challenge_taken : w.handle_server_first (w.client_first s).0 nonce ≡ inl t
  pub proof_bytes : w.confirmation_bytes (w.client_final t).1 ≡ inl proof
  pub bye_parsed : w.auth_response bye ≡ inl closed
  pub bye_success : closed.success ≡ true
  pub signed : Signed w (w.client_final t).0 closed.authentication

module _ {S : Type 0} (w : Crates S) (further : ReadsNoFurther w) where
  known_reason-message : (m : Text) (c : Session) → IsMessage w m → known_reason w m c ≡ (ok m, c)
  unfolding starts_with
  known_reason-message [] c h = absurd (let e = h.object in cc)
  known_reason-message (b ∷ m) c h = rw (h.utf8, h.object)

  -- A message at the front of the input is read up to its NUL.
  pub parse_server_response-message :
      (m : Text) (id : ℕ) (broken : Bool) (rest output : Text)
      → IsMessage w m
      → parse_server_response w (sound id broken (m ++ 0 ∷ rest) output)
        ≡ (ok m, sound id broken rest output)
  unfolding parse_server_response
  parse_server_response-message m id broken rest output h = rw (
    read_until_nul-append m rest h.no_nul,
    drop_last-snoc,
    further,
    known_reason-message m (sound id broken rest output) h,
  )

  emit-sound :
      (bytes : Text) (id : ℕ) (broken : Bool) (input output : Text)
      → emit bytes (sound id broken input output) ≡ (ok tt, sound id broken input (output ++ bytes))
  unfolding write
  emit-sound bytes id broken input output = refl

  pub check_signature-Signed :
      (scram : S) (signature : Option Text) (c : Session)
      → Signed w scram signature
      → check_signature w scram signature c ≡ (ok tt, c)
  check_signature-Signed scram none c h = refl
  check_signature-Signed scram (some signature) c h = rw h

  parse_server_version-message :
      (m : Text) (info : ServerInfo) (id : ℕ) (broken : Bool) (rest output : Text)
      → IsMessage w m
      → w.server_info m ≡ inl info
      → info.success ≡ true
      → parse_server_version w (sound id broken (m ++ 0 ∷ rest) output)
        ≡ (ok tt, sound id broken rest output)
  unfolding parse_server_version
  parse_server_version-message m info id broken rest output h e success =
      rw (parse_server_response-message m id broken rest output h, e, success)

  parse_server_final-message :
      (m : Text) (info : AuthResponse) (scram : S) (id : ℕ) (broken : Bool) (rest output : Text)
      → IsMessage w m
      → w.auth_response m ≡ inl info
      → info.success ≡ true
      → Signed w scram info.authentication
      → parse_server_final w scram (sound id broken (m ++ 0 ∷ rest) output)
        ≡ (ok tt, sound id broken rest output)
  unfolding parse_server_final
  parse_server_final-message m info scram id broken rest output h e success signed = rw (
    parse_server_response-message m id broken rest output h,
    e,
    success,
    check_signature-Signed scram info.authentication (sound id broken rest output) signed,
  )

  -- If the buffered reader takes nothing of the next message along, and no write fails, a server
  -- that lets the client in is read up to the end of its last message, and has been sent the
  -- version, the client's first message and its proof, the last two with a NUL behind them.
  pub handshake-transcript :
      (opts : Credentials) (hello challenge bye first proof : Text) (s t : S) (info : ServerInfo)
      (asked closed : AuthResponse) (nonce : Text) (id : ℕ) (broken : Bool) (rest output : Text)
      → LetsIn w opts hello challenge bye first proof s t info asked closed nonce
      → handshake w opts
          (sound id broken (hello ++ 0 ∷ (challenge ++ 0 ∷ (bye ++ 0 ∷ rest))) output)
        ≡ (
          ok tt,
          sound id broken rest
              (output ++ (le_bytes 4 w.version ++ ((first ++ 0 ∷ []) ++ (proof ++ 0 ∷ [])))),
        )
  unfolding handshake write
  handshake-transcript opts hello challenge bye first proof s t info asked closed nonce id broken
        rest output h =
      let out = output ++ le_bytes 4 w.version in
      let out1 = out ++ (first ++ 0 ∷ []) in
      let out2 = out1 ++ (proof ++ 0 ∷ []) in
      rw
        (
          parse_server_version-message hello info id broken (challenge ++ 0 ∷ (bye ++ 0 ∷ rest)) out
              h.hello_message h.version h.version_success,
          h.scram,
          h.first_bytes,
          parse_server_response-message challenge id broken (bye ++ 0 ∷ rest) out1
              h.challenge_message,
          h.challenge_parsed,
          h.challenge_success,
          h.challenge_nonce,
          h.challenge_taken,
          h.proof_bytes,
          parse_server_final-message bye closed (w.client_final t).0 id broken rest out2
              h.bye_message h.bye_parsed h.bye_success h.signed,
        )
        (ap (λ o. (ok tt, sound id broken rest o)) (simp (append_assoc, append-nil)))
