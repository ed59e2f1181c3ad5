-- ===== src/Io/Handshake/Final.antt =====
-- The end of the handshake, `parse_server_final` of src/commands/io/handshake.rs.
use reql.Base.{
  ℕ, Text, Bool, true, false, ◌++◌, ◌∷◌, ◌≡◌, refl, subst, ◌↔◌, Option, some, none, ◌⊎◌, inl, inr,
  if◌then◌else◌,
}
use reql.Errors.{ok, from_json_error}
use reql.Io.Frame.{Session, ◌>>=◌}
use reql.Io.Frame.RoundTrip.{sound}
use reql.Io.Handshake.{
  Crates, AuthResponse, raise, parse_server_final, check_signature, signature_outcome, if_accepted,
  refusal, fail,
}
use reql.Io.Handshake.Transcript.{
  IsMessage, ReadsNoFurther, Signed, parse_server_response-message, check_signature-Signed,
}

module _ {S : Type 0} (w : Crates S) where
  check_signature-ok :
      (scram : S) (signature : Option Text) (c : Session)
      → (check_signature w scram signature c).0 ≡ ok tt
      → Signed w scram signature
  check_signature-ok scram none c h = tt
  check_signature-ok scram (some signature) c h = accepted (w.handle_server_final scram signature) h
    where
      accepted : (r : Option Text) → (signature_outcome r c).0 ≡ ok tt → r ≡ none
      accepted none h = refl
      accepted (some e) h = cc

  -- What a last message that ends the handshake well says.
  pub record IsFinal (scram : S) (m : Text) (info : AuthResponse) : Type 0 where
    pub parsed : w.auth_response m ≡ inl info
    pub success : info.success ≡ true
    pub signed : Signed w scram info.authentication

  if_accepted-ok :
      (scram : S) (m : Text) (info : AuthResponse) (b : Bool) (c : Session)
      → info.success ≡ b
      → (if_accepted m info (check_signature w scram info.authentication) c).0 ≡ ok tt
      → (info.success ≡ true) × Signed w scram info.authentication
  if_accepted-ok scram m info true c e h = (
    e,
    check_signature-ok scram info.authentication c (
        subst
          (λ b.
            ((if b then check_signature w scram info.authentication else fail (refusal m info)) c).0
            ≡ ok tt)
          e h),
  )
  if_accepted-ok scram m info false c e h = absurd (
      let g =
        subst
          (λ b.
            ((if b then check_signature w scram info.authentication else fail (refusal m info)) c).0
            ≡ ok tt)
          e h in
      cc)

  IsFinal-info :
      (scram : S) (m : Text) (r : AuthResponse ⊎ Text) (c : Session)
      → w.auth_response m ≡ r
      → ((raise from_json_error r >>= λ info.
            if_accepted m info (check_signature w scram info.authentication))
          c).0
        ≡ ok tt
      → (info : AuthResponse) × IsFinal scram m info
  IsFinal-info scram m (inl info) c e h =
      let (success, signed) = if_accepted-ok scram m info info.success c refl h in
      (info, record { parsed = e; success = success; signed = signed })
  IsFinal-info scram m (inr msg) c e h = cc

  -- If the buffered reader takes nothing of the next message along, a last message, text that starts
  -- with a brace and has no NUL, is accepted exactly if it reports success and its signature is
  -- right or missing.
  pub parse_server_final_iff :
      ReadsNoFurther w
      → (scram : S) (m : Text) (id : ℕ) (broken : Bool) (rest output : Text) → IsMessage w m
      → ((parse_server_final w scram (sound id broken (m ++ 0 ∷ rest) output)).0 ≡ ok tt)
        ↔ ((info : AuthResponse) × IsFinal scram m info)
  unfolding parse_server_final
  parse_server_final_iff further scram m id broken rest output h =
      rw (parse_server_response-message w further m id broken rest output h) (
        IsFinal-info scram m (w.auth_response m) (sound id broken rest output) refl,
        λ (info, f).
            rw
              (
                f.parsed,
                f.success,
                check_signature-Signed w further scram info.authentication
                    (sound id broken rest output) f.signed,
              )
              refl,
      )
