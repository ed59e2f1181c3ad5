-- ===== src/Examples/Handshakes.antt =====
-- The opening and the check of a session, src/commands/io/handshake.rs, at concrete inputs.
use reql.Base.{
  ℕ, codes, ◌==◌, starts_with, true, false, none, some, ◌≡◌, refl, ◌↔◌, inl, [], ◌∷◌, ◌++◌, arith,
  length, length-append, length-show, show, ◌<◌, ◌^◌, if◌then◌else◌,
}
use reql.Errors.{ok}
use reql.Types.Value.{Value}
use reql.Io.Bytes.{le_bytes}
use reql.Io.Frame.RoundTrip.{frame, sound}
use reql.Io.Response.{ResponseType, ReqlResponse}
use reql.Io.Handshake.{
  Crates, Credentials, ServerInfo, AuthResponse, Probe, is_valid, handshake, parse_server_final,
}
use reql.Io.Handshake.Checks.{is_valid-IsAlive, IsAlive, probe_text}
use reql.Io.Handshake.Transcript.{IsMessage, LetsIn, handshake-transcript}
use reql.Io.Handshake.Final.{IsFinal, parse_server_final_iff}

abbrev atom_response : ReqlResponse
atom_response = record { t = 1; e = none; r = Value.null }

abbrev probe_crates : Probe
probe_crates = record {
  query_value = λ t. 1;
  response_type = λ t. if t == 1 then some ResponseType.success_atom else none;
  parse_response = λ bytes. inl atom_response;
  as_integers = λ v. inl (1 ∷ []);
  debug = λ r. [];
}

probe_fits : length (probe_text 1) < 2 ^ 32
probe_fits = rw (length-append (show 1) (44 ∷ 49 ∷ 93 ∷ [])) (omega (arith, length-show 1))

is_valid-IsAlive_example :
    (((is_valid probe_crates (sound 6 false (frame 3 (codes "{}") ++ []) [])).0 ≡ ok tt)
      ↔ ((resp : ReqlResponse) × IsAlive probe_crates (codes "{}") resp))
    × ((is_valid probe_crates (sound 6 false (frame 3 (codes "{}") ++ []) [])).1
        ≡ sound 7 false [] ([] ++ frame 7 (probe_text 1)))
is_valid-IsAlive_example =
    is_valid-IsAlive probe_crates 6 3 false (codes "{}") [] [] probe_fits (omega arith)

abbrev opts : Credentials
opts = record { user = codes "admin"; password = [] }

abbrev info : ServerInfo
info = record {
  success = true;
  min_protocol_version = 0;
  max_protocol_version = 0;
  server_version = codes "2.3.5";
}

abbrev asked : AuthResponse
asked = record {
  success = true;
  authentication = some (codes "n");
  error_code = none;
  error = none;
}

abbrev closed : AuthResponse
closed = record { success = true; authentication = none; error_code = none; error = none }

-- A server whose messages are `{v}`, `{a}` and `{}`, the last with no signature.
abbrev pub crates : Crates ℕ
crates = record {
  version = 10;
  left = λ rest. rest;
  from_utf8_bytes = λ bytes. inl bytes;
  server_info = λ s. inl info;
  auth_response = λ s. if starts_with (codes "{a") s then inl asked else inl closed;
  request_bytes = λ r. inl r.authentication;
  confirmation_bytes = λ s. inl s;
  scram_new = λ user password. inl 0;
  client_first = λ s. (1, codes "first");
  handle_server_first = λ s nonce. inl 2;
  client_final = λ s. (3, codes "proof");
  handle_server_final = λ s signature. some (codes "no");
}

lets_in :
    LetsIn crates opts
      (codes "{v}")
      (codes "{a}")
      (codes "{}")
      (codes "first")
      (codes "proof")
      0
      2
      info
      asked
      closed
      (codes "n")
unfolding starts_with
lets_in = record {
  hello_message = record { no_nul = (refl, (refl, (refl, tt))); object = refl; utf8 = refl };
  challenge_message = record { no_nul = (refl, (refl, (refl, tt))); object = refl; utf8 = refl };
  bye_message = record { no_nul = (refl, (refl, tt)); object = refl; utf8 = refl };
  version = refl;
  version_success = refl;
  scram = refl;
  first_bytes = refl;
  challenge_parsed = refl;
  challenge_success = refl;
  challenge_nonce = refl;
  challenge_taken = refl;
  proof_bytes = refl;
  bye_parsed = refl;
  bye_success = refl;
  signed = tt;
}

handshake-transcript_example :
    handshake crates opts
      (sound 0 false (codes "{v}" ++ 0 ∷ (codes "{a}" ++ 0 ∷ (codes "{}" ++ 0 ∷ []))) [])
    ≡ (
      ok tt,
      sound 0 false []
          ([] ++ (le_bytes 4 10 ++ ((codes "first" ++ 0 ∷ []) ++ (codes "proof" ++ 0 ∷ [])))),
    )
handshake-transcript_example =
    handshake-transcript crates (λ rest. refl) opts (codes "{v}") (codes "{a}") (codes "{}")
      (codes "first") (codes "proof") 0 2 info asked closed (codes "n") 0 false [] [] lets_in

final-IsMessage : IsMessage crates (codes "{}")
unfolding starts_with
final-IsMessage = record { no_nul = (refl, (refl, tt)); object = refl; utf8 = refl }

-- The message has no signature, and the state of scram would take none.
parse_server_final_iff_example :
    ((parse_server_final crates 3 (sound 0 false (codes "{}" ++ 0 ∷ []) [])).0 ≡ ok tt)
    ↔ ((info : AuthResponse) × IsFinal crates 3 (codes "{}") info)
parse_server_final_iff_example =
    parse_server_final_iff crates (λ rest. refl) 3 (codes "{}") 0 false [] [] final-IsMessage
