-- ===== src/Io/Handshake/Checks.antt =====
-- The check of an idle session, `Session::is_valid` of src/commands/io/handshake.rs.
use reql.Base.{
  ap, subst, sym, codes, show, ℕ, ◌+◌, ◌%◌, ◌^◌, ◌<◌, Text, length, ==_iff, Bool, true, false, List,
  [], ◌∷◌, ◌++◌, ◌≡◌, refl, ◌↔◌, Option, some, none, if◌then◌else◌, ◌⊎◌, inl, inr,
}
use reql.Errors.{Error, ok, err}
use reql.Io.Frame.{QueryType, wrap_query}
use reql.Io.Frame.RoundTrip.{frame, sound, write_query-frame, read_query-frame}
use reql.Io.Response.{ReqlResponse, ResponseType}
use reql.Io.Handshake.{
  Probe, probe, verdict, is_valid, is_one, check_atom, check_response, parsed_check,
}

is_valid-frame :
    (p : Probe) (id token : ℕ) (broken : Bool) (body rest output : Text)
    → length (probe p) < 2 ^ 32
    → length body < 2 ^ 32
    → is_valid p (sound id broken (frame token body ++ rest) output) ≡ (
      verdict p body,
      sound ((id + 1) % 2 ^ 64) broken rest (output ++ frame ((id + 1) % 2 ^ 64) (probe p)),
    )
unfolding is_valid
is_valid-frame p id token broken body rest output fits fits_body = rw (
  write_query-frame ((id + 1) % 2 ^ 64) broken (frame token body ++ rest) output (probe p) fits,
  read_query-frame ((id + 1) % 2 ^ 64) token broken body rest
      (output ++ frame ((id + 1) % 2 ^ 64) (probe p)) [] fits_body,
)

is_one_iff : (ns : List ℕ) → (is_one ns ≡ true) ↔ (ns ≡ 1 ∷ [])
is_one_iff [] = (λ h. cc, λ h. cc)
is_one_iff (n ∷ []) = (λ h. ap (λ m. m ∷ []) ((==_iff n 1).0 h), λ h. (==_iff n 1).1 cc)
is_one_iff (n ∷ m ∷ ns) = (λ h. cc, λ h. cc)

-- What a check that succeeds has been answered.
pub record IsAlive (p : Probe) (body : Text) (resp : ReqlResponse) : Type 0 where
  pub parsed : p.parse_response body ≡ inl resp
  pub atom : p.response_type resp.t ≡ some ResponseType.success_atom
  pub one : p.as_integers resp.r ≡ inl (1 ∷ [])

ok-only : (b : Bool) (e : Error) → (if b then ok (tt {0}) else err e) ≡ ok tt → b ≡ true
ok-only true e h = refl
ok-only false e h = cc

check_atom-one :
    (p : Probe) (resp : ReqlResponse) (r : List ℕ ⊎ Text)
    → check_atom p resp r ≡ ok tt
    → r ≡ inl (1 ∷ [])
check_atom-one p resp (inl ns) h = ap inl ((is_one_iff ns).0 (ok-only (is_one ns) _ h))
check_atom-one p resp (inr e) h = cc

check_response-atom :
    (p : Probe) (resp : ReqlResponse) (t : Option ResponseType)
    → check_response p resp t ≡ ok tt
    → (t ≡ some ResponseType.success_atom) × (p.as_integers resp.r ≡ inl (1 ∷ []))
check_response-atom p resp (some ResponseType.success_atom) h =
    (refl, check_atom-one p resp (p.as_integers resp.r) h)
check_response-atom p resp (some ResponseType.success_partial) h = cc
check_response-atom p resp (some ResponseType.success_other) h = cc
check_response-atom p resp (some ResponseType.client_error) h = cc
check_response-atom p resp (some ResponseType.compile_error) h = cc
check_response-atom p resp (some ResponseType.runtime_error) h = cc
check_response-atom p resp none h = cc

parsed_check-IsAlive :
    (p : Probe) (body : Text) (r : ReqlResponse ⊎ Text)
    → p.parse_response body ≡ r
    → parsed_check p r ≡ ok tt
    → (resp : ReqlResponse) × IsAlive p body resp
parsed_check-IsAlive p body (inl resp) e h =
    let (atom, one) = check_response-atom p resp (p.response_type resp.t) h in
    (resp, record { parsed = e; atom = atom; one = one })
parsed_check-IsAlive p body (inr m) e h = cc

-- The answer is accepted exactly if it is a successful atom, the list of the number one.
verdict_iff :
    (p : Probe) (body : Text)
    → (verdict p body ≡ ok tt) ↔ ((resp : ReqlResponse) × IsAlive p body resp)
unfolding verdict
verdict_iff p body = (
  parsed_check-IsAlive p body (p.parse_response body) refl,
  λ (resp, alive). rw (alive.parsed, alive.atom, alive.one) refl,
)

-- The text of the check's query for the number of `START`: the query `1` with no options.
abbrev pub probe_text : ℕ → Text
probe_text n = codes "[" ++ (show n ++ codes ",1]")

probe-text : (p : Probe) → probe p ≡ probe_text (p.query_value QueryType.start)
unfolding wrap_query
probe-text p = refl

-- On a stream with no fault, a session is valid exactly if the first answer parses, its type is that
-- of a successful atom, and its value is the list of the number one. For this `[START,1]` is sent
-- under the next token, and one frame is read, whatever its token is, with what stands behind it
-- left. The lengths of both fit in 32 bits.
pub is_valid-IsAlive :
    (p : Probe) (id token : ℕ) (broken : Bool) (body rest output : Text)
    → length (probe_text (p.query_value QueryType.start)) < 2 ^ 32
    → length body < 2 ^ 32
    → (((is_valid p (sound id broken (frame token body ++ rest) output)).0 ≡ ok tt)
        ↔ ((resp : ReqlResponse) × IsAlive p body resp))
      × ((is_valid p (sound id broken (frame token body ++ rest) output)).1
          ≡ sound
              ((id + 1) % 2 ^ 64)
              broken
              rest
              (output ++ frame ((id + 1) % 2 ^ 64) (probe_text (p.query_value QueryType.start))))
is_valid-IsAlive p id token broken body rest output fits fits_body =
    let fits' = subst (λ t. length t < 2 ^ 32) (sym (probe-text p)) fits in
    let run = is_valid-frame p id token broken body rest output fits' fits_body in
    rw run (
      verdict_iff p body,
      ap (λ t. sound ((id + 1) % 2 ^ 64) broken rest (output ++ frame ((id + 1) % 2 ^ 64) t))
          (probe-text p),
    )
