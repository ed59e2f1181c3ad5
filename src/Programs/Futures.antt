-- ===== src/Programs/Futures.antt =====
-- The streams of the crate futures, as the programs of examples/ use them.
use reql.Base.{Text, Option, none, some, List, [], ◌∷◌, ◌++◌, map, ◌⊎◌, inl, inr, ◌≡◌}
use reql.Errors.{Error, ok, err}
use reql.Io.Response.{Document}
use reql.Io.Calls.{Response, Answer, not_ready, ready, poll}

-- A result of a stream, with the lines that the closures on the way have printed for it.
abbrev pub Line : Type 0 → Type 0 → Type 0
Line A E = List Text × (A ⊎ E)

-- `wait` gives the results that are handed out.
pub record Streams (T : Type 0) : Type 1 where
  pub Stream : Type 0 → Type 0 → Type 0
  pub of_response : Response T → Stream (Option (Document T)) Error
  pub and_then : {A B E : Type 0} → (A → Line B E) → Stream A E → Stream B E
  pub or_else : {A E F : Type 0} → (E → Line A F) → Stream A E → Stream A F
  pub wait : {A E : Type 0} → Stream A E → List (Line A E)

-- An item goes through the closure, an error passes.
abbrev pub then_item : {A B E : Type 0} → (A → Line B E) → Line A E → Line B E
then_item f (said, inl a) = let r = f a in (said ++ r.0, r.1)
then_item f (said, inr e) = (said, inr e)

abbrev pub else_error : {A E F : Type 0} → (E → Line A F) → Line A E → Line A F
else_error f (said, inl a) = (said, inl a)
else_error f (said, inr e) = let r = f e in (said ++ r.0, r.1)

abbrev pub Results : Type 0 → Type 0
Results T = List (Line (Option (Document T)) Error)

module _ {T : Type 0} where
  -- What `wait` makes of a poll: it waits, ends, or hands out a result and goes on.
  abbrev pub after_poll : (Response T → Results T) → Answer T × Response T → Results T
  after_poll more (ok not_ready, r) = more r
  after_poll more (ok (ready none), r) = []
  after_poll more (ok (ready (some d)), r) = ([], inl d) ∷ more r
  after_poll more (err e, r) = ([], inr e) ∷ more r

  -- What the documentation of futures says of `wait`, `and_then` and `or_else`.
  pub record IsStreams (s : Streams T) : Type 1 where
    pub waits :
        (r : Response T)
        → s.wait (s.of_response r)
          ≡ after_poll (λ (r' : Response T). s.wait (s.of_response r')) (poll r)
    pub and_thens :
        {A B E : Type 0} (f : A → Line B E) (x : s.Stream A E)
        → s.wait (s.and_then f x) ≡ map (then_item f) (s.wait x)
    pub or_elses :
        {A E F : Type 0} (f : E → Line A F) (x : s.Stream A E)
        → s.wait (s.or_else f x) ≡ map (else_error f) (s.wait x)
