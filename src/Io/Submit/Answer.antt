-- ===== src/Io/Submit/Answer.antt =====
-- A whole request of src/commands/io/request.rs, from the pool to the caller, where the server
-- answers with one response.
use reql.Base.{ℕ, suc, Text, ltb, Bool, true, false, ◌||◌, List, ◌≡◌, refl, subst, sym}
use reql.Io.Frame.RoundTrip.{sound}
use reql.Io.Response.{Item, Running}
use reql.Io.Submit.{Env, Request, Loop, Ended, finished, round, loop, after_round}

module _ {T : Type 0} (v : Env T) where
  -- The request after the answer: what it has sent to the server and to the caller.
  abbrev pub answered : ℕ → Bool → Text → Text → List (Item T) → Running T
  answered id broken rest output sent = record {
    conn = sound id broken rest output;
    write = false;
    retry = false;
    sent = sent;
  }

  pub loop-round :
      (q : Request) (n : ℕ) (s : Loop T)
      → (ltb s.i q.retries || q.reproducible) ≡ true
      → loop v q (suc n) s ≡ after_round v q (loop v q n) (round v q s)
  unfolding loop
  loop-round q n s h =
      subst
        (λ b.
          ◌≡◌ {A = Ended v q}
            (elim b [ true ↦ after_round v q (loop v q n) (round v q s) | false ↦ finished s ])
            (after_round v q (loop v q n) (round v q s)))
        (sym h) refl
