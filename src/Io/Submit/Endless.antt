-- ===== src/Io/Submit/Endless.antt =====
-- A request that is reproducible, while the pool has no session to give
-- (src/commands/io/request.rs).
use reql.Base.{
  ℕ, zero, suc, ◌+◌, ◌-◌, ◌%◌, ◌^◌, ◌<◌, arith, codes, Bool, Bool-cases, true, false, ◌||◌, ltb,
  Option, none, some, List, [], ◌∷◌, ◌++◌, append-nil, append_assoc, ◌≡◌, refl, ap, ◌∙◌, inl, inr,
  ◌⊎◌,
}
use reql.Errors.{Error, err, from_get_timeout}
use reql.Io.Response.{Item}
use reql.Io.Submit.{
  Env, Request, Loop, Round, failed, again, is_last, unfinished, round, loop, after_round,
}
use reql.Io.Submit.Answer.{loop-round}

abbrev pub timeout : Error
timeout = from_get_timeout (codes "timed out waiting for connection")

module _ {T : Type 0} (v : Env T) (q : Request) (always : q.reproducible ≡ true) where
  -- The state before the attempt `i`, with the pool empty.
  abbrev pub Idle : Loop T → Type 0
  Idle s = (s.connect ≡ true) × (s.pool ≡ [])

  -- What the caller is sent at the attempt `i`, and at `n` attempts from there.
  abbrev sent_at : Bool → List (Item T)
  sent_at true = err timeout ∷ []
  sent_at false = []

  abbrev sent_from : ℕ → ℕ → List (Item T)
  sent_from zero i = []
  sent_from (suc n) i = sent_at (is_last v q i) ++ sent_from n (i + 1)

  abbrev idle_next : Bool → Loop T → Loop T
  idle_next b s = record s {
    i = (s.i + 1) % 2 ^ 64;
    running = record s.running { sent = s.running.sent ++ sent_at b };
  }

  failed-Idle : (b : Bool) (s : Loop T) → failed v q b timeout s ≡ again (idle_next b s)
  failed-Idle true s = rw always refl
  failed-Idle false s = rw append-nil refl

  round-Idle : (s : Loop T) → Idle s → round v q s ≡ again (idle_next (is_last v q s.i) s)
  unfolding round
  round-Idle s (c, p) = rw (c, p) (failed-Idle (is_last v q s.i) s')
    where
      s' : Loop T
      s' = record s { pool = []; connect = true }

  -- `n` rounds of the loop, as long as it goes on.
  abbrev and_on : (Loop T → Option (Loop T)) → Round T → Option (Loop T)
  and_on more (again s) = more s
  and_on more _ = none

  pub rounds : ℕ → Loop T → Option (Loop T)
  rounds zero s = some s
  rounds (suc n) s = and_on (rounds n) (round v q s)

  loop-Idle : (n : ℕ) (s : Loop T) → Idle s → loop v q n s ≡ unfinished
  loop-Idle zero s h = unfold loop in refl
  loop-Idle (suc n) s h =
      loop-round v q n s (rw always (or_true (ltb s.i q.retries)))
      ∙ ap (after_round v q (loop v q n)) (round-Idle s h)
      ∙ loop-Idle n (idle_next (is_last v q s.i) s) h
    where
      or_true : (b : Bool) → (b || true) ≡ true
      or_true true = refl
      or_true false = refl

  idle_after : ℕ → Loop T → Loop T
  idle_after n s = record s {
    i = s.i + n;
    running = record s.running { sent = s.running.sent ++ sent_from n s.i };
  }

  add_zero : (i : ℕ) → i + 0 ≡ i
  add_zero i = omega arith

  rounds-Idle :
      (n : ℕ) (s : Loop T) → Idle s → s.i + n < 2 ^ 64 → rounds n s ≡ some (idle_after n s)
  unfolding rounds idle_after
  rounds-Idle zero s h k = rw (append-nil, add_zero s.i) refl
  rounds-Idle (suc n) s h k =
      ap (and_on (rounds n)) (round-Idle s h)
      ∙ rounds-Idle n (idle_next (is_last v q s.i) s) h (omega arith)
      ∙ rw (append_assoc, counted s.i k, moved s.i) refl
    where
      counted : (i : ℕ) → i + suc n < 2 ^ 64 → (i + 1) % 2 ^ 64 ≡ i + 1
      counted i k = omega arith

      moved : (i : ℕ) → (i + 1) + n ≡ i + suc n
      moved i = omega arith

  -- At most one of the attempts is the last one.
  past : (n i : ℕ) → (q.retries + (2 ^ 64 - 1)) % 2 ^ 64 < i → sent_from n i ≡ []
  past zero i h = refl
  past (suc n) i h = rw (not_last i h, past n (i + 1) (omega arith)) refl
    where
      not_last : (i : ℕ) → (q.retries + (2 ^ 64 - 1)) % 2 ^ 64 < i → is_last v q i ≡ false
      not_last i h = ground arith

  sent_from-cases : (n i : ℕ) → (sent_from n i ≡ []) ⊎ (sent_from n i ≡ err timeout ∷ [])
  sent_from-cases zero i = inl refl
  sent_from-cases (suc n) i = elim (Bool-cases (is_last v q i)) [
    | inl e ↦ rw (e, past n (i + 1) (after_last i e)) (inr refl)
    | inr e ↦ rw e (sent_from-cases n (i + 1))
  ]
    where
      after_last : (i : ℕ) → is_last v q i ≡ true → (q.retries + (2 ^ 64 - 1)) % 2 ^ 64 < i + 1
      after_last i e = ground arith

  -- When a reproducible query has to open a new connection and the pool has no session to give, it
  -- is tried again and again, whatever `retries` is: as long as the counter of the attempts does not
  -- overflow in 64 bits, the loop is not left within `n` rounds, they count `n` attempts, and all
  -- that they send the caller is one timeout at most.
  pub loop-endless :
      (n : ℕ) (s : Loop T)
      → Idle s
      → s.i + n < 2 ^ 64
      → (loop v q n s ≡ unfinished)
        × (s' : Loop T) × (rounds n s ≡ some s')
        × (s'.i ≡ s.i + n)
        × (errors : List (Item T)) × (s'.running.sent ≡ s.running.sent ++ errors)
        × ((errors ≡ []) ⊎ (errors ≡ err timeout ∷ []))
  unfolding idle_after
  loop-endless n s h k = (
    loop-Idle n s h,
    idle_after n s,
    rounds-Idle n s h k,
    refl,
    sent_from n s.i,
    refl,
    sent_from-cases n s.i,
  )
