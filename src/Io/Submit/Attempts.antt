-- ===== src/Io/Submit/Attempts.antt =====
-- The retry loop of a query that is not reproducible: it ends, and what the caller gets is closed
-- by the last response or by one error.
use reql.Base.{
  length, ℕ, zero, suc, ◌+◌, ◌%◌, ◌^◌, ◌<◌, Text, ltb, Bool, true, false, not, ◌||◌, Option, none,
  some, List, [], ◌∷◌, ◌++◌, ◌≡◌, refl, sym, subst, ◌⊎◌, inl, inr, arith, Bool-cases,
}
use reql.Errors.{Error, Result, ok, err}
use reql.Io.Frame.{Session, write_query}
use reql.Io.Response.{Item, Running}
use reql.Io.Submit.{
  Env, process, Request, Loop, Round, left, again, panicked, stuck, is_last, failed, query_text,
  after_process, respond, after_write, submit_text, reconnected, round, get_conn, Ended, finished,
  refused, crashed, unfinished, loop, after_round, begin, submit,
}
use reql.Io.Submit.Process.{AllOk, Settled, process-Settled}

module _ {T : Type 0} (v : Env T) (q : Request) where
  -- The answer has been read to its end.
  abbrev pub Answered : Running T → Type 0
  Answered r =
      (before : Running T) × (u : Unit {0}) × (process v (length before.conn.stream.input + 1)
          before
        ≡ some (ok u, r))

  -- Documents only, of an answer read to its end, or documents and then one error.
  abbrev pub IsClosed : Running T → Type 0
  IsClosed r =
      (AllOk r.sent × Answered r)
      ⊎ ((docs : List (Item T)) × (e : Error) × (r.sent ≡ docs ++ err e ∷ []) × AllOk docs)

  -- How the whole request may end.
  abbrev pub EndsWell : Ended v q → Type 0
  EndsWell (finished s) = IsClosed s.running
  EndsWell (refused e) = Unit
  EndsWell crashed = query_text v q ≡ none
  EndsWell unfinished = ⊥

module _ {T : Type 0} (v : Env T) (q : Request) (once : q.reproducible ≡ false)
    (fits : q.retries < 2 ^ 64) where
  -- A round that is not the last one ends the loop, or leaves an attempt.
  abbrev Good : ℕ → Round T → Type 0
  Good i (left s) = IsClosed v q s.running
  Good i (again s) = AllOk s.running.sent × (s.i ≡ i + 1) × (i + 1 < q.retries)
  Good i panicked = query_text v q ≡ none
  Good i stuck = ⊥

  not_last : (i : ℕ) → i < q.retries → is_last v q i ≡ false → i + 1 < q.retries
  not_last i h e = ground arith

  counted : (i : ℕ) → i + 1 < q.retries → (i + 1) % 2 ^ 64 ≡ i + 1
  counted i h = omega (arith, fits)

  failed-Good :
      (b : Bool) (e : Error) (s : Loop T)
      → (b ≡ false → s.i + 1 < q.retries)
      → AllOk s.running.sent
      → Good s.i (failed v q b e s)
  failed-Good false e s h a = (a, counted s.i (h refl), h refl)
  failed-Good true e s h a = rw once (inr (s.running.sent, e, refl, a))

  after_process-Good :
      (s : Loop T) (p : Option (Result (Unit {0}) × Running T))
      → process v (length s.running.conn.stream.input + 1) s.running ≡ p
      → s.i < q.retries
      → Settled v p
      → Good s.i (after_process v q s p)
  after_process-Good s none eq h a = a
  after_process-Good s (some (ok u, r)) eq h a = inl (a, (s.running, u, eq))
  after_process-Good s (some (err e, r)) eq h a =
      failed-Good (is_last v q s.i || not r.retry) e (record s { running = r })
        (λ x. not_last s.i h (ground arith)) a

  respond-Good : (s : Loop T) → s.i < q.retries → AllOk s.running.sent → Good s.i (respond v q s)
  respond-Good s h a = after_process-Good s _ refl h (process-Settled v _ s.running (omega arith) a)

  after_write-Good :
      (s : Loop T) (r : Result (Unit {0})) (c : Session)
      → s.i < q.retries
      → AllOk s.running.sent
      → Good s.i (after_write v q s (r, c))
  after_write-Good s (ok u) c h a =
      respond-Good (record s { running = record s.running { conn = c }; connect = q.reproducible })
        h a
  after_write-Good s (err e) c h a =
      failed-Good (is_last v q s.i) e
        (record s { running = record s.running { conn = c }; connect = true }) (not_last s.i h) a

  submit_text-Good :
      (s : Loop T) (o : Option Text)
      → query_text v q ≡ o
      → s.i < q.retries
      → AllOk s.running.sent
      → Good s.i (submit_text v q s o)
  submit_text-Good s none e h a = e
  submit_text-Good s (some text) e h a = elim (Bool-cases (s.running.write || q.reproducible)) [
    | inl w ↦ rw w (
        after_write-Good s (write_query text s.running.conn).0 (write_query text s.running.conn).1 h
          a)
    | inr w ↦ rw w (respond-Good s h a)
  ]

  reconnected-Good :
      (s : Loop T) (r : Result Session) (pool : List (Session ⊎ Text))
      → s.i < q.retries
      → AllOk s.running.sent
      → Good s.i (reconnected v q s (r, pool))
  reconnected-Good s (ok c) pool h a =
      submit_text-Good
        (record s { running = record s.running { conn = c; write = true }; pool = pool })
        (query_text v q) refl h a
  reconnected-Good s (err e) pool h a =
      failed-Good (is_last v q s.i) e (record s { pool = pool }) (not_last s.i h) a

  round-Good : (s : Loop T) → s.i < q.retries → AllOk s.running.sent → Good s.i (round v q s)
  unfolding round
  round-Good s h a = elim (Bool-cases s.connect) [
    | inl c ↦ simp c (reconnected-Good s (get_conn s.pool).0 (get_conn s.pool).1 h a)
    | inr c ↦ simp c (submit_text-Good s (query_text v q) refl h a)
  ]

  abbrev Rest : ℕ → (Loop T → Ended v q) → Type 0
  Rest n rest =
      (s : Loop T)
      → s.i < q.retries
      → q.retries < n + s.i
      → AllOk s.running.sent
      → EndsWell v q (rest s)

  after_round-EndsWell :
      (n i : ℕ) (rest : Loop T → Ended v q) (r : Round T)
      → Rest n rest
      → q.retries < suc n + i
      → Good i r
      → EndsWell v q (after_round v q rest r)
  after_round-EndsWell n i rest (left s) go f g = g
  after_round-EndsWell n i rest (again s) go f g = go s (omega (arith, g)) (omega (arith, g)) g.0
  after_round-EndsWell n i rest panicked go f g = g
  after_round-EndsWell n i rest stuck go f g = g

  loop-EndsWell : (fuel : ℕ) → Rest fuel (loop v q fuel)
  unfolding loop
  loop-EndsWell zero s h f a = absurd (omega arith)
  loop-EndsWell (suc n) s h f a =
      let runs : (ltb s.i q.retries || q.reproducible) ≡ true = ground arith in
      let done =
        after_round-EndsWell n s.i (loop v q n) (round v q s) (loop-EndsWell n) f
          (round-Good s h a) in
      subst
        (λ b.
          EndsWell v q
            (elim b [ true ↦ after_round v q (loop v q n) (round v q s) | false ↦ finished s ]))
        (sym runs) done

  begin-EndsWell :
      (fuel : ℕ) (r : Result Session) (pool : List (Session ⊎ Text))
      → 0 < q.retries
      → q.retries < fuel
      → EndsWell v q (begin v q fuel (r, pool))
  begin-EndsWell fuel (ok c) pool h f =
      loop-EndsWell fuel
        (record {
          running = record { conn = c; write = true; retry = false; sent = [] };
          pool = pool;
          i = 0;
          connect = false;
        })
        h (omega arith) tt
  begin-EndsWell fuel (err e) pool h f = tt

  -- A query that is not reproducible and may be tried at least once is done after `retries` rounds
  -- at most. What the caller has got are documents, followed by one error unless the answer was
  -- read to its end; the code panics only if the query has no text.
  pub submit-EndsWell :
      (fuel : ℕ) (pool : List (Session ⊎ Text))
      → 0 < q.retries
      → q.retries < fuel
      → EndsWell v q (submit v q fuel pool)
  unfolding submit
  submit-EndsWell fuel pool = begin-EndsWell fuel (get_conn pool).0 (get_conn pool).1
