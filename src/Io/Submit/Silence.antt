-- ===== src/Io/Submit/Silence.antt =====
-- What `Request::submit` of src/commands/io/request.rs does once the stream has ended behind a query
-- that was written.
use reql.Base.{
  ℕ, zero, suc, ◌+◌, ◌%◌, ◌^◌, ◌≤◌, ◌<◌, arith, Text, starts_with, ltb, Bool, true, false, ◌||◌,
  Option, none, some, List, [], ◌≡◌, refl, ◌⊎◌,
}
use reql.Errors.{from_io}
use reql.Io.Stream.{eof, read}
use reql.Io.Frame.{Session, read_query}
use reql.Io.Response.{Item, handle}
use reql.Io.Submit.{
  Env, Request, Loop, Ended, finished, refused, crashed, unfinished, not_primary, process,
  submit_text, query_text, round, loop, failed, is_last, after_round, next,
}

-- A request that has written its query on a session whose stream has ended.
abbrev pub waiting :
    {T : Type 0}
    → ℕ
    → Bool
    → Text
    → List (Option Text)
    → Bool
    → List (Item T)
    → List (Session ⊎ Text)
    → ℕ
    → Loop T
waiting id broken output faults retry sent pool i = record {
  running = record {
    conn = record {
      id = id;
      broken = broken;
      stream = record { input = []; output = output; faults = faults };
    };
    write = false;
    retry = retry;
    sent = sent;
  };
  pool = pool;
  i = i;
  connect = false;
}

-- The request ends within the fuel, unless `encode` panics, and has written nothing more.
abbrev pub Silent : {T : Type 0} {v : Env T} {q : Request} → Text → Ended v q → Type 0
Silent output (finished s) = s.running.conn.stream.output ≡ output
Silent output (refused e) = ⊥
Silent output crashed = Unit
Silent output unfinished = ⊥

below : (i n : ℕ) (r : Bool) → r ≡ false → (ltb i n || r) ≡ true → i < n
below i n true e h = cc
below i n false e h = ground arith

module _ {T : Type 0} (v : Env T) (q : Request) (once : q.reproducible ≡ false)
    (fits : q.retries < 2 ^ 64)
    (plain : starts_with (not_primary v) (v.description (from_io eof)) ≡ false) where
  -- One round: it fails with the end of the stream, and the query is not written.
  round-waiting :
      (id : ℕ) (broken : Bool) (output : Text) (faults : List (Option Text)) (retry : Bool)
      (sent : List (Item T)) (pool : List (Session ⊎ Text)) (i : ℕ) (text : Text)
      → submit_text v q (waiting id broken output faults retry sent pool i) (some text)
        ≡ failed v q
            (is_last v q i || false)
            (from_io eof)
            (waiting id true output faults true sent pool i)
  unfolding process handle read_query read
  round-waiting id broken output faults retry sent pool i text = rw (once, plain) refl

  Silent-failed :
      (rest : Loop T → Ended v q) (final : Bool) (s : Loop T)
      → Silent s.running.conn.stream.output (rest (next v q s))
      → Silent s.running.conn.stream.output
          (after_round v q rest (failed v q final (from_io eof) s))
  Silent-failed rest false s h = h
  Silent-failed rest true s h = rw once refl

  Silent-submit_text :
      (rest : Loop T → Ended v q) (i : ℕ)
      → ((id : ℕ) (broken : Bool) (output : Text) (faults : List (Option Text)) (retry : Bool)
            (sent : List (Item T)) (pool : List (Session ⊎ Text))
          → Silent output
              (rest (waiting id broken output faults retry sent pool ((i + 1) % 2 ^ 64))))
      → (id : ℕ) (broken : Bool) (output : Text) (faults : List (Option Text)) (retry : Bool)
        (sent : List (Item T)) (pool : List (Session ⊎ Text)) (text : Option Text)
      → Silent output (
          after_round v q rest
            (submit_text v q (waiting id broken output faults retry sent pool i) text))
  Silent-submit_text rest i h id broken output faults retry sent pool none = tt
  Silent-submit_text rest i h id broken output faults retry sent pool (some text) =
      rw (round-waiting id broken output faults retry sent pool i text) (
        Silent-failed rest (is_last v q i || false) (waiting id true output faults true sent pool i)
          (h id true output faults true sent pool))

  -- Once the stream has ended, a query that is not reproducible is never written again: the rounds
  -- that are left, `retries` at most, only read the same stream, and then the request ends, or
  -- `encode` panics. `retries` is a number of 64 bits. The description of the
  -- stream's error is not that of a replica that is no primary.
  pub loop-Silent :
      (fuel id : ℕ) (broken : Bool) (output : Text) (faults : List (Option Text)) (retry : Bool)
      (sent : List (Item T)) (pool : List (Session ⊎ Text)) (i : ℕ)
      → i ≤ q.retries
      → q.retries < i + fuel
      → Silent output (loop v q fuel (waiting id broken output faults retry sent pool i))
  unfolding loop round
  loop-Silent zero id broken output faults retry sent pool i h enough = absurd (omega arith)
  loop-Silent (suc n) id broken output faults retry sent pool i h enough =
      go (ltb i q.retries || q.reproducible) refl λ more.
        Silent-submit_text (loop v q n) i
          (λ id' broken' output' faults' retry' sent' pool'.
            loop-Silent n id' broken' output' faults' retry' sent' pool' ((i + 1) % 2 ^ 64)
              (omega (arith, fits)) (omega (arith, fits)))
          id broken output faults retry sent pool (query_text v q)
    where
      go :
          (b : Bool)
          → (ltb i q.retries || q.reproducible) ≡ b
          → (i < q.retries
              → Silent {v = v} {q = q} output (
                  after_round v q
                    (loop v q n)
                    (round v q (waiting id broken output faults retry sent pool i))))
          → Silent {v = v} {q = q} output (elim b [
            | true ↦
                after_round v q
                  (loop v q n)
                  (round v q (waiting id broken output faults retry sent pool i))
            | false ↦ finished (waiting id broken output faults retry sent pool i)
          ])
      go true e h' = h' (below i q.retries q.reproducible once e)
      go false e h' = refl
