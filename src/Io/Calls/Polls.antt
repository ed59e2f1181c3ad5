-- ===== src/Io/Calls/Polls.antt =====
-- The stream of a response, read to its end.
use reql.Base.{
  ap, ℕ, zero, suc, true, false, none, some, List, [], ◌∷◌, ◌++◌, map, length, ◌≡◌, refl,
}
use reql.Errors.{ok, err}
use reql.Io.Response.{Item}
use reql.Io.Calls.{RxPoll, closed, message, ready, Answer, Response, as_answer, poll}

module _ {T : Type 0} where
  -- `n` calls of `poll`.
  abbrev pub polls : ℕ → Response T → List (Answer T) × Response T
  polls zero r = ([], r)
  polls (suc n) r = let one = poll r in let rest = polls n one.1 in (one.0 ∷ rest.0, rest.1)

  abbrev pub ends : ℕ → List (Answer T)
  ends zero = []
  ends (suc n) = ok (ready none) ∷ ends n

  abbrev before : Answer T → List (Answer T) × Response T → List (Answer T) × Response T
  before a x = (a ∷ x.0, x.1)

  polls-done :
      (n : ℕ) (rx : List (RxPoll T))
      → polls n (record { done = true; rx = rx }) ≡ (ends n, record { done = true; rx = rx })
  unfolding poll
  polls-done zero rx = refl
  polls-done (suc n) rx = rw (polls-done n rx) refl

  polls-items :
      (items : List (Item T)) (rx : List (RxPoll T))
      → polls (length items) (record { done = false; rx = map message items ++ rx })
        ≡ (map as_answer items, record { done = false; rx = rx })
  unfolding poll
  polls-items [] rx = refl
  polls-items (ok d ∷ items) rx = ap (before (ok (ready (some d)))) (polls-items items rx)
  polls-items (err e ∷ items) rx = ap (before (err e)) (polls-items items rx)

  -- The items of a channel come out in order, an error among them like a document. Once the channel
  -- is closed the end comes out, however often the stream is polled, and the channel is left alone.
  pub polls-drain :
      (items : List (Item T)) (n : ℕ) (rx : List (RxPoll T))
      → (polls (length items) (record { done = false; rx = map message items ++ closed ∷ rx })
          ≡ (map as_answer items, record { done = false; rx = closed ∷ rx }))
        × (polls (suc n) (record { done = false; rx = closed ∷ rx })
            ≡ (ends (suc n), record { done = true; rx = rx }))
  unfolding poll
  polls-drain items n rx =
      (polls-items items (closed ∷ rx), ap (before (ok (ready none))) (polls-done n rx))
