-- ===== src/Programs/Printed.antt =====
-- What the programs of examples/ print of what the thread of a request sends.
use reql.Base.{false, Text, Option, List, [], ◌∷◌, ◌++◌, map, ◌⊎◌, inl, inr, ◌≡◌, refl, ap, ◌∙◌}
use reql.Errors.{Error, ok, err}
use reql.Io.Response.{Document, Item}
use reql.Io.Calls.{closed, message, Response, poll}
use reql.Programs.{each_result}
use reql.Programs.Futures.{Streams, Line, Results, IsStreams}

-- The channel of a thread that has sent `items` and is done.
abbrev pub sent_all : {T : Type 0} → List (Item T) → Response T
sent_all items = record { done = false; rx = map message items ++ (closed ∷ []) }

abbrev pub as_result : {T : Type 0} → Item T → Option (Document T) ⊎ Error
as_result (ok d) = inl d
as_result (err e) = inr e

abbrev quiet : {T : Type 0} → Item T → Line (Option (Document T)) Error
quiet item = ([], as_result item)

-- The lines of the items, one after the other.
unfoldable pub lines_of :
    {T : Type 0} → (Option (Document T) ⊎ Error → List Text) → List (Item T) → List Text
lines_of body [] = []
lines_of body (item ∷ items) = body (as_result item) ++ lines_of body items

module _ {T : Type 0} (s : Streams T) (laws : IsStreams s) where
  wait-items : (items : List (Item T)) → s.wait (s.of_response (sent_all items)) ≡ map quiet items
  unfolding poll
  wait-items [] = laws.waits (sent_all [])
  wait-items (ok d ∷ items) =
      laws.waits (sent_all (ok d ∷ items))
      ∙ ap (λ (rest : Results T). ([], inl d) ∷ rest) (wait-items items)
  wait-items (err e ∷ items) =
      laws.waits (sent_all (err e ∷ items))
      ∙ ap (λ (rest : Results T). ([], inr e) ∷ rest) (wait-items items)

  each_result-quiet :
      (body : Option (Document T) ⊎ Error → List Text) (items : List (Item T))
      → each_result body (map quiet items) ≡ lines_of body items
  unfolding each_result lines_of
  each_result-quiet body [] = refl
  each_result-quiet body (item ∷ items) =
      ap (λ (ls : List Text). body (as_result item) ++ ls) (each_result-quiet body items)

  -- A loop over the results prints the lines of what was sent, in order, and ends.
  pub each_result-sent_all :
      (body : Option (Document T) ⊎ Error → List Text) (items : List (Item T))
      → each_result body (s.wait (s.of_response (sent_all items))) ≡ lines_of body items
  each_result-sent_all body items =
      ap (each_result body) (wait-items items) ∙ each_result-quiet body items
