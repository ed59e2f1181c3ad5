-- ===== src/Io/Submit/Written.antt =====
-- The text of a query, and what a reader of JSON sees of it.
use reql.Base.{ℕ, Text, IsSolid, some, [], ◌∷◌, append_assoc, ◌≢◌, ◌≡◌, refl, ap}
use reql.Types.Json.{Json, Jsons, nil, cons, arr, int, ◌+++◌, render, render_items}
use reql.Types.Wire.{wire}
use reql.Types.Render.{render_items-IsSolid}
use reql.Types.Correct.{encode-wire, +++-nil, render_more-append}
use reql.Types.Read.{list, read_json, shape, shapes}
use reql.Types.Read.Strings.{IsWord, IsWord-IsSolid}
use reql.Types.Read.RoundTrip.{read_json-render}
use reql.Io.Frame.{QueryType, wrap_query}
use reql.Io.Submit.{Env, Request, query_text, some_text}

module _ {T : Type 0} (v : Env T) (words : (x : ℕ) → IsWord (v.formats.format_f64 x)) where
  solid : (x : ℕ) → IsSolid 44 (v.formats.format_f64 x)
  solid x = IsWord-IsSolid (v.formats.format_f64 x) (words x)

  some_text-items :
      (q : Request) (j : Json) (js : Jsons)
      → some_text v q (render_items v.formats (cons j js))
        ≡ some (render_items v.formats (cons j js))
  some_text-items q j js = some_text_filled _ (render_items-IsSolid v.formats solid j js).filled
    where
      some_text_filled : (s : Text) → s ≢ [] → some_text v q s ≡ some s
      some_text_filled [] h = absurd (h refl)
      some_text_filled (c ∷ s) h = refl

  -- A query whose term stands for some values is one array: the number of START, the values, and
  -- the options where there are any.
  abbrev query_json : Jsons → Jsons → Json
  query_json js os = arr (cons (int (v.query_value QueryType.start)) (js +++ os))

  wrap_query-items :
      (q : Request) (j : Json) (js os : Jsons)
      → wrap_query v.query_value QueryType.start
          (some (render_items v.formats (cons j js)))
          (some_text v q (render_items v.formats os))
        ≡ render v.formats (query_json (cons j js) os)
  unfolding wrap_query render
  wrap_query-items q j js nil = rw (+++-nil js) (simp append_assoc)
  wrap_query-items q j js (cons o os) =
      rw (some_text-items q o os, render_more-append v.formats js o os) (simp append_assoc)

  -- When the term of a query stands for some values and its options stand for values too, `encode`
  -- and `wrap_query` write a text, and a reader of JSON gets from it one list: the number of START,
  -- the values of the term, and those of the options. Doubles are assumed to be written as words:
  -- not empty, with no comma and no closing bracket or brace in them, and not beginning like a string,
  -- a list or an object.
  pub query_text-read :
      (q : Request) (j : Json) (js os : Jsons)
      → wire v.formats q.term ≡ some (cons j js)
      → wire v.formats q.opts ≡ some os
      → (s : Text) × (query_text v q ≡ some s)
        × (read_json s
            ≡ some (
                list (
                  shapes v.formats
                    (cons (int (v.query_value QueryType.start)) (cons j (js +++ os))))))
  unfolding query_text shape
  query_text-read q j js os h k = (
    render v.formats (query_json (cons j js) os),
    rw (encode-wire v.formats solid q.term (cons j js) h, encode-wire v.formats solid q.opts os k)
        (ap some (wrap_query-items q j js os)),
    read_json-render v.formats words (query_json (cons j js) os),
  )
