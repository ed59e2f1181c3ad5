-- ===== src/Commands/Closure.antt =====
-- The macros `var!` and `func!` of src/macros.rs, which turn a closure into a FUNC term.
-- `none` is the panic of `unwrap`.
use reql.Base.{ℕ, Option, none, some, ◌>>=◌, ◌≡◌, refl, List, [], ◌∷◌, map, >>=-eq-some}
use reql.Errors.{Result, ok, err}
use reql.Proto.{
  Formats, Datums, no_datums, a_datum, Term, Terms, term, no_terms, a_term, no_pairs, make_array,
  var, func, args_of, take_datum,
}
use reql.Types.FromJson.{num_datum, array_datum, datum_term}
use reql.Types.Json.{Jsons, int, float, arr, nil, cons}
use reql.Types.Wire.{not_empty, wire, wire_datum, wire_datums}
use reql.Types.Correct.{+++-nil}
use reql.Commands.Client.{Client, new_client}

abbrev pub append_datums : Datums → Datums → Datums
append_datums no_datums es = es
append_datums (a_datum d ds) es = a_datum d (append_datums ds es)

-- `for t in id.term().unwrap().get_args() { ids.push(t.get_datum().clone()) }`
abbrev pub datums_of : Terms → Datums
datums_of no_terms = no_datums
datums_of (a_term t ts) = a_datum (take_datum t) (datums_of ts)

abbrev pub unwrap : Result Term → Option Term
unwrap (ok t) = some t
unwrap (err e) = none

abbrev pub collect_ids : List Client → Option Datums
collect_ids [] = some no_datums
collect_ids (v ∷ vs) = do
  t ← unwrap v.term
  ids ← collect_ids vs
  some (append_datums (datums_of (args_of t)) ids)

abbrev pub close : Datums → Result Term → Result Term
close ids (ok res) =
    ok
      (term (some func) none (a_term (datum_term (array_datum ids)) (a_term res no_terms)) no_pairs)
close ids (err e) = err e

-- `func!((f), v, …)`: the closure is called on the variables, whose numbers are collected.
unfoldable pub make_func : (List Client → Client) → List Client → Option Client
unfolding new_client
make_func body vars = do
  ids ← collect_ids vars
  some (record new_client { term = close ids (body vars).term })

module _ (f : Formats) where
  -- `var!(i)`
  unfoldable pub make_var : ℕ → Client
  unfolding new_client
  make_var i = record new_client {
    term =
        ok (term (some var) none (a_term (datum_term (num_datum (f.f64_of i))) no_terms) no_pairs);
  }

  -- The call that `args!` writes for a closure whose parameters stand at the tokens `is`.
  abbrev pub lambda : List ℕ → (List Client → Client) → Option Client
  lambda is body = make_func body (map make_var is)

  -- The numbers of the variables, as JSON and as data.
  unfoldable pub numbers : List ℕ → Jsons
  numbers [] = nil
  numbers (i ∷ is) = cons (float (f.f64_of i)) (numbers is)

  ids : List ℕ → Datums
  ids [] = no_datums
  ids (i ∷ is) = a_datum (num_datum (f.f64_of i)) (ids is)

  collect_ids-vars : (is : List ℕ) → collect_ids (map make_var is) ≡ some (ids is)
  unfolding make_var ids
  collect_ids-vars [] = refl
  collect_ids-vars (i ∷ is) = rw (collect_ids-vars is)

  ids-numbers : (is : List ℕ) → wire_datums f (ids is) ≡ some (numbers is)
  unfolding wire_datum ids numbers
  ids-numbers [] = refl
  ids-numbers (i ∷ is) = rw (ids-numbers is)

  -- A closure whose body is a term is written as FUNC of the array of its variables' numbers, in
  -- the order of its parameters, and of the body.
  pub lambda-wire :
      (is : List ℕ) (body : List Client → Client) (r : Term) (js : Jsons)
      → (body (map make_var is)).term ≡ ok r
      → (wire f r >>= not_empty) ≡ some js
      → (c : Client) × (lambda is body ≡ some c)
        × (t : Term) × (c.term ≡ ok t)
        × (wire f t
            ≡ some (
                cons
                  (arr (
                    cons (int (f.term_value func)) (
                      cons
                        (arr (
                          cons
                            (arr
                              (cons (int (f.term_value make_array)) (cons (arr (numbers is)) nil)))
                            js))
                        nil)))
                  nil))
  unfolding make_func wire wire_datum numbers
  lambda-wire is body r js h w =
      let (own, e, e') = >>=-eq-some (wire f r) _ w in
      let t =
        term (some func) none (a_term (datum_term (array_datum (ids is))) (a_term r no_terms))
          no_pairs in
      (
        record new_client { term = ok t },
        rw (collect_ids-vars is, h),
        t,
        refl,
        rw (ids-numbers is, e, e', +++-nil js),
      )
