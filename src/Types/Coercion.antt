-- ===== src/Types/Coercion.antt =====
-- When `Term::from_json` succeeds, and with which error it fails.
use reql.Base.{ℕ, Bool, true, false, ◌&&◌, Option, none, some}
use reql.Errors.{Result, ok, err, Error}
use reql.Errors
use reql.Types.Value.{
  Value, Values, Members, null, bool, number, string, array, object, no_values, a_value, no_members,
  member,
}
use reql.Types.FromJson.{from_json, elements_loop, members_loop, number_datum, not_a_double}

module _ (as_f64 : ℕ → Option ℕ) where
  abbrev is_double : Option ℕ → Bool
  is_double none = false
  is_double (some x) = true

  -- Every number of the value is a double.
  unfoldable mutual
    pub coerces : Value → Bool
    coerces (number n) = is_double (as_f64 n)
    coerces (array vs) = all_coerce vs
    coerces (object ms) = members_coerce ms
    coerces (string s) = true
    coerces (bool b) = true
    coerces null = true

    pub all_coerce : Values → Bool
    all_coerce no_values = true
    all_coerce (a_value v vs) = coerces v && all_coerce vs

    pub members_coerce : Members → Bool
    members_coerce no_members = true
    members_coerce (member k v ms) = coerces v && members_coerce ms

  -- What a conversion gives: a value if the numbers are doubles, or else the one error.
  pub data Outcome {A : Type 0} : Bool → Result A → Type 0 where
    made : (a : A) → Outcome true (ok a)
    refused : Outcome false not_a_double

  Outcome-bind :
      {A B C : Type 0} {b c : Bool} {m : Result A} {n : Result B} (g : A → B → C)
      → Outcome b m
      → Outcome c n
      → Outcome (b && c) (Errors.◌>>=◌ m (λ x. Errors.◌>>=◌ n (λ y. ok (g x y))))
  Outcome-bind g (made a) (made b) = made (g a b)
  Outcome-bind g (made a) refused = refused
  Outcome-bind g refused q = refused

  Outcome-map :
      {A C : Type 0} {b : Bool} {m : Result A} (g : A → C)
      → Outcome b m
      → Outcome b (Errors.◌>>=◌ m (λ x. ok (g x)))
  Outcome-map g (made a) = made (g a)
  Outcome-map g refused = refused

  number-Outcome : (o : Option ℕ) → Outcome (is_double o) (number_datum as_f64 o)
  number-Outcome none = refused
  number-Outcome (some x) = made _

  mutual
    unfolding coerces from_json

    from_json-Outcome : (v : Value) → Outcome (coerces v) (from_json as_f64 v)
    from_json-Outcome (number n) = number-Outcome (as_f64 n)
    from_json-Outcome (array vs) = Outcome-map _ (elements-Outcome vs)
    from_json-Outcome (object ms) = Outcome-map _ (members-Outcome ms)
    from_json-Outcome (string s) = made _
    from_json-Outcome (bool b) = made _
    from_json-Outcome null = made _

    elements-Outcome : (vs : Values) → Outcome (all_coerce vs) (elements_loop as_f64 vs)
    elements-Outcome no_values = made _
    elements-Outcome (a_value v vs) = Outcome-bind _ (from_json-Outcome v) (elements-Outcome vs)

    members-Outcome : (ms : Members) → Outcome (members_coerce ms) (members_loop as_f64 ms)
    members-Outcome no_members = made _
    members-Outcome (member k v ms) = Outcome-bind _ (from_json-Outcome v) (members-Outcome ms)

  -- A value converts to a term exactly when all its numbers are doubles; otherwise the error is that
  -- of a number that is none.
  pub from_json-coerces : (v : Value) → Outcome (coerces v) (from_json as_f64 v)
  from_json-coerces = from_json-Outcome
