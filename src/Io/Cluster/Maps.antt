-- ===== src/Io/Cluster/Maps.antt =====
-- Maps: the association lists that stand for `OrderMap` with text keys, whose order counts, and
-- functions for the maps that are only read at a key.
use reql.Base.{
  ℕ, Text, text_eq, text_eq_iff, ◌==◌, ==_iff, Bool-cases, true, false, Option, none, some, List,
  [], ◌∷◌, ◌≡◌, refl, inl, inr, if◌then◌else◌,
}

abbrev pub OrderMap : Type 0 → Type 0
OrderMap A = List (Text × A)

text_eq_refl : (s : Text) → text_eq s s ≡ true
text_eq_refl s = (text_eq_iff s s).1 refl

module _ {A : Type 0} where
  unfoldable pub lookup : Text → OrderMap A → Option A
  lookup key [] = none
  lookup key ((k, a) ∷ kas) = let rest = lookup key kas in if text_eq k key then some a else rest

  -- A new key goes to the end, a known one keeps its place.
  unfoldable pub insert : Text → A → OrderMap A → OrderMap A
  insert key a [] = (key, a) ∷ []
  insert key a ((k, b) ∷ kbs) =
      let rest = insert key a kbs in if text_eq k key then (k, a) ∷ kbs else (k, b) ∷ rest

  -- `remove` puts the last pair in the place of the removed one.
  abbrev pub to_front : OrderMap A → OrderMap A
  to_front [] = []
  to_front (p ∷ []) = p ∷ []
  to_front (p ∷ q ∷ ps) = elim (to_front (q ∷ ps)) [ [] ↦ p ∷ [] | l ∷ rest ↦ l ∷ p ∷ rest ]

  unfoldable pub remove : Text → OrderMap A → OrderMap A
  remove key [] = []
  remove key ((k, a) ∷ kas) =
      let rest = remove key kas in if text_eq k key then to_front kas else (k, a) ∷ rest

  unfoldable pub assign : ℕ → A → (ℕ → Option A) → ℕ → Option A
  assign key a m k = if k == key then some a else m k

  pub lookup-insert : (key : Text) (a : A) (m : OrderMap A) → lookup key (insert key a m) ≡ some a
  unfolding lookup insert
  lookup-insert key a [] = rw (text_eq_refl key)
  lookup-insert key a ((k, b) ∷ kbs) = elim (Bool-cases (text_eq k key)) [
    | inl e ↦ rw (e, e)
    | inr e ↦ rw (e, e) (lookup-insert key a kbs)
  ]

  -- What is not asked for stays as it is.
  pub lookup-insert_other :
      (key other : Text) (a : A) (m : OrderMap A)
      → text_eq key other ≡ false
      → lookup other (insert key a m) ≡ lookup other m
  unfolding lookup insert
  lookup-insert_other key other a [] h = rw h refl
  lookup-insert_other key other a ((k, b) ∷ kbs) h = elim (Bool-cases (text_eq k key)) [
    | inl e ↦ rw e (same_head k ((text_eq_iff k key).0 e))
    | inr e ↦ rw (e, lookup-insert_other key other a kbs h) refl
  ]
    where
      same_head :
          (j : Text)
          → j ≡ key
          → (if text_eq j other then some a else lookup other kbs)
            ≡ (if text_eq j other then some b else lookup other kbs)
      same_head j q = rw (q, h) refl

  pub assign-same : (key : ℕ) (a : A) (m : ℕ → Option A) → assign key a m key ≡ some a
  unfolding assign
  assign-same key a m = rw ((==_iff key key).1 refl)
