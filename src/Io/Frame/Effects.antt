-- ===== src/Io/Frame/Effects.antt =====
-- What the calls on a session leave alone, and when they mark it as broken.
use reql.Base.{
  ℕ, zero, suc, ◌+◌, ◌≤◌, Text, length, drop, leb, Bool, true, Option, none, some, List, [], ◌∷◌,
  ◌≡◌, refl, ◌∙◌, arith, Bool-cases, inl, inr,
}
use reql.Errors.{Result, ok, err}
use reql.Io.Bytes.{le_value}
use reql.Io.Stream.{Stream, write, read}
use reql.Io.Frame.{
  Session, Act, ◌>>=◌, ◌>>◌, continue, settle, put, get, send, write_query, read_query,
}

-- A call keeps the token; it marks the session as broken if it fails, and only then.
abbrev pub Marked {ℓ} : {A : Type ℓ} → ℕ → Bool → Result A × Session → Type 0
Marked id broken (ok a, c) = (c.id ≡ id) × (c.broken ≡ broken)
Marked id broken (err e, c) = (c.id ≡ id) × (c.broken ≡ true)

pub record Marks {ℓ} {A : Type ℓ} (m : Act A) : Type ℓ where
  pub at : (c : Session) → Marked c.id c.broken (m c)

marks_settle {ℓ} :
    {A : Type ℓ} (c : Session) (r : Result A) (s : Stream) → Marked c.id c.broken (settle c (r, s))
marks_settle c (ok a) s = (refl, refl)
marks_settle c (err e) s = (refl, refl)

Marks-put : (bytes : Text) → Marks (put bytes)
Marks-put bytes = record {
  at = λ c. marks_settle c (write c.stream bytes).0 (write c.stream bytes).1;
}

Marks-get : (n : ℕ) → Marks (get n)
Marks-get n = record { at = λ c. marks_settle c (read c.stream n).0 (read c.stream n).1 }

continue-Marked {ℓ κ} :
    {A : Type ℓ} {B : Type κ} (id : ℕ) (broken : Bool) (r : Result A) (c : Session) (k : A → Act B)
    → Marked id broken (r, c)
    → ((a : A) → Marks (k a))
    → Marked id broken (continue r k c)
continue-Marked id broken (ok a) c k h ks = rw (← h.0, ← h.1) ((ks a).at c)
continue-Marked id broken (err e) c k h ks = h

Marks-bind {ℓ κ} :
    {A : Type ℓ} {B : Type κ} (m : Act A) (k : A → Act B)
    → Marks m
    → ((a : A) → Marks (k a))
    → Marks (m >>= k)
Marks-bind m k h ks = record {
  at = λ c. continue-Marked c.id c.broken (m c).0 (m c).1 k (h.at c) ks;
}

Marks-then {ℓ κ} :
    {A : Type ℓ} {B : Type κ} (m : Act A) (k : Act B) → Marks m → Marks k → Marks (m >> k)
Marks-then m k h h' = Marks-bind m (λ _. k) h (λ _. h')

send-Marks : (token : ℕ) (query : Text) → Marks (send token query)
send-Marks token query =
    Marks-then _ _ (Marks-then _ _ (Marks-then _ _ (Marks-put _) (Marks-put _)) (Marks-put _))
      (Marks-put _)

write_query-Marks : (query : Text) → Marks (write_query query)
unfolding write_query
write_query-Marks query = record { at = λ c. (send-Marks c.id query).at c }

read_query-Marks : Marks read_query
unfolding read_query
read_query-Marks =
    Marks-bind _ _ (Marks-get 8)
      (λ _. Marks-bind _ _ (Marks-get 4) (λ len. Marks-get (le_value len)))

-- `write_query` and `read_query` keep the token. Each marks the session as broken when it fails, and
-- leaves the mark as it was when it succeeds.
pub Marks_lem : (query : Text) → Marks (write_query query) × Marks read_query
Marks_lem query = (write_query-Marks query, read_query-Marks)

-- What has not been read stays where it is.
record KeepsInput {ℓ} {A : Type ℓ} (m : Act A) : Type ℓ where
  at : (c : Session) → (m c).1.stream.input ≡ c.stream.input

KeepsInput-put : (bytes : Text) → KeepsInput (put bytes)
unfolding write
KeepsInput-put bytes = record {
  at = λ c. put_input c.id c.broken c.stream.input c.stream.output c.stream.faults;
}
  where
    put_input :
        (id : ℕ) (broken : Bool) (input output : Text) (faults : List (Option Text))
        → (put bytes (record {
          id = id;
          broken = broken;
          stream = record { input = input; output = output; faults = faults };
        })).1.stream.input
          ≡ input
    put_input id broken input output [] = refl
    put_input id broken input output (none ∷ fs) = refl
    put_input id broken input output (some e ∷ fs) = refl

continue-input {ℓ κ} :
    {A : Type ℓ} {B : Type κ} (r : Result A) (c : Session) (k : Act B)
    → KeepsInput k
    → (continue r (λ _. k) c).1.stream.input ≡ c.stream.input
continue-input (ok a) c k h = h.at c
continue-input (err e) c k h = refl

KeepsInput-then {ℓ κ} :
    {A : Type ℓ} {B : Type κ} (m : Act A) (k : Act B)
    → KeepsInput m
    → KeepsInput k
    → KeepsInput (m >> k)
KeepsInput-then m k h h' = record { at = λ c. continue-input (m c).0 (m c).1 k h' ∙ h.at c }

send-KeepsInput : (token : ℕ) (query : Text) → KeepsInput (send token query)
send-KeepsInput token query =
    KeepsInput-then _ _
      (KeepsInput-then _ _ (KeepsInput-then _ _ (KeepsInput-put _) (KeepsInput-put _))
        (KeepsInput-put _))
      (KeepsInput-put _)

pub write_query-input :
    (query : Text) (c : Session) → (write_query query c).1.stream.input ≡ c.stream.input
unfolding write_query
write_query-input query c = (send-KeepsInput c.id query).at c

length-drop : (n : ℕ) (s : Text) → n ≤ length s → length (drop n s) + n ≡ length s
length-drop zero s h = omega arith
length-drop (suc n) [] h = absurd (omega arith)
length-drop (suc n) (x ∷ s) h = omega (arith, length-drop n s (omega arith))

-- A read that succeeds takes its bytes from the input; one that fails leaves none.
abbrev pub Took {ℓ} : {A : Type ℓ} → ℕ → ℕ → Result A × Session → Type 0
Took n before (ok a, c) = length c.stream.input + n ≤ before
Took n before (err e, c) = length c.stream.input ≤ before

get-Took : (n : ℕ) (c : Session) → Took n (length c.stream.input) (get n c)
unfolding read
get-Took n c = elim (Bool-cases (leb n (length c.stream.input))) [
  | inl enough ↦ rw enough (omega (arith, length-drop n c.stream.input (ground arith)))
  | inr short ↦ rw short (omega arith)
]

Took-add {ℓ} :
    {A : Type ℓ} (between before n m : ℕ) (r : Result A) (c : Session)
    → between + n ≤ before
    → Took m between (r, c)
    → Took (n + m) before (r, c)
Took-add between before n m (ok a) c h t = omega arith
Took-add between before n m (err e) c h t = omega arith

Took-any {ℓ} :
    {A : Type ℓ} (before n : ℕ) (r : Result A) (c : Session)
    → Took n before (r, c)
    → Took 0 before (r, c)
Took-any before n (ok a) c t = omega arith
Took-any before n (err e) c t = t

bind-Took {ℓ κ} :
    {A : Type ℓ} {B : Type κ} (n m before : ℕ) (r : Result A) (c : Session) (k : A → Act B)
    → Took n before (r, c)
    → ((a : A) (c' : Session) → Took m (length c'.stream.input) (k a c'))
    → Took (n + m) before (continue r k c)
bind-Took n m before (ok a) c k h hs =
    Took-add (length c.stream.input) before n m (k a c).0 (k a c).1 h (hs a c)
bind-Took n m before (err e) c k h hs = h

-- A response takes twelve bytes at least.
pub read_query-Took : (c : Session) → Took 12 (length c.stream.input) (read_query c)
unfolding read_query
read_query-Took c =
    bind-Took 8 4 (length c.stream.input) (get 8 c).0 (get 8 c).1 _ (get-Took 8 c) λ _ c'.
      bind-Took 4 0 (length c'.stream.input) (get 4 c').0 (get 4 c').1 _ (get-Took 4 c') λ len c''.
        Took-any (length c''.stream.input) (le_value len) (get (le_value len) c'').0
          (get (le_value len) c'').1 (get-Took (le_value len) c'')
