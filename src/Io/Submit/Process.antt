-- ===== src/Io/Submit/Process.antt =====
-- `process` reads to the end of an answer, and sends documents only.
use reql.Base.{
  ℕ, zero, suc, ◌+◌, ◌≤◌, ◌<◌, Text, length, Bool, true, false, Option, none, some, List, [], ◌∷◌,
  ◌++◌, map, All, ◌≡◌, refl, arith,
}
use reql.Errors.{Result, ok, err}
use reql.Types.Value.{Value}
use reql.Io.Frame.{Session, QueryType, read_query, write_query, wrap_query}
use reql.Io.Frame.Effects.{Took, read_query-Took, write_query-input}
use reql.Io.Response.{
  Decoder, Item, Running, ReqlResponse, ResponseType, raw_item, deliver_values, deliver_items,
  deliver_item, deliver, decode, handle, handle_decoded, handle_read,
}
use reql.Io.Submit.{Env, Processed, process, after_handle, asked, flagged}

-- An item that is no error.
abbrev pub IsOk {ℓ} : {A : Type ℓ} → Result A → Type 0
IsOk (ok a) = Unit
IsOk (err e) = ⊥

abbrev pub AllOk : {T : Type 0} → List (Item T) → Type 0
AllOk = All IsOk

pub AllOk-append : {T : Type 0} (xs ys : List (Item T)) → AllOk xs → AllOk ys → AllOk (xs ++ ys)
AllOk-append [] ys h h' = h'
AllOk-append (x ∷ xs) ys h h' = (h.0, AllOk-append xs ys h.1 h')

AllOk-map :
    {A T : Type 0} (g : A → Item T) → ((a : A) → IsOk (g a)) → (xs : List A) → AllOk (map g xs)
AllOk-map g h [] = tt
AllOk-map g h (x ∷ xs) = (h x, AllOk-map g h xs)

module _ {T : Type 0} (d : Decoder T) where
  raw_item-IsOk : (r : Value) → IsOk (raw_item {T = T} r)
  raw_item-IsOk Value.null = tt
  raw_item-IsOk _ = tt

  deliver_values-AllOk : (r : Value) (o : Option (List Value)) → AllOk (deliver_values d r o)
  deliver_values-AllOk r none = (raw_item-IsOk r, tt)
  deliver_values-AllOk r (some vs) = AllOk-map raw_item raw_item-IsOk vs

  deliver_items-AllOk : (r : Value) (o : Option (List T)) → AllOk (deliver_items d r o)
  deliver_items-AllOk r none = deliver_values-AllOk r (d.as_values r)
  deliver_items-AllOk r (some xs) = AllOk-map _ (λ _. tt) xs

  deliver_item-AllOk : (r : Value) (o : Option T) → AllOk (deliver_item d r o)
  deliver_item-AllOk r none = deliver_items-AllOk r (d.as_items r)
  deliver_item-AllOk r (some x) = (tt, tt)

  deliver-AllOk : (r : Value) → AllOk (deliver d r)
  unfolding deliver
  deliver-AllOk r = deliver_item-AllOk r (d.as_item r)

  -- After a response that is no error twelve bytes of the input are gone; all that was sent is ok.
  abbrev Handled : ℕ → Result (Option ResponseType) × Running T → Type 0
  Handled before (ok t, s) = (length s.conn.stream.input + 12 ≤ before) × AllOk s.sent
  Handled before (err e, s) = AllOk s.sent

  handle_decoded-Handled :
      (before : ℕ) (s : Running T) (r : Result (ReqlResponse × ResponseType))
      → length s.conn.stream.input + 12 ≤ before
      → AllOk s.sent
      → Handled before (handle_decoded d s r)
  handle_decoded-Handled before s (ok (resp, t)) h a =
      (h, AllOk-append s.sent (deliver d resp.r) a (deliver-AllOk resp.r))
  handle_decoded-Handled before s (err e) h a = a

  handle_read-Handled :
      (before : ℕ) (s : Running T) (r : Result Text) (c : Session)
      → Took 12 before (r, c)
      → AllOk s.sent
      → Handled before (handle_read d s (r, c))
  handle_read-Handled before s (ok bytes) c t a =
      handle_decoded-Handled before (record s { conn = c; retry = false }) (decode d bytes) t a
  handle_read-Handled before s (err e) c t a = a

  handle-Handled :
      (s : Running T) → AllOk s.sent → Handled (length s.conn.stream.input) (handle d s)
  unfolding handle
  handle-Handled s a =
      handle_read-Handled (length s.conn.stream.input) s (read_query s.conn).0 (read_query s.conn).1
        (read_query-Took s.conn) a

module _ {T : Type 0} (v : Env T) where
  -- The fuel was enough, and all that was sent is ok.
  abbrev pub Settled : Processed v → Type 0
  Settled none = ⊥
  Settled (some (r, s)) = AllOk s.sent

  flagged-sent : (s : Running T) (b : Bool) → (flagged v s b).sent ≡ s.sent
  flagged-sent s true = refl
  flagged-sent s false = refl

  abbrev Goes : ℕ → (Running T → Processed v) → Type 0
  Goes n rec = (s : Running T) → length s.conn.stream.input < n → AllOk s.sent → Settled (rec s)

  asked-Settled :
      (n : ℕ) (rec : Running T → Processed v) (s : Running T) (r : Result (Unit {0})) (c : Session)
      → Goes n rec
      → length c.stream.input < n
      → AllOk s.sent
      → Settled (asked v rec s (r, c))
  asked-Settled n rec s (ok u) c g h a = g (record s { conn = c }) h a
  asked-Settled n rec s (err e) c g h a = a

  after_handle-Settled :
      (n before : ℕ) (rec : Running T → Processed v) (r : Result (Option ResponseType))
      (s : Running T)
      → Goes n rec
      → before < suc n
      → Handled v.decoder before (r, s)
      → Settled (after_handle v rec (r, s))
  after_handle-Settled n before rec (ok (some ResponseType.success_partial)) s g h k =
      let query = wrap_query v.query_value QueryType.continue_ none none in
      let same = write_query-input query s.conn in
      asked-Settled n rec s (write_query query s.conn).0 (write_query query s.conn).1 g
        (rw same (omega arith)) k.1
  after_handle-Settled n before rec (ok (some t)) s g h k = k.1
  after_handle-Settled n before rec (ok none) s g h k = k.1
  after_handle-Settled n before rec (err e) s g h k = rw flagged-sent k

  process-Goes : (n : ℕ) → Goes n (process v n)
  unfolding process
  process-Goes zero s h a = absurd (omega arith)
  process-Goes (suc n) s h a =
      let s' = record s { retry = false; write = false } in
      after_handle-Settled n (length s.conn.stream.input) (process v n) (handle v.decoder s').0
        (handle v.decoder s').1 (process-Goes n) h (handle-Handled v.decoder s' a)

  -- With fuel above the length of what the server has sent, `process` ends; if no error had been
  -- sent to the caller before, none has been sent after.
  pub process-Settled :
      (n : ℕ) (s : Running T)
      → length s.conn.stream.input < n
      → AllOk s.sent
      → Settled (process v n s)
  process-Settled = process-Goes
