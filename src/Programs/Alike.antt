-- ===== src/Programs/Alike.antt =====
-- examples/blocking.rs and examples/minimal.rs, which read the same table in two ways.
use reql.Base.{ℕ, Option, none, some, [], ◌∷◌, map, append_assoc, inl, inr, ◌≡◌, refl, ap}
use reql.Errors.{Error, Result, ok, err}
use reql.Io.Response.{Document}
use reql.Io.Cluster.{World}
use reql.Commands.Arg.{of_handle, of_connection}
use reql.Commands.Client.{new_client}
use reql.Io.Calls.{Started, connect, run}
use reql.Programs.{Ran, printed, Setting, unwrapped, with_core, with_conn, each_result}
use reql.Programs.Futures.{Results, then_item, else_error, IsStreams}
use reql.Programs.ServerTable.{row_line, rows, print_row, print_error, nothing, blocking, minimal}

unwrapped_ext :
    {A : Type 0} (r : Result A) (k k' : A → Ran)
    → ((a : A) → k a ≡ k' a)
    → unwrapped r k ≡ unwrapped r k'
unwrapped_ext (ok a) k k' h = h a
unwrapped_ext (err e) k k' h = refl

module _ {T : Type 0} (m : Setting T) where
  with_core_ext :
      (o : Option ℕ) (k k' : ℕ → Ran) → ((a : ℕ) → k a ≡ k' a) → with_core m o k ≡ with_core m o k'
  with_core_ext none k k' h = refl
  with_core_ext (some a) k k' h = h a

  with_conn_ext :
      (r : Result ℕ × World) (k k' : ℕ → World → Ran)
      → ((c : ℕ) (w : World) → k c w ≡ k' c w)
      → with_conn m r k ≡ with_conn m r k'
  with_conn_ext (ok c, w) k k' h = h c w
  with_conn_ext (err e, w) k k' h = refl

  -- What the closures print of the results is what the loop prints of them.
  closures-loop :
      (xs : Results T)
      → each_result
          (nothing m)
          (map (else_error (print_error m)) (map (then_item (print_row m)) xs))
        ≡ each_result (row_line m) xs
  unfolding each_result
  closures-loop [] = refl
  closures-loop ((said, inl d) ∷ xs) = rw (closures-loop xs) (append_assoc said _ _)
  closures-loop ((said, inr e) ∷ xs) = rw (closures-loop xs) (append_assoc said _ _)

  printed_alike :
      (x : m.streams.Stream (Option (Document T)) Error)
      → IsStreams m.streams
      → printed (
          each_result (nothing m) (
            m.streams.wait
              (m.streams.or_else (print_error m) (m.streams.and_then (print_row m) x))))
        ≡ printed (each_result (row_line m) (m.streams.wait x))
  printed_alike x laws = rw (laws.or_elses, laws.and_thens) (ap printed (closures-loop _))

  -- examples/minimal.rs ends as examples/blocking.rs does, in a panic or with the same lines
  -- printed in the same order, when the streams are what futures says of them.
  pub minimal-blocking : IsStreams m.streams → minimal m ≡ blocking m
  unfolding minimal blocking
  minimal-blocking laws = with_core_ext m.core _ _ λ remote.
      with_conn_ext (connect m.outside m.conn m.world new_client (of_handle remote)) _ _ λ c w.
        unwrapped_ext {A = Started} (run w (rows m new_client) (of_connection c)) _ _
          λ started. printed_alike (m.streams.of_response (m.answers started)) laws
