-- ===== src/Io/Frame/RoundTrip.antt =====
-- What `write_query` sends is what `read_query` reads.
use reql.Base.{
  leb, Bool-cases, inl, inr, ap, ℕ, ◌%◌, ◌^◌, ◌<◌, Text, length, length-append, take-append,
  drop-append, Bool, Option, List, [], ◌++◌, ◌≡◌, refl, arith, append_assoc, append-nil,
}
use reql.Errors.{ok}
use reql.Io.Bytes.{le_bytes, length-le_bytes, le_value-le_bytes, span}
use reql.Io.Stream.{write, read}
use reql.Io.Frame.{Session, write_query, read_query}

-- A message: its token, its length and its bytes.
unfoldable pub frame : ℕ → Text → Text
frame token body = le_bytes 8 token ++ (le_bytes 4 (length body) ++ body)

-- A session whose calls do not fail.
abbrev pub sound : ℕ → Bool → Text → Text → Session
sound id broken input output = record {
  id = id;
  broken = broken;
  stream = record { input = input; output = output; faults = [] };
}

frame_text :
    (out a q : Text) (n : ℕ)
    → n < 2 ^ 32
    → (((out ++ a) ++ le_bytes 4 (n % 2 ^ 32)) ++ q) ++ [] ≡ out ++ (a ++ (le_bytes 4 n ++ q))
frame_text out a q n h =
    let e : n % 2 ^ 32 ≡ n = omega arith in rw e (simp (append_assoc, append-nil))

-- With no fault, `write_query` appends the frame of the session's token and changes nothing else.
pub write_query-frame :
    (id : ℕ) (broken : Bool) (input output query : Text)
    → length query < 2 ^ 32
    → write_query query (sound id broken input output)
      ≡ (ok tt, sound id broken input (output ++ frame id query))
unfolding write_query write frame
write_query-frame id broken input output query fits =
    ap (λ out. (ok tt, sound id broken input out))
      (frame_text output (le_bytes 8 id) query (length query) fits)

read-append :
    (bytes rest output : Text) (faults : List (Option Text)) (n : ℕ)
    → length bytes ≡ n
    → read (record { input = bytes ++ rest; output = output; faults = faults }) n
      ≡ (ok bytes, record { input = rest; output = output; faults = faults })
unfolding read
read-append bytes rest output faults n h = elim (Bool-cases (leb n (length (bytes ++ rest)))) [
  | inl e ↦ rw (e, ← h, take-append, drop-append)
  | inr e ↦ absurd (ground (arith, length-append bytes rest))
]

-- Whatever its token, a frame at the front of the input is read as its bytes, and what follows it
-- is left.
pub read_query-frame :
    (id token : ℕ) (broken : Bool) (body rest output : Text) (faults : List (Option Text))
    → length body < 2 ^ 32
    → read_query (record {
      id = id;
      broken = broken;
      stream = record { input = frame token body ++ rest; output = output; faults = faults };
    })
      ≡ (
        ok body,
        record {
          id = id;
          broken = broken;
          stream = record { input = rest; output = output; faults = faults };
        },
      )
unfolding read_query frame
read_query-frame id token broken body rest output faults fits = rw (
  append_assoc,
  read-append (le_bytes 8 token) ((le_bytes 4 (length body) ++ body) ++ rest) output faults 8
      (length-le_bytes 8 token),
  append_assoc,
  read-append (le_bytes 4 (length body)) (body ++ rest) output faults 4
      (length-le_bytes 4 (length body)),
  le_value-le_bytes 4 (length body) (unfold span in fits),
  read-append body rest output faults (length body) refl,
)
