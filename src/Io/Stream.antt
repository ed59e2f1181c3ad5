-- ===== src/Io/Stream.antt =====
-- The TCP stream of a session, as far as the driver sees it.
-- `input` is what the server sends before the stream ends, `output` what has been written. The
-- outcomes of the writing calls are given: `faults` has one entry for each call to come, `none` if
-- it succeeds; after its end they succeed.
use reql.Base.{
  ℕ, Text, codes, length, take, drop, leb, Option, none, some, List, [], ◌∷◌, ◌++◌, if◌then◌else◌,
}
use reql.Errors.{Result, ok, err, from_io}

pub record Stream : Type 0 where
  pub input : Text
  pub output : Text
  pub faults : List (Option Text)

-- `stream.write_all(bytes)` or a fixed-width write: on an error nothing is known to be written.
abbrev write_outcome : Stream → Text → List (Option Text) → Result (Unit {0}) × Stream
write_outcome s bytes [] = (ok tt, record s { output = s.output ++ bytes })
write_outcome s bytes (none ∷ rest) =
    (ok tt, record s { output = s.output ++ bytes; faults = rest })
write_outcome s bytes (some e ∷ rest) = (err (from_io e), record s { faults = rest })

unfoldable pub write : Stream → Text → Result (Unit {0}) × Stream
write s bytes = write_outcome s bytes s.faults

abbrev pub eof : Text
eof = codes "failed to fill whole buffer"

-- `stream.read_exact` of `n` bytes, and what a fixed-width read reads.
unfoldable pub read : Stream → ℕ → Result Text × Stream
read s n =
    if leb n (length s.input)
    then (ok (take n s.input), record s { input = drop n s.input })
    else (err (from_io eof), record s { input = [] })
