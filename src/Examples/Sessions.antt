-- ===== src/Examples/Sessions.antt =====
-- Messages, responses and requests: the functions of src/commands/io/ at concrete inputs.
use reql.Base.{
  List, ◌⊎◌, Text, starts_with, ℕ, codes, ◌==◌, true, false, Option, none, some, ◌≡◌, refl, inl, [],
  ◌∷◌, ◌++◌, arith, if◌then◌else◌,
}
use reql.Errors.{ok, err, runtime, user}
use reql.Proto.{new_term}
use reql.Types.Value.{Value, array, string, a_value, no_values}
use reql.Io.Frame.{Session, write_query, read_query, wrap_query, QueryType}
use reql.Io.Frame.RoundTrip.{frame, read_query-frame}
use reql.Io.Frame.Effects.{Marks, Marks_lem}
use reql.Io.Response.{
  Item, Decoder, ResponseType, ErrorType, ReqlResponse, Running, classify, decode,
}
use reql.Io.Submit.Endless.{rounds, timeout, loop-endless}
use reql.Io.Submit.{unfinished, Loop, Env, Request, submit, loop}
use reql.Io.Submit.Answer
use reql.Io.Submit.Silence.{Silent, waiting, loop-Silent}
use reql.Io.Submit.Attempts.{EndsWell, submit-EndsWell}
use reql.Examples.Queries.{formats}

-- The response to another query's token is read as well.
read_query-frame_example :
    read_query (record {
      id = 7;
      broken = false;
      stream = record { input = frame 9 (codes "{}") ++ 1 ∷ []; output = []; faults = [] };
    })
    ≡ (
      ok (codes "{}"),
      record {
        id = 7;
        broken = false;
        stream = record { input = 1 ∷ []; output = []; faults = [] };
      },
    )
read_query-frame_example = read_query-frame 7 9 false (codes "{}") (1 ∷ []) [] [] (omega arith)

Marks_lem_example : Marks (write_query (codes "[2]")) × Marks read_query
Marks_lem_example = Marks_lem (codes "[2]")

abbrev types : ℕ → Option ResponseType
types n =
    if n == 1
    then some ResponseType.success_atom
    else if n == 3
    then some ResponseType.success_partial
    else if n == 18
    then some ResponseType.runtime_error
    else none

abbrev errors : ℕ → Option ErrorType
errors n = if n == 4 then some ErrorType.user_error else none

abbrev pub null_response : ReqlResponse
null_response = record { t = 1; e = none; r = Value.null }

abbrev pub decoder : Decoder ℕ
decoder = record {
  response_type = types;
  error_type = errors;
  parse_response = λ bytes. inl null_response;
  as_item = λ v. none;
  as_items = λ v. none;
  as_values = λ v. none;
}

abbrev user_response : ReqlResponse
user_response = record { t = 18; e = some 4; r = array (a_value (string (codes "no")) no_values) }

user_response_error : classify decoder user_response ≡ err (runtime (user (codes "no")))
unfolding classify
user_response_error = refl

abbrev pub env : Env ℕ
env = record { decoder = decoder; formats = formats; query_value = λ t. 1; description = λ e. [] }

abbrev answered : Session
answered = record {
  id = 0;
  broken = false;
  stream = record { input = frame 1 (codes "{}"); output = []; faults = [] };
}

abbrev running : Running ℕ
running = record { conn = answered; write = true; retry = false; sent = [] }

abbrev request : Request
request = record { term = new_term; opts = new_term; retries = 5; reproducible = false }

submit-EndsWell_example : EndsWell env request (submit env request 6 (inl answered ∷ []))
submit-EndsWell_example =
    submit-EndsWell env request refl (omega arith) 6 (inl answered ∷ []) (omega arith) (omega arith)

abbrev kept_up : Request
kept_up = record request { reproducible = true }

abbrev idle : Loop ℕ
idle = record { running = running; pool = []; i = 3; connect = true }

loop-endless_example :
    (loop env kept_up 9 idle ≡ unfinished)
    × (s : Loop ℕ) × (rounds env kept_up refl 9 idle ≡ some s)
    × (s.i ≡ 12)
    × (errors : List (Item ℕ)) × (s.running.sent ≡ [] ++ errors)
    × ((errors ≡ []) ⊎ (errors ≡ err timeout ∷ []))
loop-endless_example = loop-endless env kept_up refl 9 idle (refl, refl) (omega arith)

loop-Silent_example :
    Silent {v = env} {q = request}
      (codes "sent")
      (loop env request 6 (waiting 1 false (codes "sent") [] false [] [] 0))
unfolding starts_with
loop-Silent_example =
    loop-Silent env request refl (omega arith) refl 6 1 false (codes "sent") [] false [] [] 0
      (omega arith) (omega arith)

abbrev query : Text
query = wrap_query (λ t. 1) QueryType.start (some []) none

pub null_decoded : decode decoder (codes "{}") ≡ ok (null_response, ResponseType.success_atom)
unfolding decode classify
null_decoded = refl
