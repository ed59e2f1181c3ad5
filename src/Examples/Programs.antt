-- ===== src/Examples/Programs.antt =====
-- The programs of examples/ at concrete inputs.
use reql.Base.{
  if◌then◌else◌, Bool, ℕ, Text, codes, show, false, true, Option, none, some, List, [], ◌∷◌, ◌++◌,
  map, ◌⊎◌, inl, inr, ◌≡◌, refl, trim_right, join, text_eq,
}
use reql.Errors.{Result, ok, err, from_driver, other}
use reql.Types.Encode.{encode, encode_datum}
use reql.Io.Frame.{Session}
use reql.Io.Frame.RoundTrip.{frame, sound}
use reql.Io.Cluster.{Config, World, default_opts, set_latency, measure_all, measure}
use reql.Io.Cluster.Settings.{
  set_config, read_config, apply_options, apply_option, find_servers, find_datum,
}
use reql.Io.Cluster.Maps.{insert, assign}
use reql.Io.Submit.{Ended, finished, submit}
use reql.Io.Calls.{
  RxPoll, empty, closed, broken, message, Response, poll, poll_with, Started, connect,
}
use reql.Commands.Arg.{Arg, of_handle, add_arg, add_opt, create_term_pair}
use reql.Commands.Client.{Client, new_client, with_logger, make_cmd}
use reql.Commands.Methods.Queries
use reql.Commands.Closure.{lambda, make_var, make_func}
use reql.Programs.Sums.{sequence, add_all, client_arg, sum_text, sum_args}
use reql.Types.FromJson.{from_json}
use reql.Proto.{Term}
use reql.Programs.{Setting}
use reql.Programs.Futures.{Line, Results, Streams, IsStreams, then_item, else_error, after_poll}
use reql.Programs.Printed.{sent_all, as_result}
use reql.Programs.ServerTable.{local_server, blocking, minimal}
use reql.Programs.Arguments.{sum_tokens, call_text, Builds, sum_args-Builds}
use reql.Derive.Tokens.{ident, brace, token, delimited, Trees, no_trees, a_tree}
use reql.Derive.Emit.{Lambda, lambda_from}
use reql.Programs.Alike.{minimal-blocking}
use reql.Examples.Queries.{formats}
use reql.Examples.Calls.{outside}
use reql.Examples.Clusters.{world}
use reql.Examples.Sessions.{env}

-- A stream as its results: what is left of a channel, which is waited for to its end.
drain : {T : Type 0} → Bool → List (RxPoll T) → Results T
drain true rx = []
drain false [] = []
drain false (empty ∷ rx) = drain false rx
drain false (closed ∷ rx) = []
drain false (broken ∷ rx) =
    ([], inr (from_driver (other (codes "an error occured while processing the stream")))) ∷ []
drain false (message item ∷ rx) = ([], as_result item) ∷ drain false rx

drain_lem :
    {T : Type 0} (done : Bool) (rx : List (RxPoll T))
    → drain done rx ≡ after_poll (λ (r : Response T). drain r.done r.rx) (poll_with done rx)
unfolding drain
drain_lem true rx = refl
drain_lem false [] = refl
drain_lem false (empty ∷ rx) = refl
drain_lem false (closed ∷ rx) = refl
drain_lem false (broken ∷ rx) = refl
drain_lem false (message (ok d) ∷ rx) = refl
drain_lem false (message (err e) ∷ rx) = refl

abbrev lists : Streams ℕ
lists = record {
  Stream = λ A E. List (Line A E);
  of_response = λ r. drain r.done r.rx;
  and_then = λ f xs. map (then_item f) xs;
  or_else = λ f xs. map (else_error f) xs;
  wait = λ xs. xs;
}

lists-IsStreams : IsStreams lists
unfolding poll
lists-IsStreams = record {
  waits = λ r. drain_lem r.done r.rx;
  and_thens = λ f x. refl;
  or_elses = λ f x. refl;
}

abbrev sessions : List (Session ⊎ Text)
sessions = inl (sound 0 false (frame 1 (codes "{}") ++ []) []) ∷ []

abbrev answers_of : (s : Started) → Ended env s.request → Response ℕ
answers_of s (finished l) = sent_all l.running.sent
answers_of s _ = sent_all []

abbrev setting : Setting ℕ
setting = record {
  core = some 1;
  outside = outside;
  conn = 2;
  world = world;
  answers = λ s. answers_of s (submit env s.request 6 sessions);
  streams = lists;
  shows = record {
    item = show;
    value = λ v. codes "a value";
    result = λ d. codes "a result";
    error = λ e. codes "an error";
    json = λ v. codes "json";
  };
  stringify = λ s. s;
  formats = formats;
  as_f64 = λ n. some n;
}

minimal-blocking_example : minimal setting ≡ blocking setting
minimal-blocking_example = minimal-blocking setting lists-IsStreams

-- The settings of `connect` with no options, and what it leaves.
abbrev config : Config
config = record { cluster = []; opts = default_opts }

abbrev settled_world : World
settled_world = (connect outside 2 world new_client (of_handle 1)).1

abbrev query : Text
query = codes "[1,[15,[[14,[\"rethinkdb\"]],\"server_status\"]]]"

-- With the server `localhost` among the options `connect` gives a connection as well.
abbrev connected_to : Result ℕ × World → Option ℕ
connected_to (ok conn, w) = some conn
connected_to (err e, w) = none

local_connects :
    connected_to (connect outside 2 world (with_logger new_client []) (local_server setting 1))
    ≡ some 2
unfolding connect new_client with_logger set_config read_config apply_options apply_option
    find_servers set_latency insert measure_all measure add_arg add_opt create_term_pair from_json
    text_eq find_datum assign
local_connects = refl

-- The query of examples/map.rs.
abbrev text_of : Result Term → Option Text
text_of (ok t) = encode formats t
text_of (err e) = none

abbrev sums_text : Option Arg → Option Text
sums_text none = none
sums_text (some arg) = text_of (Queries.map (with_logger new_client []) arg).term

sums_asks :
    sums_text (sum_args setting)
    ≡ some (
        codes "[15,[[2,[100,200,300,400]],[2,[10,20,30,40]],[2,[1,2,3,4]],"
        ++ codes "[69,[[2,[1,2,3]],[24,[[24,[[10,[1]],[10,[2]]]],[10,[3]]]]]]]]")
unfolding make_cmd make_var make_func new_client with_logger encode encode_datum trim_right join
    show add_arg from_json
sums_asks = refl

-- The sequences by their names, and the closure on its variables.
abbrev sequence_of : Text → Arg
sequence_of name =
    if text_eq name (codes "sequence1")
    then sequence setting (100 ∷ 200 ∷ 300 ∷ 400 ∷ [])
    else if text_eq name (codes "sequence2")
    then sequence setting (10 ∷ 20 ∷ 30 ∷ 40 ∷ [])
    else sequence setting (1 ∷ 2 ∷ 3 ∷ 4 ∷ [])

-- A word with `.into_arg()` behind it.
abbrev named : Trees → Option Arg
named (a_tree (token (ident name)) (a_tree dot (a_tree call (a_tree args no_trees)))) =
    some (sequence_of name)
named _ = none

abbrev or_new : Option Client → Client
or_new (some c) = c
or_new none = new_client

abbrev summing : Client
summing = or_new (lambda formats (1 ∷ 2 ∷ 3 ∷ []) add_all)

abbrev summed : Lambda → Option Arg
summed l = some (client_arg summing)

summing_lem : lambda formats (1 ∷ 2 ∷ 3 ∷ []) add_all ≡ some summing
unfolding make_func make_var
summing_lem = refl

sum_args-Builds_example :
    (arg : Arg) × (sum_args setting ≡ some arg)
    × Builds named summed true
        (λ t. [])
        (sum_tokens (delimited brace no_trees))
        (call_text sum_text)
        arg
unfolding lambda_from text_eq
sum_args-Builds_example =
    sum_args-Builds setting named summed true (λ t. []) no_trees summing refl refl refl summing_lem
      refl
