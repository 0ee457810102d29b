-- ===== src/Runner/Checks.antt =====
-- Concrete runs of the runner.
use magent.Prelude.{
  ℕ, zero, suc, ◌+◌, ◌*◌, discard, max, ◌≡◌, refl, Bool, false, none, some, List, [], ◌∷◌, ◌++◌,
  map, reverse, ap, arith, length, take, Text, codes, ltb, same_text, lookup, is_some, has_text,
}
use magent.Prelude.Exec.{return}
use magent.Json.{null, str}
use magent.Runner.Objects.{Obj, plain, object, getattr, attr, no_attrs, delta_event}
use magent.Runner.Sessions.{Setup, Sessions}
use magent.Runner.Lru.{recent, serve_all, sessions_recent}
use magent.Runner.Step.{Env, ToolState}
use magent.Runner.Queues.{ToolItem, call, output_of, IsUnique, handle_all}
use magent.Runner.Lifecycle.{no_calls, tools_fifo}
use magent.Runner.Events.{map_event, map_raw_response_event}
use magent.Runner.Stream.{Turn, sdk_event, get, exhausted, finished, blocked, maxsize, stream_run}
use magent.Runner.Streamed.{events_of, synth_output}
use magent.Runner.Delivery.{stream_run_delivers}
use magent.Runner.Stalled.{undisturbed, stream_run_stalls}

-- A world that counts the ids and the readings of the clock.
abbrev setup : Setup ℕ ℕ
setup = record {
  cls = some (λ c path w. (return w, suc w));
  sqlite_path = [];
  exists = λ path w. false;
  makedirs = λ path w. (return tt, w);
  session_limit = 2;
}

abbrev empty_sessions : Sessions ℕ ℕ
empty_sessions = record { world = 0; sessions = []; session_order = [] }

abbrev three_calls : List Text
three_calls = codes "a" ∷ codes "c" ∷ codes "b" ∷ codes "a" ∷ []

sessions_recent_example :
    ((serve_all setup three_calls empty_sessions).session_order
      ≡ reverse (take (max 1 2) (recent three_calls)))
    × ((c : Text)
        → is_some (lookup c (serve_all setup three_calls empty_sessions).sessions)
          ≡ has_text c (serve_all setup three_calls empty_sessions).session_order)
    × (length (serve_all setup three_calls empty_sessions).sessions
        ≡ length (serve_all setup three_calls empty_sessions).session_order)
sessions_recent_example = sessions_recent setup three_calls empty_sessions refl refl

recent_test : recent three_calls ≡ codes "a" ∷ codes "c" ∷ codes "b" ∷ []
unfolding recent same_text discard
recent_test = refl

-- An id of `n` characters is the `n`-th.
abbrev ticks : ℕ → Text
ticks zero = []
ticks (suc n) = b'x' ∷ ticks n

abbrev env : Env ℕ
env = record {
  uuid4_hex = λ w. (ticks w, suc w);
  perf_counter_ns = λ w. (w * 1000000, w);
  show = λ value. codes "object";
  lower = λ s. s;
  json_loads = λ s. none;
}

length-ticks : (n : ℕ) → length (ticks n) ≡ n
length-ticks zero = refl
length-ticks (suc n) = omega (arith, length-ticks n)

abbrev issued : ℕ → Text → Bool
issued w t = ltb (length t) w

issued-IsUnique : IsUnique env issued
issued-IsUnique = record {
  fresh = λ w. ground (arith, length-ticks w);
  given = λ w. ground (arith, length-ticks w);
  uuid_keeps = λ w t h. ground (arith, h);
  clock_keeps = λ w t h. h;
}

abbrev no_tools : ToolState ℕ
no_tools = record { world = 5; tool_start_ns = []; tool_name_by_id = []; pending_tool_ids = [] }

-- Two calls of one conversation, one of another, and their outputs.
abbrev items : List (Text × ToolItem)
items =
    (codes "a", call (some (codes "ls")) (plain null))
    ∷ (codes "a", call none (plain null))
    ∷ (codes "b", call (some (codes "cat")) (plain null))
    ∷ (codes "a", output_of none (plain (str (codes "out"))) (plain null))
    ∷ (codes "b", output_of none (plain null) (plain null))
    ∷ (codes "a", output_of (some (codes "grep")) (plain null) (plain null))
    ∷ (codes "b", output_of none (plain null) (plain null))
    ∷ []

tools_fifo_example :
    (handle_all env items no_tools).0 ≡ (magent.Runner.Queues.serve_all env items 5 no_calls).0
tools_fifo_example = tools_fifo env issued issued-IsUnique items no_tools refl

abbrev delta : Text → Obj
delta text = object (
    attr (codes "type") (plain (str (codes "raw_response_event"))) (
      attr (codes "data") (delta_event (attr (codes "delta") (plain (str text)) no_attrs))
        no_attrs))

abbrev turns : List Turn
turns = sdk_event (delta (codes "Hel")) (1 ∷ []) ∷ get ∷ sdk_event (delta (codes "lo")) [] ∷ []

length-turns : length (events_of env (codes "a") turns 0 no_tools) ≡ 2
unfolding events_of map_event map_raw_response_event same_text getattr
length-turns = refl

stream_run_delivers_example :
    stream_run env (codes "a") turns exhausted 1 no_tools
    ≡ finished (
        events_of env (codes "a") turns 0 no_tools
        ++ synth_output (codes "a") exhausted (events_of env (codes "a") turns 0 no_tools))
stream_run_delivers_example =
    stream_run_delivers env (codes "a") turns exhausted 1 no_tools (omega (arith, length-turns))

-- As many deltas of one character as are asked for.
abbrev deltas : ℕ → List Obj
deltas zero = []
deltas (suc n) = delta (codes "x") ∷ deltas n

length-deltas :
    (n index : ℕ)
    → length (events_of env (codes "a") (map undisturbed (deltas n)) index no_tools) ≡ n
unfolding events_of map_event map_raw_response_event same_text getattr
length-deltas zero index = refl
length-deltas (suc n) index = ap suc (length-deltas n (index + 1))

stream_run_stalls_example :
    stream_run env (codes "a") (map undisturbed (deltas 1030)) exhausted 0 no_tools
    ≡ blocked (take maxsize (events_of env (codes "a") (map undisturbed (deltas 1030)) 0 no_tools))
stream_run_stalls_example =
    stream_run_stalls env (codes "a") (deltas 1030) exhausted no_tools
      (omega (arith, length-deltas 1030 0))
