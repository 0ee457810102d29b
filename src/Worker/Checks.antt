-- ===== src/Worker/Checks.antt =====
-- A worker at work: the theorems at concrete runs.
use magent.Prelude.{
  ℕ, zero, suc, ◌<◌, ◌≢◌, ◌≡◌, refl, arith, true, false, Option, none, some, List, [], ◌∷◌, ◌++◌,
  Text, codes, if◌then◌else◌, same_text,
}
use magent.Prelude.Exec.{Exception, Result, return, raise, timeout_error, value_error, other_error}
use magent.Json.{Value, str, obj, end, field}
use magent.Bus.{BusMessage}
use magent.Worker.{Envelope, yields, ends, Env, Worker}
use magent.Worker.Run.{
  run_and_stream, stream_events, publish_events, maybe_emit_done_signal, run_completed, run_errored,
  count_event,
}
use magent.Worker.Retry.{
  transient, system, classify_exception, classify_message, failed_after_retries,
  run_and_stream_with_retry, attempt_run, note_retry,
}
use magent.Worker.Claims.{
  already_processed, mark_processed, acquire_lock, release_lock, lock_in_memory, unlock_in_memory,
  seen_in_memory, mark_in_memory, seen_of, add_text,
}
use magent.Worker.Drain.{
  process_available, drain_all, drain, visit, visit_validated, visit_envelope, run_locked,
  after_run, finish_drain,
}
use magent.Worker.Attempts.{
  FailsTransiently, before_attempt, soft, last_failure, dead_lettered, retry_recovers,
  retry_exhausts, retry_stops,
}
use magent.Worker.Locks.{process_available-locks}
use magent.Worker.Poison.{process_available_poison}
use magent.Worker.Pass.{PassPost, process_available-Post}

-- The world counts the runs; the messages are what every read returns, and `outcome` says how each
-- run ends.
abbrev invalid : Exception
invalid = record { kind = value_error; message = codes "invalid" }

abbrev validate_payload : Value → Result Envelope
validate_payload (str c) =
    return (record { id = codes "m-" ++ c; conversation_id = c; content = some c; metadata = end })
validate_payload _ = raise invalid

abbrev world_of : List BusMessage → (ℕ → Option Exception) → Env ℕ
world_of messages outcome = record {
  read = λ topic last_id limit n. (return messages, n);
  publish = λ topic payload n. (return tt, n);
  validate = validate_payload;
  dump = λ e. end;
  stream_run = λ e.
      yields (λ n. field (codes "event") (str (codes "output")) end) (λ n. n)
        (λ n. ends (λ n. outcome n) suc);
  client = none;
  record_run_started = λ agent c n. n;
  record_run_completed = λ agent c errored n. n;
  send_done = λ topic n. n;
  auto_signal_done = false;
  lower = λ s. s;
  format_exc = λ exc. exc.message;
}

abbrev timed_out : Exception
timed_out = record { kind = timeout_error; message = codes "timed out" }

abbrev broken : Exception
broken = record { kind = other_error; message = codes "broken" }

abbrev fails_first : ℕ → Option Exception
fails_first zero = some timed_out
fails_first (suc n) = none

abbrev worker : Worker ℕ
worker = record {
  agent_name = codes "dev";
  world = 0;
  last_inbound_id = none;
  processed_by_conversation = [];
  locks_in_memory = [];
  metrics = [];
}

abbrev message_of : Text → Text → BusMessage
message_of id c = record { topic = codes "chat:dev"; payload = str c; id = id }

abbrev bad_message : BusMessage
bad_message = record { topic = codes "chat:dev"; payload = obj end; id = codes "3" }

abbrev envelope : Envelope
envelope = record {
  id = codes "m-a";
  conversation_id = codes "a";
  content = some (codes "a");
  metadata = end;
}

abbrev two_messages : List BusMessage
two_messages = message_of (codes "1") (codes "a") ∷ message_of (codes "2") (codes "b") ∷ []

abbrev flaky : Env ℕ
flaky = world_of two_messages fails_first

abbrev down : Env ℕ
down = world_of two_messages (λ n. some timed_out)

abbrev faulty : Env ℕ
faulty = world_of two_messages (λ n. some broken)

abbrev poisoned : Env ℕ
poisoned = world_of (message_of (codes "1") (codes "a") ∷ bad_message ∷ []) (λ n. none)

abbrev healthy : Env ℕ
healthy = world_of two_messages (λ n. none)

abbrev after_pass : Worker ℕ
after_pass = (process_available healthy 10 worker).1

two_processed : process_available healthy 10 worker ≡ (return 2, after_pass)
unfolding process_available drain_all drain visit visit_validated visit_envelope run_locked
    after_run finish_drain already_processed acquire_lock lock_in_memory seen_in_memory seen_of
    add_text mark_processed mark_in_memory release_lock unlock_in_memory same_text
    run_and_stream_with_retry attempt_run run_and_stream stream_events publish_events count_event
    maybe_emit_done_signal run_completed
two_processed = refl

down_fails : (w : Worker ℕ) → (run_and_stream down envelope w).0 ≡ raise timed_out
unfolding run_and_stream stream_events publish_events count_event maybe_emit_done_signal run_errored
down_fails w = refl

faulty_fails :
    (run_and_stream faulty envelope (before_attempt faulty envelope 0 worker)).0 ≡ raise broken
unfolding run_and_stream before_attempt stream_events publish_events count_event
    maybe_emit_done_signal run_errored
faulty_fails = refl

flaky_recovers :
    (run_and_stream flaky envelope (before_attempt flaky envelope 1 worker)).0 ≡ return tt
unfolding run_and_stream before_attempt note_retry stream_events publish_events count_event
    maybe_emit_done_signal run_errored run_completed
flaky_recovers = refl

timed_out_transient : classify_exception (λ s. s) timed_out ≡ transient
unfolding classify_exception
timed_out_transient = refl

broken_system : classify_exception (λ s. s) broken ≡ system
unfolding classify_exception classify_message
broken_system = refl

broken_lasts : classify_exception (λ s. s) broken ≢ transient
broken_lasts e = cc (broken_system, e)

once : (i : ℕ) → i < 1 → FailsTransiently flaky envelope i worker
unfolding before_attempt run_and_stream stream_events publish_events count_event
    maybe_emit_done_signal run_errored
once zero h = (timed_out, refl, timed_out_transient)
once (suc i) h = absurd (omega arith)

always : (i : ℕ) → i < 3 → FailsTransiently down envelope i worker
always i h = (timed_out, down_fails (before_attempt down envelope i worker), timed_out_transient)

never : (i : ℕ) → i < 0 → FailsTransiently faulty envelope i worker
never i h = absurd (omega arith)

process_available-Post_example :
    (served : List Envelope) × PassPost healthy two_messages worker 2 after_pass served
process_available-Post_example =
    process_available-Post healthy refl 10 2 two_messages worker after_pass 0 refl two_processed

process_available-locks_example : (process_available healthy 10 worker).1.locks_in_memory ≡ []
process_available-locks_example = process_available-locks healthy refl 10 worker

process_available_poison_example :
    ((exc : Exception) × ((process_available poisoned 10 worker).0 ≡ raise exc))
    × ((process_available poisoned 10 worker).1.last_inbound_id ≡ none)
process_available_poison_example =
    process_available_poison poisoned 10 worker 0 (message_of (codes "1") (codes "a") ∷ [])
      bad_message [] invalid refl refl

retry_recovers_example :
    run_and_stream_with_retry flaky envelope worker
    ≡ (return true, (run_and_stream flaky envelope (before_attempt flaky envelope 1 worker)).1)
retry_recovers_example = retry_recovers flaky envelope 1 worker (omega arith) once flaky_recovers

retry_exhausts_example :
    (exc : Exception) × ((run_and_stream down envelope (before_attempt down envelope 2 worker)).0
      ≡ raise exc)
    × ((run_and_stream_with_retry down envelope worker).0 ≡ raise failed_after_retries)
    × ((run_and_stream_with_retry down envelope worker).1.world
        ≡ dead_lettered down envelope exc (last_failure down envelope worker))
retry_exhausts_example = retry_exhausts down envelope worker always

retry_stops_example :
    (run_and_stream_with_retry faulty envelope worker).0
    ≡ (if soft (classify_exception (λ s. s) broken) then return true else raise broken)
retry_stops_example =
    retry_stops faulty envelope 0 worker broken (omega arith) never faulty_fails broken_lasts
