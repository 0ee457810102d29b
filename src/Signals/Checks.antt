-- ===== src/Signals/Checks.antt =====
-- Signals at work: the theorems at concrete calls.
use magent.Prelude.{
  ℕ, ◌+◌, arith, is_some, ◌≡◌, refl, true, false, none, some, List, [], ◌∷◌, ◌++◌, Text, codes,
  strip, same_text, starts_with, if◌then◌else◌, py_int,
}
use magent.Prelude.Exec.{return}
use magent.Json.{Fields, end, field, str, obj, dumps}
use magent.Gateway.Sse.{utf8_length}
use magent.Signals.Send.{
  fix_timeout_ms, Env, Signals, is_allowed, payload_cap_bytes, payload_size,
  maybe_get_conversation_id, get_persisted_cursor, process_message_for_return, send_signal,
}
use magent.Signals.Published.{wrapped, reports, sent_event, send_signal_sends}
use magent.Observability.Redact.{redact}
use magent.Signals.Receive.{try_fast_path, fast_path_resumes}
use magent.Signals.Wait.{Clock, wait_for_signal}
use magent.Signals.Many.{wait_for_any, wait_for_all}
use magent.Signals.Later.{IsClock}
use magent.Signals.Return.{waits_return}
use magent.Signals.Sent.{IsValueError, may_send, send_signal_refuses, received_cursor}

-- The world is the log of what was published.
abbrev Log : Type 0
Log = List (Text × Fields)

abbrev env : Env Log
env = record {
  read = λ topic last_id limit w. (return [], w);
  read_blocking_one = none;
  publish = λ topic payload w. (return (codes "id"), w ++ (topic, payload) ∷ []);
  conversation_id = some (codes " c ");
  topic_prefix = codes "signal:";
  payload_max_bytes = codes "";
  lower = λ s. s;
}

abbrev signals : Signals Log
signals = record { world = []; cursors = [] }

abbrev payload : Fields
payload = field (codes "ok") (str (codes "yes")) end

outside : may_send env (codes "other:x") payload ≡ false
unfolding may_send is_allowed strip starts_with
outside = refl

inside : may_send env (codes " signal:x ") payload ≡ true
unfolding may_send is_allowed strip starts_with payload_cap_bytes payload_size utf8_length dumps
    py_int
inside = refl

in_conversation : maybe_get_conversation_id env ≡ some (codes "c")
unfolding maybe_get_conversation_id strip
in_conversation = refl

send_signal_refuses_example :
    IsValueError (send_signal env (codes "other:x") payload signals).0
    × ((send_signal env (codes "other:x") payload signals).1 ≡ signals)
send_signal_refuses_example = send_signal_refuses env (codes "other:x") payload signals outside

send_signal_sends_example :
    ((send_signal env (codes " signal:x ") payload signals).0
      ≡ return (strip (codes " signal:x "), codes "id"))
    × ((send_signal env (codes " signal:x ") payload signals).1.world
        ≡ []
          ++ (strip (codes " signal:x "), wrapped payload)
            ∷ reports
                (some (codes " c "))
                (sent_event (strip (codes " signal:x ")) (codes "id") payload))
    × ((send_signal env (codes " signal:x ") payload signals).1.cursors ≡ [])
send_signal_sends_example =
    send_signal_sends env (λ w. w) (λ topic p w. refl) (codes " signal:x ") payload signals
      (codes "id") ((strip (codes " signal:x "), wrapped payload) ∷ []) inside refl

received_cursor_example :
    get_persisted_cursor env
      (codes "signal:x")
      (process_message_for_return env (codes "signal:x") (codes "m1") payload signals).1
    ≡ (if same_text (codes "signal:x") (codes "signal:x")
        then some (codes "m1")
        else get_persisted_cursor env (codes "signal:x") signals)
received_cursor_example =
    received_cursor env (codes "c") (codes "signal:x") (codes "m1") (codes "signal:x") payload
      signals in_conversation

-- The bus has one signal.
abbrev busy : Env Log
busy = record env {
  read = λ topic last_id limit w.
      (return (record { topic = topic; payload = obj (wrapped payload); id = codes "m1" } ∷ []), w);
}

busy_conversation : maybe_get_conversation_id busy ≡ some (codes "c")
unfolding maybe_get_conversation_id strip
busy_conversation = refl

fast_path_resumes_example :
    ((try_fast_path busy (codes "signal:x") none signals).0
      ≡ return (
          some (record {
            topic = codes "signal:x";
            message =
                field
                  (codes "event")
                  (str (codes "signal"))
                  (field (codes "payload") (redact (λ s. s) (obj payload)) end);
            message_id = codes "m1";
          })))
    × (get_persisted_cursor busy
          (codes "signal:y")
          (try_fast_path busy (codes "signal:x") none signals).1
        ≡ (if same_text (codes "signal:x") (codes "signal:y")
            then some (codes "m1")
            else get_persisted_cursor busy (codes "signal:y") signals))
fast_path_resumes_example =
    fast_path_resumes busy (codes "c") (codes "signal:x") (codes "signal:y") none (codes "m1")
      payload (codes "signal:x") signals [] busy_conversation refl

-- A silent bus whose world is its clock.
abbrev silent : Env ℕ
silent = record {
  read = λ topic last_id limit w. (return [], w);
  read_blocking_one = none;
  publish = λ topic payload w. (return (codes "id"), w);
  conversation_id = none;
  topic_prefix = codes "";
  payload_max_bytes = codes "";
  lower = λ s. s;
}

abbrev clock : Clock ℕ
clock = record { time = λ w. (w, w); sleep = λ w. w + 50; read_any_blocking = none }

silent-IsClock : IsClock silent clock (λ w. w)
silent-IsClock = record {
  time_reads = λ w. (omega arith, omega arith);
  sleep_on = λ w. omega arith;
  read_on = λ topic last_id limit w. omega arith;
  publish_on = λ topic event w. omega arith;
  one_on = λ read topic last_id block_ms w e. cc;
  any_on = λ read names cursors block_ms w e. cc;
  any_names = λ read names cursors block_ms w e. cc;
}

abbrev waiting : Signals ℕ
waiting = record { world = 1000; cursors = [] }

waits_return_example :
    (is_some (wait_for_signal silent clock 200 (codes "a") none 120 waiting) ≡ true)
    × (is_some (wait_for_any silent clock 200 (codes "a" ∷ codes "b" ∷ []) [] 120 waiting) ≡ true)
    × (is_some (wait_for_all silent clock 200 (codes "a" ∷ codes "b" ∷ []) [] 120 waiting) ≡ true)
unfolding fix_timeout_ms
waits_return_example =
    waits_return silent clock (λ w. w) silent-IsClock 200 (codes "a") none
      (codes "a" ∷ codes "b" ∷ []) [] 120 waiting (omega arith)
