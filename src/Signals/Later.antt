-- ===== src/Signals/Later.antt =====
-- The waits against a clock: what each part of a wait does to it.
use magent.Prelude.{
  ℕ, zero, suc, ◌≤◌, ◌<◌, ◌≡◌, refl, ap, true, Option, none, some, List, [], ◌∷◌, arith, Text, Dict,
  lookup, has_text,
}
use magent.Prelude.Exec.{Exec, Result, return, raise, continue, ◌>>=◌}
use magent.Json.{Value, null, bool, num, str, arr, obj, Fields}
use magent.Bus.{BusMessage}
use magent.Signals.Send.{
  Env, Signals, Received, process_message_for_return, publish_to_stream, maybe_publish_stream_event,
  set_persisted_cursor, set_cursor, maybe_get_conversation_id,
}
use magent.Signals.Receive.{
  Reader, return_message, return_first, return_one, try_fast_path, blocking_read, try_blocking_read,
}
use magent.Signals.Wait.{
  Clock, Found, joined, on_world, now, process_found, with_name, read_found, or_try, read_one,
  check_recent_arrivals, remaining_ms, BlockingReader, process_blocking,
}

-- A message that was found is of one of the topics.
abbrev pub Among : {B : Type 0} → List Text → Result (Option (Text × B)) → Type 0
Among names (return (some (name, m))) = has_text name names ≡ true
Among names _ = Unit

-- A clock that does not go back, and that a sleep moves on; `at` is the time of a world.
pub record IsClock {W : Type 0} (env : Env W) (clock : Clock W) (at_time : W → ℕ) : Type 0 where
  pub time_reads :
      (w : W) → (at_time w ≤ (clock.time w).0) × ((clock.time w).0 ≤ at_time (clock.time w).1)
  pub sleep_on : (w : W) → at_time w < at_time (clock.sleep w)
  pub read_on :
      (topic : Text) (last_id : Option Text) (limit : ℕ) (w : W)
      → at_time w ≤ at_time (env.read topic last_id limit w).1
  pub publish_on :
      (topic : Text) (event : Fields) (w : W) → at_time w ≤ at_time (env.publish topic event w).1
  pub one_on :
      (read : Reader env) (topic : Text) (last_id : Option Text) (block_ms : ℕ) (w : W)
      → env.read_blocking_one ≡ some read
      → at_time w ≤ at_time (read topic last_id block_ms w).1
  pub any_on :
      (read : BlockingReader env clock) (names : List Text) (cursors : Dict (Option Text))
      (block_ms : ℕ) (w : W)
      → clock.read_any_blocking ≡ some read
      → at_time w ≤ at_time (read names cursors block_ms w).1
  -- The blocking read answers with one of the topics that it was given.
  pub any_names :
      (read : BlockingReader env clock) (names : List Text) (cursors : Dict (Option Text))
      (block_ms : ℕ) (w : W)
      → clock.read_any_blocking ≡ some read
      → Among names (read names cursors block_ms w).0

module _ {W : Type 0} (env : Env W) (clock : Clock W) (at_time : W → ℕ)
    (law : IsClock env clock at_time) where
  -- The clock does not go back while `m` runs.
  abbrev pub Later : {A : Type 0} → Exec (Signals W) A → Type 0
  Later m = (s : Signals W) → at_time s.world ≤ at_time (m s).1.world

  continue-Later :
      {A B : Type 0} (r : Result A) (f : A → Exec (Signals W) B)
      → ((a : A) → Later (f a))
      → Later (continue r f)
  continue-Later (return a) f h s = h a s
  continue-Later (raise e) f h s = omega arith

  pub bind-Later :
      {A B : Type 0} (m : Exec (Signals W) A) (f : A → Exec (Signals W) B)
      → Later m
      → ((a : A) → Later (f a))
      → Later (m >>= f)
  bind-Later m f h k s = omega (arith, h s, continue-Later (m s).0 f k (m s).1)

  publish_to_stream-Later :
      (c : Option Text) (event : Fields) (s : Signals W)
      → at_time s.world ≤ at_time (publish_to_stream env c event s).world
  unfolding publish_to_stream
  publish_to_stream-Later none event s = omega arith
  publish_to_stream-Later (some c) event s = law.publish_on _ event s.world

  set_cursor-world :
      (c : Option Text) (topic id : Text) (s : Signals W)
      → (set_cursor env c topic id s).world ≡ s.world
  unfolding set_cursor
  set_cursor-world none topic id s = refl
  set_cursor-world (some c) topic id s = refl

  process_message-Later :
      (topic id : Text) (payload : Fields) (s : Signals W)
      → at_time s.world ≤ at_time (process_message_for_return env topic id payload s).1.world
  unfolding process_message_for_return maybe_publish_stream_event set_persisted_cursor
  process_message-Later topic id payload s =
      let c : Option Text = maybe_get_conversation_id env in
      let s' : Signals W = set_cursor env c topic id s in
      omega (arith, ap at_time (set_cursor-world c topic id s), publish_to_stream-Later c _ s')

  pub return_message-Later :
      (topic id : Text) (payload : Value) → Later (return_message env topic id payload)
  unfolding return_message
  return_message-Later topic id (obj payload) s = process_message-Later topic id payload s
  return_message-Later topic id null s = omega arith
  return_message-Later topic id (bool b) s = omega arith
  return_message-Later topic id (num n) s = omega arith
  return_message-Later topic id (str t) s = omega arith
  return_message-Later topic id (arr vs) s = omega arith

  pub now-Later : Later (now env clock)
  now-Later s = omega (arith, (law.time_reads s.world).0, (law.time_reads s.world).1)

  pub read_one-Later :
      (topic : Text) (cursor : Option Text) → Later (read_one env clock topic cursor)
  unfolding read_one
  read_one-Later topic cursor =
      bind-Later (on_world env clock (env.read topic cursor 1)) _
        (λ s. law.read_on topic cursor 1 s.world) (λ items s. omega arith)

  with_name-Later : (name : Text) (m : Option Received) → Later (with_name env clock name m)
  with_name-Later name none = λ s. omega arith
  with_name-Later name (some m) = λ s. omega arith

  pub process_found-Later :
      (name : Text) (m : Option BusMessage) → Later (process_found env clock name m)
  process_found-Later name none = λ s. omega arith
  process_found-Later name (some m) =
      bind-Later (return_message env name m.id m.payload) (with_name env clock name)
        (return_message-Later name m.id m.payload) (with_name-Later name)

  pub read_found-Later :
      (name : Text) (cursors : Dict (Option Text)) → Later (read_found env clock name cursors)
  read_found-Later name cursors =
      let cursor : Option Text = joined (lookup name cursors) in
      bind-Later (read_one env clock name cursor) (process_found env clock name)
        (read_one-Later name cursor) (process_found-Later name)

  pub or_try-Later :
      (other : Exec (Signals W) Found) (found : Found)
      → Later other
      → Later (or_try env clock other found)
  or_try-Later other none h = h
  or_try-Later other (some found) h = λ s. omega arith

  pub check_recent_arrivals-Later :
      (names : List Text) (cursors : Dict (Option Text))
      → Later (check_recent_arrivals env clock names cursors)
  unfolding check_recent_arrivals
  check_recent_arrivals-Later [] cursors = λ s. omega arith
  check_recent_arrivals-Later (name ∷ names) cursors =
      let rest : Exec (Signals W) Found = check_recent_arrivals env clock names cursors in
      bind-Later (read_found env clock name cursors) (or_try env clock rest)
        (read_found-Later name cursors)
        (λ found. or_try-Later rest found (check_recent_arrivals-Later names cursors))

  pub process_blocking-Later :
      (result : Option (Text × BusMessage)) → Later (process_blocking env clock result)
  process_blocking-Later none = λ s. omega arith
  process_blocking-Later (some (name, m)) = process_found-Later name (some m)

  pub remaining_ms-Later : (deadline : ℕ) → Later (remaining_ms env clock deadline)
  remaining_ms-Later deadline s = now-Later s

  return_first-Later :
      (topic : Text) (items : List BusMessage) → Later (return_first env topic items)
  unfolding return_first
  return_first-Later topic [] = λ s. omega arith
  return_first-Later topic (m ∷ items) = return_message-Later topic m.id m.payload

  pub try_fast_path-Later :
      (name : Text) (cursor : Option Text) → Later (try_fast_path env name cursor)
  unfolding try_fast_path
  try_fast_path-Later name cursor =
      bind-Later (on_world env clock (env.read name cursor 1)) (return_first env name)
        (λ s. law.read_on name cursor 1 s.world) (return_first-Later name)

  return_one-Later : (topic : Text) (m : Option BusMessage) → Later (return_one env topic m)
  unfolding return_one
  return_one-Later topic none = λ s. omega arith
  return_one-Later topic (some m) = return_message-Later topic m.id m.payload

  blocking_read-Later :
      (reader : Option (Reader env)) (name : Text) (cursor : Option Text) (ms : ℕ)
      → env.read_blocking_one ≡ reader
      → Later (blocking_read env reader name cursor ms)
  unfolding blocking_read
  blocking_read-Later none name cursor ms e = λ s. omega arith
  blocking_read-Later (some read) name cursor zero e = λ s. omega arith
  blocking_read-Later (some read) name cursor (suc n) e =
      bind-Later (on_world env clock (read name cursor (suc n))) (return_one env name)
        (λ s. law.one_on read name cursor (suc n) s.world e) (return_one-Later name)

  pub try_blocking_read-Later :
      (name : Text) (cursor : Option Text) (ms : ℕ) → Later (try_blocking_read env name cursor ms)
  unfolding try_blocking_read
  try_blocking_read-Later name cursor ms =
      blocking_read-Later env.read_blocking_one name cursor ms refl
