-- ===== src/Signals/Wait.antt =====
-- `wait_for_signal`, and the reads that all waits share. A loop runs on fuel, and `none` says that it
-- ran out. The clock counts milliseconds.
use magent.Prelude.{
  ℕ, zero, suc, ◌+◌, ◌-◌, max, Bool, not, Option, none, some, List, [], ◌∷◌, filter, head?, leb,
  if◌then◌else◌, Text, is_empty, strip, Dict, lookup, insert, is_some,
}
use magent.Prelude.Exec.{Exec, Result, return, raise, pure, ◌>>=◌, ◌>>◌}
use magent.Bus.{BusMessage}
use magent.Signals.Send.{
  Env, Signals, Received, empty_topic, fix_timeout_ms, get_persisted_cursor, require_allowed_topic,
}
use magent.Signals.Receive.{return_message, try_fast_path, try_blocking_read}

-- `time.time`, `time.sleep(0.05)`, and `read_any_blocking` where the bus has it.
pub record Clock (W : Type 0) : Type 0 where
  pub time : W → ℕ × W
  pub sleep : W → W
  pub read_any_blocking : Option (
      List Text
      → (cursors : Dict (Option Text)) → (block_ms : ℕ) → Exec W (Option (Text × BusMessage)))

-- What a wait returns: the dict of a message, or `{"ok": False, ...}`.
pub data Reply : Type 0 where
  received : Received → Reply
  timed_out : (topics : List Text) → (timeout_ms : ℕ) → (last_id : Text) → Reply

-- What `wait_for_all` returns.
pub record AllReply : Type 0 where
  pub ok : Bool
  pub messages : Dict Received

abbrev pub Found : Type 0
Found = Option (Text × Received)

-- `cursor or ""`
abbrev pub or_blank : Option Text → Text
or_blank none = []
or_blank (some cursor) = cursor

abbrev pub joined : Option (Option Text) → Option Text
joined none = none
joined (some cursor) = cursor

-- The names that have no result yet.
abbrev pub still_open : List Text → Dict Received → List Text
still_open names results = filter (λ n. not (is_some (lookup n results))) names

-- `{k: cursors.get(k) for k in remaining}`
unfoldable pub cursors_of : List Text → Dict (Option Text) → Dict (Option Text)
cursors_of [] cursors = []
cursors_of (name ∷ names) cursors =
    insert name (joined (lookup name cursors)) (cursors_of names cursors)

unfoldable pub record_found : Found → Dict Received → Dict Received
record_found none results = results
record_found (some (name, message)) results = insert name message results

module _ {W : Type 0} (env : Env W) (clock : Clock W) where
  abbrev pub Out : Type 0 → Type 0
  Out A = Option (Result A × Signals W)

  abbrev pub on_world : {A : Type 0} → Exec W A → Exec (Signals W) A
  on_world m s = let (r, world') = m s.world in (r, record s { world = world' })

  abbrev pub now : Exec (Signals W) ℕ
  now s = let (t, world') = clock.time s.world in (return t, record s { world = world' })

  abbrev pub sleep : Signals W → Signals W
  sleep s = record s { world = clock.sleep s.world }

  abbrev pub with_name : Text → Option Received → Exec (Signals W) Found
  with_name name none = pure none
  with_name name (some message) = pure (some (name, message))

  abbrev pub process_found : Text → Option BusMessage → Exec (Signals W) Found
  process_found name none = pure none
  process_found name (some m) = return_message env name m.id m.payload >>= with_name name

  unfoldable pub read_one : Text → Option Text → Exec (Signals W) (Option BusMessage)
  read_one topic cursor = do items ← on_world (env.read topic cursor 1); pure (head? items)

  abbrev pub read_found : Text → Dict (Option Text) → Exec (Signals W) Found
  read_found name cursors = read_one name (joined (lookup name cursors)) >>= process_found name

  abbrev pub or_try : Exec (Signals W) Found → Found → Exec (Signals W) Found
  or_try other none = other
  or_try other (some found) = pure (some found)

  -- The first message of any of the topics, in their order.
  unfoldable pub check_recent_arrivals : List Text → Dict (Option Text) → Exec (Signals W) Found
  unfolding read_one
  check_recent_arrivals [] cursors = pure none
  check_recent_arrivals (name ∷ names) cursors =
      read_found name cursors >>= or_try (check_recent_arrivals names cursors)

  -- The time that is left, at least one millisecond.
  abbrev pub remaining_ms : ℕ → Exec (Signals W) ℕ
  remaining_ms deadline = do t ← now; pure (max 1 (deadline - t))

  abbrev pub process_blocking : Option (Text × BusMessage) → Exec (Signals W) Found
  process_blocking none = pure none
  process_blocking (some (name, m)) = process_found name (some m)

  abbrev pub BlockingReader : Type 0
  BlockingReader =
      List Text
      → (cursors : Dict (Option Text)) → (block_ms : ℕ) → Exec W (Option (Text × BusMessage))

  unfoldable pub try_blocking_read_all :
      Option BlockingReader → List Text → Dict (Option Text) → ℕ → Exec (Signals W) Found
  unfolding cursors_of
  try_blocking_read_all none remaining cursors block_ms = pure none
  try_blocking_read_all (some read) remaining cursors block_ms = do
    result ← on_world (read remaining (cursors_of remaining cursors) block_ms)
    process_blocking result

  abbrev pub block_for : List Text → Dict (Option Text) → (deadline : ℕ) → Exec (Signals W) Found
  block_for remaining cursors deadline =
      remaining_ms deadline >>= try_blocking_read_all clock.read_any_blocking remaining cursors

  unfoldable pub try_get_next_message :
      List Text → Dict (Option Text) → (deadline : ℕ) → Exec (Signals W) Found
  unfolding check_recent_arrivals try_blocking_read_all
  try_get_next_message remaining cursors deadline =
      check_recent_arrivals remaining cursors >>= or_try (block_for remaining cursors deadline)

  -- Go on with what a part of a loop returned; what it raises ends the loop.
  abbrev pub then_loop : {A B : Type 0} → Result A × Signals W → (A → Signals W → Out B) → Out B
  then_loop (return a, s) f = f a s
  then_loop (raise e, s) f = some (raise e, s)

  -- The rest of a round of a poll: a message ends it, otherwise it sleeps and goes on.
  abbrev pub poll_round : (Signals W → Out Reply) → Found → Signals W → Out Reply
  poll_round again none s = again (sleep s)
  poll_round again (some (name, message)) s = some (return (received message), s)

  abbrev pub poll_checked :
      (Signals W → Out Reply) → Text → Option Text → (deadline t : ℕ) → Signals W → Out Reply
  poll_checked again name cursor deadline t s =
      if leb deadline t
      then some (return (timed_out (name ∷ []) 0 (or_blank cursor)), s)
      else then_loop ((read_one name cursor >>= process_found name) s) (poll_round again)

  unfoldable pub poll_with_timeout : ℕ → Text → Option Text → (deadline : ℕ) → Signals W → Out Reply
  unfolding read_one
  poll_with_timeout zero name cursor deadline s = none
  poll_with_timeout (suc fuel) name cursor deadline s =
      then_loop (now s)
        (poll_checked (poll_with_timeout fuel name cursor deadline) name cursor deadline)

  abbrev pub or_received : (Signals W → Out Reply) → Option Received → Signals W → Out Reply
  or_received rest (some message) s = some (return (received message), s)
  or_received rest none s = rest s

  abbrev pub or_persisted : Option Text → Text → Signals W → Option Text
  or_persisted (some id) name s = some id
  or_persisted none name s = get_persisted_cursor env name s

  abbrev pub poll_unless_late :
      ℕ → Text → Option Text → (timeout_ms deadline t : ℕ) → Signals W → Out Reply
  poll_unless_late fuel name cursor timeout_ms deadline t s =
      if leb deadline t
      then some (return (timed_out (name ∷ []) timeout_ms (or_blank cursor)), s)
      else poll_with_timeout fuel name cursor deadline s

  abbrev pub after_blocking :
      ℕ → Text → Option Text → (timeout_ms deadline : ℕ) → Signals W → Out Reply
  after_blocking fuel name cursor timeout_ms deadline s =
      then_loop (now s) (poll_unless_late fuel name cursor timeout_ms deadline)

  abbrev pub block_first :
      ℕ → Text → Option Text → (timeout_ms deadline block_ms : ℕ) → Signals W → Out Reply
  block_first fuel name cursor timeout_ms deadline block_ms s =
      then_loop (try_blocking_read env name cursor block_ms s)
        (or_received (after_blocking fuel name cursor timeout_ms deadline))

  abbrev pub after_fast : ℕ → Text → Option Text → (timeout_ms deadline : ℕ) → Signals W → Out Reply
  after_fast fuel name cursor timeout_ms deadline s =
      then_loop (remaining_ms deadline s) (block_first fuel name cursor timeout_ms deadline)

  -- After the deadline is set: the fast path, a blocking read, and polling.
  unfoldable pub wait_until :
      ℕ → Text → Option Text → (timeout_ms deadline : ℕ) → Signals W → Out Reply
  unfolding poll_with_timeout try_fast_path try_blocking_read
  wait_until fuel name cursor timeout_ms deadline s =
      then_loop (try_fast_path env name cursor s)
        (or_received (after_fast fuel name cursor timeout_ms deadline))

  abbrev require_name : Text → Exec (Signals W) (Unit {0})
  require_name name s = if is_empty name then (raise empty_topic, s) else (return tt, s)

  abbrev pub check_name : Text → Exec (Signals W) (Unit {0})
  check_name name = require_name name >> require_allowed_topic env name

  abbrev pub set_deadline :
      ℕ → Text → (last_id : Option Text) → (timeout_ms : ℕ) → Signals W → Out Reply
  set_deadline fuel name last_id timeout_ms s =
      then_loop (now s)
        (λ t s'. wait_until fuel name (or_persisted last_id name s') timeout_ms (t + timeout_ms) s')

  unfoldable pub wait_for_signal :
      ℕ → (topic : Text) → (last_id : Option Text) → (timeout_ms : ℕ) → Signals W → Out Reply
  unfolding wait_until strip
  wait_for_signal fuel topic last_id timeout_ms s =
      then_loop (check_name (strip topic) s)
        (λ u. set_deadline fuel (strip topic) last_id (fix_timeout_ms timeout_ms))
