-- ===== src/Signals/Send.antt =====
-- `send_signal`, and the parts of `wait_for_signal` that read one message. The bus, the run context
-- and the environment variables are parameters.
use magent.Prelude.{
  ℕ, ◌*◌, Bool, ◌||◌, not, Option, none, some, List, [], ◌∷◌, ◌++◌, map, filter, if◌then◌else◌, pos,
  negsuc, ltb, Text, codes, strip, starts_with, is_empty, Dict, lookup, insert, py_int,
}
use magent.Prelude.Exec.{Exec, Exception, value_error, Result, return, raise, pure, ◌>>=◌, ◌>>◌}
use magent.Json.{Value, num, str, obj, Fields, end, field, get, assign, dumps, decimal}
use magent.Gateway.Sse.{utf8_length}
use magent.Bus.{BusMessage}
use magent.Observability.Redact.{redact}

pub record Env (W : Type 0) : Type 0 where
  pub read : (topic : Text) → (last_id : Option Text) → (limit : ℕ) → Exec W (List BusMessage)
  -- `read_blocking_one`, where the bus has it.
  pub read_blocking_one :
      Option
        ((topic : Text) → (last_id : Option Text) → (block_ms : ℕ) → Exec W (Option BusMessage))
  pub publish : (topic : Text) → Fields → Exec W Text
  -- The conversation of the run context, as the context holds it.
  pub conversation_id : Option Text
  -- SIGNAL_TOPIC_PREFIX and SIGNAL_PAYLOAD_MAX_BYTES.
  pub topic_prefix : Text
  pub payload_max_bytes : Text
  -- str.lower
  pub lower : Text → Text

-- `cursors` is `_CURSORs_BY_CONVERSATION`.
pub record Signals (W : Type 0) : Type 0 where
  pub world : W
  pub cursors : Dict (Dict Text)

abbrev pub not_allowed : Exception
not_allowed = record { kind = value_error; message = codes "topic not allowed by prefix policy" }

abbrev pub too_large : Exception
too_large = record { kind = value_error; message = codes "payload too large for configured cap" }

abbrev pub empty_topic : Exception
empty_topic = record { kind = value_error; message = codes "topic must be non-empty" }

abbrev pub empty_topics : Exception
empty_topics = record { kind = value_error; message = codes "topics must be non-empty" }

-- 64KB where the setting is blank, no integer, or not positive.
unfoldable pub payload_cap_bytes : Text → ℕ
unfolding strip
payload_cap_bytes raw = elim (py_int (strip raw)) [
  | none ↦ 64 * 1024
  | some (pos n) ↦ if ltb 0 n then n else 64 * 1024
  | some (negsuc n) ↦ 64 * 1024
]

unfoldable pub payload_size : Fields → ℕ
payload_size payload = utf8_length (dumps payload)

unfoldable pub redact_inner : (lower : Text → Text) → Fields → Option Value → Fields
redact_inner lower payload (some (obj d)) = assign (codes "payload") (redact lower (obj d)) payload
redact_inner lower payload _ = payload

unfoldable pub redacted_signal_message : (lower : Text → Text) → Fields → Fields
unfolding redact_inner
redacted_signal_message lower payload = redact_inner lower payload (get (codes "payload") payload)

unfoldable pub fix_timeout_ms : ℕ → ℕ
fix_timeout_ms timeout_ms = if ltb 0 timeout_ms then timeout_ms else 1

-- The dict that a wait returns for a message.
pub record Received : Type 0 where
  pub topic : Text
  pub message : Fields
  pub message_id : Text

-- A conversation with no cursors has an empty dict of them.
unfoldable pub or_no_cursors : Option (Dict Text) → Dict Text
or_no_cursors none = []
or_no_cursors (some slot) = slot

abbrev pub slot_of : Text → Dict (Dict Text) → Dict Text
slot_of conversation_id cursors = or_no_cursors (lookup conversation_id cursors)

module _ {W : Type 0} (env : Env W) where
  unfoldable pub is_allowed : Text → Bool
  is_allowed topic = is_empty (strip env.topic_prefix) || starts_with (strip env.topic_prefix) topic

  unfoldable pub require_allowed_topic : Text → Exec (Signals W) (Unit {0})
  require_allowed_topic topic s =
      if is_allowed topic then (return tt, s) else (raise not_allowed, s)

  unfoldable pub ensure_payload_within_cap : Fields → Exec (Signals W) ℕ
  ensure_payload_within_cap payload s =
      if ltb (payload_cap_bytes env.payload_max_bytes) (payload_size payload)
      then (raise too_large, s)
      else (return (payload_size payload), s)

  -- The conversation id, stripped; a blank one counts as none.
  unfoldable pub maybe_get_conversation_id : Option Text
  unfolding strip
  maybe_get_conversation_id = elim env.conversation_id [
    | none ↦ none
    | some value ↦ if is_empty (strip value) then none else some (strip value)
  ]

  unfoldable pub publish_to_stream : Option Text → Fields → Signals W → Signals W
  publish_to_stream none event s = s
  publish_to_stream (some conversation_id) event s = record s {
    world = (env.publish (codes "stream:" ++ conversation_id) event s.world).1;
  }

  -- Best effort: what the bus raises is dropped.
  unfoldable pub maybe_publish_stream_event : Fields → Signals W → Signals W
  maybe_publish_stream_event event s = publish_to_stream maybe_get_conversation_id event s

  unfoldable pub get_cursor : Option Text → Text → Signals W → Option Text
  get_cursor none topic s = none
  get_cursor (some conversation_id) topic s = lookup topic (slot_of conversation_id s.cursors)

  unfoldable pub get_persisted_cursor : Text → Signals W → Option Text
  get_persisted_cursor topic s = get_cursor maybe_get_conversation_id topic s

  unfoldable pub set_cursor : Option Text → Text → Text → Signals W → Signals W
  set_cursor none topic last_id s = s
  set_cursor (some conversation_id) topic last_id s = record s {
    cursors =
        insert conversation_id (insert topic last_id (slot_of conversation_id s.cursors)) s.cursors;
  }

  unfoldable pub set_persisted_cursor : Text → Text → Signals W → Signals W
  set_persisted_cursor topic last_id s = set_cursor maybe_get_conversation_id topic last_id s

  unfoldable pub require_all_allowed : List Text → Exec (Signals W) (Unit {0})
  require_all_allowed [] = pure tt
  require_all_allowed (name ∷ names) = do require_allowed_topic name; require_all_allowed names

  abbrev pub stripped : List Text → List Text
  stripped topics = filter (λ n. not (is_empty n)) (map strip topics)

  abbrev pub require_some : List Text → Result (List Text)
  require_some [] = raise empty_topics
  require_some (name ∷ names) = return (name ∷ names)

  unfoldable pub prepare_topic_names : List Text → Exec (Signals W) (List Text)
  prepare_topic_names topics = do
    names ← λ s. (require_some (stripped topics), s)
    require_all_allowed names
    pure names

  abbrev or_persisted : Option Text → Text → Signals W → Option Text
  or_persisted (some id) name s = some id
  or_persisted none name s = get_persisted_cursor name s

  -- The entries of `cursors`, in the order of the assignments.
  unfoldable pub build_cursors :
      List Text → Dict Text → Dict (Option Text) → Signals W → Dict (Option Text)
  build_cursors [] last_ids cursors s = cursors
  build_cursors (name ∷ names) last_ids cursors s =
      build_cursors names last_ids
        (insert name (or_persisted (lookup name last_ids) name s) cursors) s

  abbrev pub signal_event : (event topic message_id : Text) → ℕ → Fields
  signal_event event topic message_id payload_len = field (codes "event") (str event) (
      field (codes "topic") (str topic) (
        field (codes "message_id") (str message_id)
          (field (codes "payload_len") (num (decimal payload_len)) end)))

  abbrev pub publish_signal_recv : Text → Text → ℕ → Signals W → Signals W
  publish_signal_recv topic message_id payload_len =
      maybe_publish_stream_event (signal_event (codes "signal_recv") topic message_id payload_len)

  -- A message whose payload is a dict, which is what `send_signal` publishes.
  unfoldable pub process_message_for_return :
      Text → (id : Text) → Fields → Signals W → Received × Signals W
  process_message_for_return topic id payload s =
      let s' = set_persisted_cursor topic id s in
      (
        record {
          topic = topic;
          message = redacted_signal_message env.lower payload;
          message_id = id;
        },
        publish_signal_recv topic id (payload_size payload) s',
      )

  abbrev pub signal_payload : Fields → Fields
  signal_payload payload =
      field (codes "event") (str (codes "signal")) (field (codes "payload") (obj payload) end)

  abbrev on_signals : {A : Type 0} → Exec W A → Exec (Signals W) A
  on_signals m s = let (r, world') = m s.world in (r, record s { world = world' })

  abbrev report_sent : Text → ℕ → Text → Exec (Signals W) (Text × Text)
  report_sent name payload_len message_id s = (
    return (name, message_id),
    maybe_publish_stream_event (signal_event (codes "signal_send") name message_id payload_len) s,
  )

  abbrev require_name : Text → Exec (Signals W) (Unit {0})
  require_name name s = if is_empty name then (raise empty_topic, s) else (return tt, s)

  -- The reply holds the topic and the message's id.
  unfoldable pub send_signal : Text → Fields → Exec (Signals W) (Text × Text)
  send_signal topic payload = do
    require_name (strip topic)
    require_allowed_topic (strip topic)
    payload_len ← ensure_payload_within_cap payload
    message_id ← on_signals (env.publish (strip topic) (signal_payload payload))
    report_sent (strip topic) payload_len message_id
