-- ===== src/Signals/Sent.antt =====
-- What a signal leaves behind: on the bus, and in the cursors of the conversation.
use magent.Prelude.{
  ◌≡◌, refl, Bool, true, false, ◌&&◌, not, Bool-cases, inl, inr, Option, none, some, if◌then◌else◌,
  ltb, Text, strip, is_empty, same_text, same_text_refl, insert, lookup-insert,
}
use magent.Prelude.Exec.{value_error, Result, return, raise}
use magent.Json.{Fields}
use magent.Signals.Send.{
  Env, Signals, payload_cap_bytes, payload_size, is_allowed, require_allowed_topic,
  ensure_payload_within_cap, maybe_get_conversation_id, publish_to_stream,
  maybe_publish_stream_event, get_cursor, get_persisted_cursor, set_cursor, set_persisted_cursor,
  process_message_for_return, slot_of, or_no_cursors, send_signal,
}

abbrev pub IsValueError : {A : Type 0} → Result A → Type 0
IsValueError (return a) = ⊥
IsValueError (raise exc) = exc.kind ≡ value_error

module _ {W : Type 0} (env : Env W) where
  -- The three guards of `send_signal`.
  unfoldable pub may_send : Text → Fields → Bool
  may_send topic payload =
      not (is_empty (strip topic))
      && is_allowed env (strip topic)
      && not (ltb (payload_cap_bytes env.payload_max_bytes) (payload_size payload))

  -- A signal with a blank topic, a topic outside the prefix policy or a payload over the limit is
  -- refused with a ValueError, and nothing is published and no cursor moves.
  pub send_signal_refuses :
      (topic : Text) (payload : Fields) (s : Signals W)
      → may_send topic payload ≡ false
      → IsValueError (send_signal env topic payload s).0 × ((send_signal env topic payload s).1 ≡ s)
  unfolding send_signal may_send require_allowed_topic ensure_payload_within_cap
  send_signal_refuses topic payload s h = elim (Bool-cases (is_empty (strip topic))) [
    | inl blank ↦ rw blank (refl, refl)
    | inr named ↦ elim (Bool-cases (is_allowed env (strip topic))) [
      | inr outside ↦ rw (named, outside) (refl, refl)
      | inl inside ↦
          elim (Bool-cases (ltb (payload_cap_bytes env.payload_max_bytes) (payload_size payload))) [
            | inl over ↦ rw (named, inside, over) (refl, refl)
            | inr fits ↦ (let bad : true ≡ false = rw (named, inside, fits) at h in cc)
          ]
    ]
  ]

  pub stream-cursors :
      (o : Option Text) (event : Fields) (s : Signals W)
      → (publish_to_stream env o event s).cursors ≡ s.cursors
  unfolding publish_to_stream
  stream-cursors none event s = refl
  stream-cursors (some c) event s = refl

  cursor_lem :
      (o : Option Text) (c topic id j : Text) (s t : Signals W)
      → o ≡ some c
      → t.cursors ≡ (set_cursor env o topic id s).cursors
      → get_cursor env o j t ≡ (if same_text topic j then some id else get_cursor env o j s)
  unfolding get_cursor set_cursor or_no_cursors
  cursor_lem none c topic id j s t e h = cc
  cursor_lem (some c') c topic id j s t e h =
      let slot = slot_of c' s.cursors in
      rw (h, lookup-insert c' c' (insert topic id slot) s.cursors, same_text_refl c')
        (lookup-insert topic j id slot)

  -- In a run with a conversation, a received message moves the persisted cursor of its topic to its
  -- id, and leaves the cursor of every other topic.
  pub received_cursor :
      (c topic id j : Text) (payload : Fields) (s : Signals W)
      → maybe_get_conversation_id env ≡ some c
      → get_persisted_cursor env j (process_message_for_return env topic id payload s).1
        ≡ (if same_text topic j then some id else get_persisted_cursor env j s)
  unfolding process_message_for_return get_persisted_cursor set_persisted_cursor
      maybe_publish_stream_event
  received_cursor c topic id j payload s e =
      cursor_lem (maybe_get_conversation_id env) c topic id j s
        (process_message_for_return env topic id payload s).1 e
        (stream-cursors (maybe_get_conversation_id env) _ _)
