-- ===== src/Signals/Published.antt =====
-- What `send_signal` puts on the bus.
use magent.Prelude.{
  ◌≡◌, refl, sym, ◌∙◌, ap, true, false, Bool-cases, inl, inr, Option, none, some, List, [], ◌∷◌,
  ◌++◌, append_assoc, append-nil, if◌then◌else◌, ltb, Text, codes, strip, is_empty,
}
use magent.Prelude.Exec.{return}
use magent.Json.{num, str, obj, Fields, end, field, decimal, dumps}
use magent.Gateway.Sse.{utf8_length}
use magent.Signals.Send.{
  Env, Signals, payload_cap_bytes, payload_size, is_allowed, require_allowed_topic,
  ensure_payload_within_cap, maybe_get_conversation_id, publish_to_stream, signal_event,
  maybe_publish_stream_event, send_signal,
}
use magent.Signals.Sent.{may_send, stream-cursors}

-- The payload of a signal as it stands on the bus.
abbrev pub wrapped : Fields → Fields
wrapped payload =
    field (codes "event") (str (codes "signal")) (field (codes "payload") (obj payload) end)

abbrev pub sent_event : (topic id : Text) → Fields → Fields
sent_event topic id payload = field (codes "event") (str (codes "signal_send")) (
    field (codes "topic") (str topic) (
      field (codes "message_id") (str id)
        (field (codes "payload_len") (num (decimal (utf8_length (dumps payload)))) end)))

-- The report to the conversation of the run, where the run has one that is not blank.
abbrev pub reports : Option Text → Fields → List (Text × Fields)
reports none event = []
reports (some c) event = if is_empty (strip c) then [] else (codes "stream:" ++ strip c, event) ∷ []

-- A log of the calls of `publish`, with or without success.
abbrev pub IsLog : {W : Type 0} → Env W → (W → List (Text × Fields)) → Type 0
IsLog {W} env log =
    (topic : Text) (p : Fields) (w : W) → log (env.publish topic p w).1 ≡ log w ++ (topic, p) ∷ []

module _ {W : Type 0} (env : Env W) where
  send_signal-sent :
      (topic : Text) (payload : Fields) (s : Signals W) (id : Text) (w : W)
      → may_send env topic payload ≡ true
      → env.publish (strip topic) (wrapped payload) s.world ≡ (return id, w)
      → send_signal env topic payload s ≡ (
        return (strip topic, id),
        maybe_publish_stream_event env
            (signal_event env (codes "signal_send") (strip topic) id (payload_size payload))
            (record s { world = w }),
      )
  unfolding send_signal may_send require_allowed_topic ensure_payload_within_cap
  send_signal-sent topic payload s id w h published = elim (Bool-cases (is_empty (strip topic))) [
    | inl blank ↦ (let bad : false ≡ true = rw blank at h in cc)
    | inr named ↦ elim (Bool-cases (is_allowed env (strip topic))) [
      | inr outside ↦ (let bad : false ≡ true = rw (named, outside) at h in cc)
      | inl inside ↦
          elim (Bool-cases (ltb (payload_cap_bytes env.payload_max_bytes) (payload_size payload))) [
            | inl over ↦ (let bad : false ≡ true = rw (named, inside, over) at h in cc)
            | inr fits ↦ rw (named, inside, fits, published) refl
          ]
    ]
  ]

  module _ (log : W → List (Text × Fields)) (logs : IsLog env log) where
    stream-log :
        (o : Option Text) (event : Fields) (s : Signals W)
        → log
            (publish_to_stream env
              (elim o [
                | none ↦ none
                | some value ↦ if is_empty (strip value) then none else some (strip value)
              ])
              event
              s).world
          ≡ log s.world ++ reports o event
    unfolding publish_to_stream
    stream-log none event s = sym (append-nil (log s.world))
    stream-log (some c) event s = elim (Bool-cases (is_empty (strip c))) [
      | inl blank ↦ rw blank (sym (append-nil (log s.world)))
      | inr named ↦ rw named (logs (codes "stream:" ++ strip c) event s.world)
    ]

    -- When a signal passes the three guards and the bus takes it, the reply holds the stripped topic
    -- and the id that the bus gave; `publish` was called for the wrapped payload under that topic
    -- and then, where the run has a conversation that is not blank, for one report of the topic, the
    -- id and the payload's size to the conversation's stream, whatever becomes of it, and for
    -- nothing else; no cursor moves.
    pub send_signal_sends :
        (topic : Text) (payload : Fields) (s : Signals W) (id : Text) (w : W)
        → may_send env topic payload ≡ true
        → env.publish (strip topic) (wrapped payload) s.world ≡ (return id, w)
        → ((send_signal env topic payload s).0 ≡ return (strip topic, id))
          × (log (send_signal env topic payload s).1.world
              ≡ log s.world
                ++ (strip topic, wrapped payload)
                  ∷ reports env.conversation_id (sent_event (strip topic) id payload))
          × ((send_signal env topic payload s).1.cursors ≡ s.cursors)
    unfolding maybe_publish_stream_event maybe_get_conversation_id payload_size
    send_signal_sends topic payload s id w h published =
        let event = sent_event (strip topic) id payload in
        let first : List (Text × Fields) = (strip topic, wrapped payload) ∷ [] in
        let after : Signals W = record s { world = w } in
        let logged : log w ≡ log s.world ++ first =
          sym (ap (λ p. log p.1) published) ∙ logs (strip topic) (wrapped payload) s.world in
        rw (send_signal-sent topic payload s id w h published) (
          refl,
          stream-log env.conversation_id event after
              ∙ ap (λ l. l ++ reports env.conversation_id event) logged
              ∙ append_assoc (log s.world) first (reports env.conversation_id event),
          stream-cursors env (maybe_get_conversation_id env) event after,
        )
