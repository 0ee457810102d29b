-- ===== src/Gateway/Outcome.antt =====
-- How POST /send ends over any bus.
use magent.Prelude.{◌≡◌, refl, subst, ◌⊎◌, inl, inr, List, [], ◌∷◌, ◌++◌, map, Text, codes}
use magent.Prelude.Exec.{Exception, Result, return, raise, continue}
use magent.Json.{str, Fields, end, field}
use magent.Observability.{Metric}
use magent.Bus.Topics.{chat_topic, compute_publish_topics}
use magent.Gateway.Send.{
  SendRequest, Env, App, stream_topic, dump_request, user_event, unavailable, or_503,
  publish_or_503, agent_label, error_labels, publish_all, publish_user_event, record_send,
  finish_send, send,
}

-- One more metric of that name.
abbrev pub Counts : Text → List Metric → List Metric → Type 0
Counts name before after =
    (labels : List (Text × Text)) × (after ≡ before ++ record { name = name; labels = labels } ∷ [])

module _ {W : Type 0} (env : Env W) where
  -- The bus takes every message in turn.
  abbrev pub Takes : List (Text × Fields) → W → W → Type 0
  Takes [] w w' = w ≡ w'
  Takes ((topic, p) ∷ rest) w w' =
      (v : W) × (env.publish topic p w ≡ (return tt, v)) × Takes rest v w'

  -- The bus takes the messages up to one, and raises at that one; it gets none behind it.
  abbrev pub Stops : List (Text × Fields) → W → W → Type 0
  Stops [] w w' = ⊥
  Stops ((topic, p) ∷ rest) w w' =
      ((exc : Exception) × (env.publish topic p w ≡ (raise exc, w')))
      ⊎ ((v : W) × (env.publish topic p w ≡ (return tt, v)) × Stops rest v w')

  -- All the messages are taken, or a publish fails, which is counted and becomes the 503.
  abbrev Sends : {A : Type 0} → List (Text × Fields) → App W → A → Result A × App W → Type 0
  Sends messages s a out =
      (Takes messages s.world out.1.world × (out.0 ≡ return a) × (out.1.metrics ≡ s.metrics))
      ⊎ (Stops messages s.world out.1.world
          × (out.0 ≡ raise unavailable)
          × Counts (codes "gateway_bus_publish_errors") s.metrics out.1.metrics)

  module _ (m : SendRequest) where
    Sends-more :
        (topic : Text) (p : Fields) (rest : List (Text × Fields)) (s : App W) (v : W)
        (out : Result (Unit {0}) × App W)
        → env.publish topic p s.world ≡ (return tt, v)
        → Sends rest (record s { world = v }) tt out
        → Sends ((topic, p) ∷ rest) s tt out
    Sends-more topic p rest s v out e (inl (takes, r, same)) = inl ((v, e, takes), r, same)
    Sends-more topic p rest s v out e (inr (stops, r, counts)) = inr (inr (v, e, stops), r, counts)

    abbrev sent : Text → Text × Fields
    sent topic = (topic, dump_request m)

    abbrev publish_rest :
        Text → List Text → App W → Result (Unit {0}) × W → Result (Unit {0}) × App W
    publish_rest topic topics s out =
        let (r, t) = or_503 env m (agent_label env m topic) out.0 (record s { world = out.1 }) in
        continue r (λ (u : Unit {0}). publish_all env m topics) t

    publish_rest-Sends :
        (topic : Text) (topics : List Text) (s : App W) (out : Result (Unit {0}) × W)
        → env.publish topic (dump_request m) s.world ≡ out
        → ((t : App W) → Sends (map sent topics) t tt (publish_all env m topics t))
        → Sends (map sent (topic ∷ topics)) s tt (publish_rest topic topics s out)
    unfolding or_503
    publish_rest-Sends topic topics s (return u, v) e rest =
        let t : App W = record s { world = v } in
        Sends-more topic (dump_request m) (map sent topics) s v (publish_all env m topics t) e
          (rest t)
    publish_rest-Sends topic topics s (raise exc, v) e rest =
        inr (inl (exc, e), refl, (error_labels env m (agent_label env m topic), refl))

    publish_all-Sends :
        (topics : List Text) (s : App W) → Sends (map sent topics) s tt (publish_all env m topics s)
    unfolding publish_all publish_or_503
    publish_all-Sends [] s = inl (refl, refl, refl)
    publish_all-Sends (topic ∷ topics) s =
        publish_rest-Sends topic topics s (env.publish topic (dump_request m) s.world) refl
          (publish_all-Sends topics)

    abbrev event_at : W → Text × Fields
    event_at w = (stream_topic m.conversation_id, user_event m (env.now w).0)

    -- The handler ends with its reply, after the user message of the world `w` was taken.
    abbrev pub EndsWell : List Metric → W → Result Fields × App W → Type 0
    EndsWell metrics w out =
        (u : W) × Takes (event_at w ∷ []) (env.now w).1 u
        × (out.0
            ≡ return (
                field (codes "status") (str (codes "ok"))
                  (field (codes "topic") (str (chat_topic m.conversation_id)) end)))
        × (out.1.world ≡ env.record_user_message m.conversation_id m.sender m.recipient m.content u)
        × Counts (codes "gateway_sends") metrics out.1.metrics

    -- A publish fails: the failure is counted, and the handler ends with the 503.
    abbrev pub EndsIn503 : List (Text × Fields) → List Metric → W → Result Fields × App W → Type 0
    EndsIn503 messages metrics w out =
        Stops messages w out.1.world
        × (out.0 ≡ raise unavailable)
        × Counts (codes "gateway_bus_publish_errors") metrics out.1.metrics

    abbrev Finishes : List Metric → W → Result Fields × App W → Type 0
    Finishes metrics w out =
        EndsIn503 (event_at w ∷ []) metrics (env.now w).1 out ⊎ EndsWell metrics w out

    -- The messages of the request are published first, then the user message for the stream.
    abbrev pub Served : App W → Result Fields × App W → Type 0
    Served s out =
        let messages = map sent (compute_publish_topics m.recipient m.conversation_id) in
        EndsIn503 messages s.metrics s.world out
        ⊎ ((v : W) × Takes messages s.world v × Finishes s.metrics v out)

    abbrev stage : List (Text × Text)
    stage = (codes "stage", codes "stream_user_message") ∷ []

    abbrev finish_after : App W → Result (Unit {0}) × W → Result Fields × App W
    finish_after t out =
        let (r, t') = or_503 env m stage out.0 (record t { world = out.1 }) in
        continue r (λ (u : Unit {0}). finish_send env m) t'

    finish_after-Finishes :
        (t : App W) (out : Result (Unit {0}) × W)
        → env.publish
            (stream_topic m.conversation_id)
            (user_event m (env.now t.world).0)
            (env.now t.world).1
          ≡ out
        → Finishes t.metrics t.world (finish_after t out)
    unfolding or_503 record_send
    finish_after-Finishes t (return u, v) e =
        inr (v, (v, e, refl), refl, refl, ((codes "conversation_id", m.conversation_id) ∷ [], refl))
    finish_after-Finishes t (raise exc, v) e =
        inl (inl (exc, e), refl, (error_labels env m stage, refl))

    abbrev stream_and_finish : App W → Result Fields × App W
    stream_and_finish t =
        let (r, t') = publish_user_event env m t in
        continue r (λ (u : Unit {0}). finish_send env m) t'

    stream_and_finish-Finishes : (t : App W) → Finishes t.metrics t.world (stream_and_finish t)
    unfolding publish_user_event publish_or_503
    stream_and_finish-Finishes t = finish_after-Finishes t _ refl

    first-Served :
        (s : App W) (out : Result (Unit {0}) × App W)
        → Sends (map sent (compute_publish_topics m.recipient m.conversation_id)) s tt out
        → Served s (continue out.0 (λ (u : Unit {0}). stream_and_finish) out.1)
    first-Served s (return u, t) (inl (takes, r, same)) = inr (
      t.world,
      takes,
      subst (λ metrics. Finishes metrics t.world (stream_and_finish t)) same
          (stream_and_finish-Finishes t),
    )
    first-Served s (return u, t) (inr (stops, r, counts)) = let bad : ⊥ = cc in absurd bad
    first-Served s (raise exc, t) (inl (takes, r, same)) = let bad : ⊥ = cc in absurd bad
    first-Served s (raise exc, t) (inr (stops, r, counts)) = inl (stops, cc, counts)

    -- Over any bus, the handler publishes the request to each of its topics in order and then the
    -- user message to the conversation's stream, and stops at the first publish that fails. If one
    -- fails, it ends with the 503, the failure is counted, and the world is the one that this
    -- publish left. If all are taken, it ends with its reply, the send is counted, and the world is
    -- that of the record of the user message after the last publish.
    pub send-Served : (s : App W) → Served s (send env m s)
    unfolding send
    send-Served s =
        first-Served s (publish_all env m (compute_publish_topics m.recipient m.conversation_id) s)
          (publish_all-Sends (compute_publish_topics m.recipient m.conversation_id) s)
