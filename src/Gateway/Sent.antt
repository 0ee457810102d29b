-- ===== src/Gateway/Sent.antt =====
-- What POST /send leaves on the bus.
use magent.Prelude.{
  ◌≡◌, refl, ◌∙◌, sym, ap, List, [], ◌∷◌, ◌++◌, map, append_assoc, append-nil, Text,
}
use magent.Prelude.Exec.{return}
use magent.Json.{Fields}
use magent.Bus.Topics.{compute_publish_topics}
use magent.Gateway.Send.{
  SendRequest, Env, App, stream_topic, dump_request, user_event, or_503, publish_or_503,
  publish_all, publish_user_event, record_send, sent_reply, send,
}

-- A bus that takes every message, and appends it to a log that nothing else changes.
pub record TakesAll {W : Type 0} (env : Env W) (log : W → List (Text × Fields)) : Type 0 where
  pub accepts : (topic : Text) (p : Fields) (w : W) → (env.publish topic p w).0 ≡ return tt
  pub appends :
      (topic : Text) (p : Fields) (w : W) → log (env.publish topic p w).1 ≡ log w ++ (topic, p) ∷ []
  pub now_log : (w : W) → log (env.now w).1 ≡ log w
  pub record_log : (c a b t : Text) (w : W) → log (env.record_user_message c a b t w) ≡ log w

module _ {W : Type 0} (env : Env W) (m : SendRequest) where
  module _ (log : W → List (Text × Fields)) (bus : TakesAll env log) where
    publish_all_lem :
        (topics : List Text) (s : App W)
        → ((publish_all env m topics s).0 ≡ return tt)
          × (log (publish_all env m topics s).1.world
              ≡ log s.world ++ map (λ topic. (topic, dump_request m)) topics)
    unfolding publish_all publish_or_503 or_503
    publish_all_lem [] s = (refl, sym (append-nil (log s.world)))
    publish_all_lem (topic ∷ topics) s =
        let t : App W = record s { world = (env.publish topic (dump_request m) s.world).1 } in
        let (ends, logged) = publish_all_lem topics t in
        let sent : Text → Text × Fields = λ topic. (topic, dump_request m) in
        rw (bus.accepts topic (dump_request m) s.world) (
          ends,
          logged
              ∙ ap (λ l. l ++ map sent topics) (bus.appends topic (dump_request m) s.world)
              ∙ append_assoc (log s.world) (sent topic ∷ []) (map sent topics),
        )

    publish_user_event_lem :
        (s : App W)
        → ((publish_user_event env m s).0 ≡ return tt)
          × (log (publish_user_event env m s).1.world
              ≡ log s.world
                ++ (stream_topic m.conversation_id, user_event m (env.now s.world).0) ∷ [])
    unfolding publish_user_event publish_or_503 or_503
    publish_user_event_lem s =
        let topic = stream_topic m.conversation_id in
        let event = user_event m (env.now s.world).0 in
        let w = (env.now s.world).1 in
        rw (bus.accepts topic event w) (
          refl,
          bus.appends topic event w ∙ ap (λ l. l ++ (topic, event) ∷ []) (bus.now_log s.world),
        )

    -- Over a bus that takes every message, the handler replies, and it has appended the request to
    -- each of its topics in their order and then, with some time stamp, the user message to the
    -- conversation's stream, and nothing else.
    pub send_publishes :
        (s : App W)
        → ((send env m s).0 ≡ return (sent_reply env m))
          × ((created_at : Text) × (log (send env m s).1.world
                ≡ log s.world
                  ++ map
                      (λ topic. (topic, dump_request m))
                      (compute_publish_topics m.recipient m.conversation_id)
                  ++ (stream_topic m.conversation_id, user_event m created_at) ∷ []))
    unfolding send record_send
    send_publishes s =
        let topics = compute_publish_topics m.recipient m.conversation_id in
        let t = (publish_all env m topics s).1 in
        let u = (publish_user_event env m t).1 in
        let (ends, logged) = publish_all_lem topics s in
        let (ends', logged') = publish_user_event_lem t in
        let created_at = (env.now t.world).0 in
        let event : List (Text × Fields) =
          (stream_topic m.conversation_id, user_event m created_at) ∷ [] in
        rw (ends, ends')
          (
            refl,
            (
              created_at,
              bus.record_log m.conversation_id m.sender m.recipient m.content u.world
                  ∙ logged'
                  ∙ ap (λ l. l ++ event) logged,
            ),
          )
