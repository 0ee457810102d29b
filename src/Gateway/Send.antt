-- ===== src/Gateway/Send.antt =====
-- magent2/gateway/app.py: POST /send. The bus, the observer index and the clock are parameters. Log
-- lines are left out.
use magent.Prelude.{
  ◌&&◌, not, List, [], ◌∷◌, ◌++◌, if◌then◌else◌, Text, codes, same_text, starts_with, after_sep,
}
use magent.Prelude.Exec.{Exec, Exception, http_error, Result, return, raise, pure, ◌>>◌}
use magent.Json.{str, Fields, end, field}
use magent.Observability.{Metric}
use magent.Bus.Topics.{chat_topic, compute_publish_topics}

pub record SendRequest : Type 0 where
  pub id : Text
  pub conversation_id : Text
  pub sender : Text
  pub recipient : Text
  pub content : Text

pub record Env (W : Type 0) : Type 0 where
  pub publish : (topic : Text) → Fields → Exec W (Unit {0})
  -- datetime.now(UTC).isoformat()
  pub now : W → Text × W
  -- ObserverIndex.record_user_message, which raises nothing that leaves the handler.
  pub record_user_message : (conversation_id sender recipient content : Text) → W → W

pub record App (W : Type 0) : Type 0 where
  pub world : W
  pub metrics : List Metric

abbrev pub stream_topic : Text → Text
stream_topic conversation_id = codes "stream:" ++ conversation_id

-- message.model_dump(mode="json")
unfoldable pub dump_request : SendRequest → Fields
dump_request m = field (codes "id") (str m.id) (
    field (codes "conversation_id") (str m.conversation_id) (
      field (codes "sender") (str m.sender) (
        field (codes "recipient") (str m.recipient) (
          field (codes "type") (str (codes "message"))
            (field (codes "content") (str m.content) end)))))

unfoldable pub user_event : SendRequest → (created_at : Text) → Fields
user_event m created_at = field (codes "event") (str (codes "user_message")) (
    field (codes "conversation_id") (str m.conversation_id) (
      field (codes "sender") (str m.sender)
        (field (codes "text") (str m.content) (field (codes "created_at") (str created_at) end))))

abbrev pub unavailable : Exception
unavailable = record { kind = http_error; message = codes "bus publish failed" }

module _ {W : Type 0} (env : Env W) (m : SendRequest) where
  abbrev pub increment : Text → List (Text × Text) → App W → App W
  increment name labels s = record s {
    metrics = s.metrics ++ record { name = name; labels = labels } ∷ [];
  }

  abbrev pub error_labels : List (Text × Text) → List (Text × Text)
  error_labels extra =
      (codes "path", codes "send") ∷ (codes "conversation_id", m.conversation_id) ∷ extra

  -- `except Exception`: the failure is counted and becomes a 503.
  unfoldable pub or_503 : List (Text × Text) → Result (Unit {0}) → Exec (App W) (Unit {0})
  or_503 extra (return u) s = (return tt, s)
  or_503 extra (raise exc) s =
      (raise unavailable, increment (codes "gateway_bus_publish_errors") (error_labels extra) s)

  unfoldable pub publish_or_503 : List (Text × Text) → Text → Fields → Exec (App W) (Unit {0})
  publish_or_503 extra topic payload s =
      let (r, world') = env.publish topic payload s.world in
      or_503 extra r (record s { world = world' })

  -- The label of an agent topic; the conversation topic has none.
  unfoldable pub agent_label : Text → List (Text × Text)
  unfolding same_text starts_with after_sep
  agent_label topic =
      if not (same_text topic (chat_topic m.conversation_id)) && starts_with (codes "chat:") topic
      then (codes "agent", after_sep b':' topic) ∷ []
      else []

  -- The `for` loop over the topics.
  unfoldable pub publish_all : List Text → Exec (App W) (Unit {0})
  publish_all [] = pure tt
  publish_all (topic ∷ topics) = do
    publish_or_503 (agent_label topic) topic (dump_request m)
    publish_all topics

  unfoldable pub publish_user_event : Exec (App W) (Unit {0})
  publish_user_event s =
      let (created_at, world') = env.now s.world in
      publish_or_503 ((codes "stage", codes "stream_user_message") ∷ [])
        (stream_topic m.conversation_id) (user_event m created_at) (record s { world = world' })

  unfoldable pub record_send : App W → App W
  record_send s =
      let s' =
        increment (codes "gateway_sends") ((codes "conversation_id", m.conversation_id) ∷ []) s in
      record s' {
        world = env.record_user_message m.conversation_id m.sender m.recipient m.content s'.world;
      }

  abbrev pub sent_reply : Fields
  sent_reply =
      field (codes "status") (str (codes "ok"))
        (field (codes "topic") (str (chat_topic m.conversation_id)) end)

  abbrev pub finish_send : Exec (App W) Fields
  finish_send s = (return sent_reply, record_send s)

  unfoldable pub send : Exec (App W) Fields
  send = do
    publish_all (compute_publish_topics m.recipient m.conversation_id)
    publish_user_event
    finish_send
