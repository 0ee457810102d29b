-- ===== src/Gateway/Checks.antt =====
-- The gateway at work: the theorems at concrete payloads and requests.
use magent.Prelude.{
  ◌≤◌, ◌≡◌, refl, ◌⊎◌, some, List, [], ◌∷◌, ◌++◌, map, Text, codes, same_text, if◌then◌else◌, strip,
}
use magent.Prelude.Exec.{Exception, other_error, return, raise}
use magent.Json.{Value, str, Fields, end, field, get}
use magent.Bus.Topics.{compute_publish_topics}
use magent.Gateway.Sse.{dumps_length, truncated_event, truncate_payload_for_sse}
use magent.Gateway.Fits.{truncate_fits, truncate_keeps_event}
use magent.Gateway.Send.{
  SendRequest, Env, App, stream_topic, dump_request, user_event, sent_reply, unavailable,
  publish_all, publish_or_503, or_503, send,
}
use magent.Gateway.Sent.{TakesAll, send_publishes}
use magent.Gateway.Outcome.{Served, send-Served}

abbrev str_of : Value → Text
str_of v = codes "value"

abbrev token : Fields
token =
    field (codes "event") (str (codes "token"))
      (field (codes "text") (str (codes "a long text that does not fit the limit at all")) end)

truncate_fits_example :
    (dumps_length (truncate_payload_for_sse str_of token (some 70)) ≤ 70)
    ⊎ (truncate_payload_for_sse str_of token (some 70) ≡ truncated_event)
truncate_fits_example = truncate_fits str_of token 70

token_event : get (codes "event") token ≡ some (str (codes "token"))
unfolding get same_text
token_event = refl

truncate_keeps_event_example :
    (get (codes "event") (truncate_payload_for_sse str_of token (some 70))
      ≡ some (str (codes "token")))
    ⊎ (truncate_payload_for_sse str_of token (some 70) ≡ truncated_event)
truncate_keeps_event_example = truncate_keeps_event str_of token 70 (codes "token") token_event

-- A world that is the log of what was published.
abbrev Log : Type 0
Log = List (Text × Fields)

abbrev env : Env Log
env = record {
  publish = λ topic payload w. (return tt, w ++ (topic, payload) ∷ []);
  now = λ w. (codes "2025-01-01T00:00:00Z", w);
  record_user_message = λ c a b t w. w;
}

env-TakesAll : TakesAll env (λ w. w)
env-TakesAll = record {
  accepts = λ topic p w. refl;
  appends = λ topic p w. refl;
  now_log = λ w. refl;
  record_log = λ c a b t w. refl;
}

abbrev refusal : Exception
refusal = record { kind = other_error; message = codes "gone" }

abbrev request : SendRequest
request = record {
  id = codes "1";
  conversation_id = codes "c";
  sender = codes "user:ann";
  recipient = codes "agent:dev";
  content = codes "hi";
}

abbrev app : App Log
app = record { world = []; metrics = [] }

-- A bus that takes the conversation's topic and refuses the agent's.
abbrev refusing : Env Log
refusing = record env {
  publish = λ topic payload w. (
    if same_text topic (codes "chat:dev") then raise refusal else return tt,
    w ++ (topic, payload) ∷ [],
  );
}

send-Served_example : Served refusing request app (send refusing request app)
send-Served_example = send-Served refusing request app

refused_send : (send refusing request app).0 ≡ raise unavailable
unfolding send publish_all publish_or_503 or_503 compute_publish_topics same_text strip
refused_send = refl

send_publishes_example :
    ((send env request app).0 ≡ return (sent_reply env request))
    × ((created_at : Text) × ((send env request app).1.world
          ≡ []
            ++ map
                (λ topic. (topic, dump_request request))
                (compute_publish_topics (codes "agent:dev") (codes "c"))
            ++ (stream_topic (codes "c"), user_event request created_at) ∷ []))
send_publishes_example = send_publishes env request (λ w. w) env-TakesAll app
