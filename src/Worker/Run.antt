-- ===== src/Worker/Run.antt =====
-- `_run_and_stream`: one run of the agent, its events published to the conversation's stream.
use magent.Prelude.{
  ℕ, ◌+◌, Bool, false, ◌&&◌, Option, none, some, List, [], ◌∷◌, ◌++◌, leb, if◌then◌else◌, Text,
  codes, same_text, length, starts_with, strip,
}
use magent.Prelude.Exec.{Exec, Exception, return, raise}
use magent.Json.{str, obj, Fields, get}
use magent.Worker.{
  Envelope, Generator, yields, ends, Env, Worker, on_world, change_world, increment,
}

pub record Counts : Type 0 where
  pub event_count : ℕ
  pub token_count : ℕ
  pub tool_steps : ℕ
  pub output_chars : ℕ

abbrev pub no_counts : Counts
no_counts = record { event_count = 0; token_count = 0; tool_steps = 0; output_chars = 0 }

abbrev pub stream_topic : Text → Text
stream_topic conversation_id = codes "stream:" ++ conversation_id

-- The characters of payload["text"], if it is a string.
unfoldable pub text_chars : Fields → ℕ
unfolding get
text_chars payload = elim (get (codes "text") payload) [ some (str s) ↦ length s | _ ↦ 0 ]

-- str(payload.get("event", "")) == kind; a value that is no string is none of the three kinds.
unfoldable pub is_kind : Text → Fields → Bool
unfolding get
is_kind kind payload = elim (get (codes "event") payload) [
  | some (str s) ↦ same_text s kind
  | _ ↦ false
]

unfoldable pub count_event : Counts → Fields → Counts
unfolding text_chars is_kind
count_event counts payload =
    let c = record counts { event_count = counts.event_count + 1 } in
    if is_kind (codes "token") payload
    then record c {
      token_count = counts.token_count + 1;
      output_chars = counts.output_chars + text_chars payload;
    }
    else if is_kind (codes "tool_step") payload
    then record c { tool_steps = counts.tool_steps + 1 }
    else if is_kind (codes "output") payload
    then record c { output_chars = counts.output_chars + text_chars payload }
    else c

-- Only a topic of signals, and of at most 256 characters, is signalled.
unfoldable pub signal_topic : Text → Option Text
unfolding starts_with
signal_topic topic =
    if starts_with (codes "signal:") topic && leb (length topic) 256 then some topic else none

-- The topic of the done signal, where the metadata asks for one.
unfoldable pub done_topic : Envelope → Option Text
unfolding get signal_topic strip
done_topic envelope = elim (get (codes "orchestrate") envelope.metadata) [
  | some (obj block) ↦ elim (get (codes "done_topic") block) [
    | some (str s) ↦ signal_topic (strip s)
    | _ ↦ none
  ]
  | _ ↦ none
]

module _ {W : Type 0} (env : Env W) where
  abbrev ended : Option Exception → Counts → Exec W Counts
  ended (some exc) counts w = (raise exc, w)
  ended none counts w = (return counts, w)

  -- The `for` loop over the generator: each event is published before the generator goes on.
  unfoldable pub publish_events : Text → Counts → Generator W → Exec W Counts
  unfolding count_event
  publish_events topic counts (ends outcome effect) w = ended (outcome w) counts (effect w)
  publish_events topic counts (yields event effect resume) w =
      let payload = event w in
      let (r, w') = env.publish topic payload (effect w) in
      let rest = publish_events topic (count_event counts payload) (resume w') w' in
      elim r [ return _ ↦ rest | raise exc ↦ (raise exc, w') ]

  unfoldable pub stream_events : Envelope → Exec W Counts
  unfolding publish_events
  stream_events envelope w =
      publish_events (stream_topic envelope.conversation_id) no_counts (env.stream_run envelope) w

  unfoldable pub maybe_emit_done_signal : Envelope → W → W
  unfolding done_topic
  maybe_emit_done_signal envelope w = elim (done_topic envelope) [
    | none ↦ w
    | some topic ↦ if env.auto_signal_done then env.send_done topic w else w
  ]

  abbrev run_labels : Worker W → Envelope → List (Text × Text)
  run_labels w envelope =
      (codes "agent", w.agent_name) ∷ (codes "conversation_id", envelope.conversation_id) ∷ []

  unfoldable pub run_completed : Envelope → Exec (Worker W) (Unit {0})
  run_completed envelope w = (
    return tt,
    change_world (env.record_run_completed w.agent_name envelope.conversation_id false)
        (increment (codes "runs_completed") (run_labels w envelope) w),
  )

  unfoldable pub run_errored : Envelope → Exception → Exec (Worker W) (Unit {0})
  run_errored envelope exc w =
      (raise exc, increment (codes "runs_errored") (run_labels w envelope) w)

  unfoldable pub run_and_stream : Envelope → Exec (Worker W) (Unit {0})
  unfolding stream_events maybe_emit_done_signal run_completed run_errored
  run_and_stream envelope w =
      let started =
        increment (codes "runs_started") (run_labels w envelope)
          (change_world (env.record_run_started w.agent_name envelope.conversation_id) w) in
      let (r, after) = on_world (stream_events envelope) started in
      elim r [
        | return _ ↦ run_completed envelope (change_world (maybe_emit_done_signal envelope) after)
        | raise exc ↦ run_errored envelope exc after
      ]
