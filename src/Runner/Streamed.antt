-- ===== src/Runner/Streamed.antt =====
-- The events of a run without its queue, and the counters that the run keeps of them.
use magent.Prelude.{
  ℕ, zero, suc, ◌+◌, ◌≡◌, refl, subst, ◌∙◌, Bool, true, false, ◌||◌, Option, none, some, List, [],
  ◌∷◌, ◌++◌, arith, append_assoc, append-nil, if◌then◌else◌, Text,
}
use magent.Runner.Step.{StreamEvent, token, tool_step, output, Env, ToolState}
use magent.Runner.Events.{map_event}
use magent.Runner.Stream.{
  Turn, sdk_event, get, Ending, exhausted, failed, Run, put_nowait, enqueue_event,
  enqueue_mapped_event, take_event, take_late, received_from,
}

unfoldable pub tokens_in : List StreamEvent → ℕ
tokens_in [] = 0
tokens_in (token c text index ∷ events) = suc (tokens_in events)
tokens_in (tool_step step ∷ events) = tokens_in events
tokens_in (output c text usage ∷ events) = tokens_in events

unfoldable pub text_in : List StreamEvent → Text
text_in [] = []
text_in (token c text index ∷ events) = text ++ text_in events
text_in (tool_step step ∷ events) = text_in events
text_in (output c text usage ∷ events) = text_in events

unfoldable pub has_output : List StreamEvent → Bool
has_output [] = false
has_output (token c text index ∷ events) = has_output events
has_output (tool_step step ∷ events) = has_output events
has_output (output c text usage ∷ events) = true

-- The output that a run adds when its stream has ended without one.
unfoldable pub synth_output : Text → Ending → List StreamEvent → List StreamEvent
unfolding has_output text_in
synth_output conversation_id exhausted events =
    if has_output events then [] else output conversation_id (text_in events) none ∷ []
synth_output conversation_id failed events = []

pub tokens_in-append : (a b : List StreamEvent) → tokens_in (a ++ b) ≡ tokens_in a + tokens_in b
unfolding tokens_in
tokens_in-append [] b = omega arith
tokens_in-append (token c text index ∷ a) b = omega (arith, tokens_in-append a b)
tokens_in-append (tool_step step ∷ a) b = tokens_in-append a b
tokens_in-append (output c text usage ∷ a) b = tokens_in-append a b

pub text_in-append : (a b : List StreamEvent) → text_in (a ++ b) ≡ text_in a ++ text_in b
unfolding text_in
text_in-append [] b = refl
text_in-append (token c text index ∷ a) b =
    rw (text_in-append a b, append_assoc text (text_in a) (text_in b)) refl
text_in-append (tool_step step ∷ a) b = text_in-append a b
text_in-append (output c text usage ∷ a) b = text_in-append a b

pub has_output-append :
    (a b : List StreamEvent) → has_output (a ++ b) ≡ (has_output a || has_output b)
unfolding has_output
has_output-append [] b = refl
has_output-append (token c text index ∷ a) b = has_output-append a b
has_output-append (tool_step step ∷ a) b = has_output-append a b
has_output-append (output c text usage ∷ a) b = refl

-- The events of a run without a queue.
unfoldable pub events_of :
    {W : Type 0} → Env W → Text → List Turn → ℕ → ToolState W → List StreamEvent
unfolding tokens_in
events_of env c [] index tools = []
events_of env c (sdk_event ev taken ∷ turns) index tools =
    let (events, tools') = map_event env c ev index tools in
    events ++ events_of env c turns (index + tokens_in events) tools'
events_of env c (get ∷ turns) index tools = events_of env c turns index tools

-- The counters of a run are those of the events that it has streamed.
pub record Tallied {W : Type 0} (events : List StreamEvent) (r : Run W) : Type 0 where
  pub index : r.token_index ≡ tokens_in events
  pub text : r.accumulated ≡ text_in events
  pub saw : r.saw_output ≡ has_output events

module _ {W : Type 0} where
  enqueue_event-Tallied :
      (event : StreamEvent) (events : List StreamEvent) (r : Run W)
      → Tallied events r
      → Tallied (events ++ event ∷ []) (enqueue_event event r)
  unfolding enqueue_event tokens_in text_in has_output
  enqueue_event-Tallied (token c text index) events r h = record {
    index = omega (arith, h.index, tokens_in-append events (token c text index ∷ []));
    text = rw (text_in-append events (token c text index ∷ []), h.text, append-nil text) refl;
    saw = h.saw ∙ rw (has_output-append events (token c text index ∷ [])) (ground arith);
  }
  enqueue_event-Tallied (tool_step step) events r h = record {
    index = omega (arith, h.index, tokens_in-append events (tool_step step ∷ []));
    text =
        h.text ∙ rw (text_in-append events (tool_step step ∷ []), append-nil (text_in events)) refl;
    saw = h.saw ∙ rw (has_output-append events (tool_step step ∷ [])) (ground arith);
  }
  enqueue_event-Tallied (output c text usage) events r h = record {
    index = omega (arith, h.index, tokens_in-append events (output c text usage ∷ []));
    text =
        h.text
        ∙ rw (text_in-append events (output c text usage ∷ []), append-nil (text_in events)) refl;
    saw = rw (has_output-append events (output c text usage ∷ [])) (ground arith);
  }

  received_from-Tallied :
      (queue : List (Option StreamEvent)) (events : List StreamEvent) (r : Run W)
      → Tallied events r
      → Tallied events (received_from queue r)
  received_from-Tallied [] events r h = h
  received_from-Tallied (none ∷ queue) events r h = h
  received_from-Tallied (some event ∷ queue) events r h = record {
    index = h.index;
    text = h.text;
    saw = h.saw;
  }

  received_from-same :
      (queue : List (Option StreamEvent)) (r : Run W)
      → ((received_from queue r).token_index ≡ r.token_index)
        × ((received_from queue r).tools ≡ r.tools)
  received_from-same [] r = (refl, refl)
  received_from-same (none ∷ queue) r = (refl, refl)
  received_from-same (some event ∷ queue) r = (refl, refl)

  pub take_event-same :
      (r : Run W) → ((take_event r).token_index ≡ r.token_index) × ((take_event r).tools ≡ r.tools)
  unfolding take_event
  take_event-same r = received_from-same r.queue r

  pub take_event-Tallied :
      (events : List StreamEvent) (r : Run W) → Tallied events r → Tallied events (take_event r)
  unfolding take_event
  take_event-Tallied events r h = received_from-Tallied r.queue events r h

  take_late-Tallied :
      (n : ℕ) (events : List StreamEvent) (r : Run W)
      → Tallied events r
      → Tallied events (take_late n r)
  take_late-Tallied zero events r h = h
  take_late-Tallied (suc n) events r h =
      take_late-Tallied n events (take_event r) (take_event-Tallied events r h)

  pub enqueue_mapped_event-Tallied :
      (taken : List ℕ) (more events : List StreamEvent) (r : Run W)
      → Tallied events r
      → Tallied (events ++ more) (enqueue_mapped_event taken more r)
  unfolding enqueue_mapped_event
  enqueue_mapped_event-Tallied taken [] events r h = rw (append-nil events) h
  enqueue_mapped_event-Tallied [] (event ∷ more) events r h =
      subst (λ all. Tallied all (enqueue_mapped_event [] more (enqueue_event event r)))
        (append_assoc events (event ∷ []) more)
        (enqueue_mapped_event-Tallied [] more (events ++ event ∷ []) (enqueue_event event r)
          (enqueue_event-Tallied event events r h))
  enqueue_mapped_event-Tallied (n ∷ taken) (event ∷ more) events r h =
      let r' : Run W = take_late n (enqueue_event event r) in
      subst (λ all. Tallied all (enqueue_mapped_event taken more r'))
        (append_assoc events (event ∷ []) more)
        (enqueue_mapped_event-Tallied taken more (events ++ event ∷ []) r' (
          take_late-Tallied n (events ++ event ∷ []) (enqueue_event event r)
            (enqueue_event-Tallied event events r h)))

  pub enqueue_event_lem :
      (event : StreamEvent) (r : Run W)
      → ((enqueue_event event r).queue ≡ put_nowait (some event) r.queue)
        × ((enqueue_event event r).received ≡ r.received)
        × ((enqueue_event event r).tools ≡ r.tools)
  unfolding enqueue_event
  enqueue_event_lem (token c text index) r = (refl, refl, refl)
  enqueue_event_lem (tool_step step) r = (refl, refl, refl)
  enqueue_event_lem (output c text usage) r = (refl, refl, refl)

  take_late-tools : (n : ℕ) (r : Run W) → (take_late n r).tools ≡ r.tools
  take_late-tools zero r = refl
  take_late-tools (suc n) r = take_late-tools n (take_event r) ∙ (take_event-same r).1

  pub enqueue_mapped_event-tools :
      (taken : List ℕ) (events : List StreamEvent) (r : Run W)
      → (enqueue_mapped_event taken events r).tools ≡ r.tools
  unfolding enqueue_mapped_event
  enqueue_mapped_event-tools taken [] r = refl
  enqueue_mapped_event-tools [] (event ∷ events) r =
      enqueue_mapped_event-tools [] events (enqueue_event event r) ∙ (enqueue_event_lem event r).2
  enqueue_mapped_event-tools (n ∷ taken) (event ∷ events) r =
      enqueue_mapped_event-tools taken events (take_late n (enqueue_event event r))
      ∙ take_late-tools n (enqueue_event event r)
      ∙ (enqueue_event_lem event r).2
