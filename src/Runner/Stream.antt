-- ===== src/Runner/Stream.antt =====
-- One run: the events of the SDK go through a bounded queue to the consumer of `stream_run`.
use magent.Prelude.{
  ℕ, zero, suc, ◌+◌, Bool, true, false, Option, none, some, List, [], ◌∷◌, ◌++◌, length, ltb,
  if◌then◌else◌, Text,
}
use magent.Runner.Objects.{Obj}
use magent.Runner.Step.{StreamEvent, token, tool_step, output, Env, ToolState}
use magent.Runner.Events.{map_event}

-- The producer's thread and the consumer alternate in any way: the SDK streams an event, behind each
-- of whose mapped events the consumer takes as many times as `taken` says, or the consumer takes from
-- the queue. A `get` on an empty queue waits, so it does nothing.
pub data Turn : Type 0 where
  sdk_event : Obj → (taken : List ℕ) → Turn
  get : Turn

-- How the SDK's stream ends: it is exhausted, or it raises.
pub data Ending : Type 0 where
  exhausted failed : Ending

-- What the consumer has received when it stops, or when it waits and nothing more will come.
pub data Outcome : Type 0 where
  finished blocked : List StreamEvent → Outcome

-- In `queue`, `none` is the sentinel; `accumulated` joins the texts of the tokens.
pub record Run (W : Type 0) : Type 0 where
  pub tools : ToolState W
  pub queue : List (Option StreamEvent)
  pub received : List StreamEvent
  pub token_index : ℕ
  pub accumulated : Text
  pub saw_output : Bool

abbrev pub maxsize : ℕ
maxsize = 1024

-- `queue.put_nowait(item)`, where `Full` is passed over.
unfoldable pub put_nowait :
    Option StreamEvent → List (Option StreamEvent) → List (Option StreamEvent)
put_nowait item queue = if ltb (length queue) maxsize then queue ++ item ∷ [] else queue

-- The consumer's loop once the producer is done.
unfoldable pub drain_queue : List (Option StreamEvent) → List StreamEvent → Outcome
drain_queue [] received = blocked received
drain_queue (none ∷ queue) received = finished received
drain_queue (some event ∷ queue) received = drain_queue queue (received ++ event ∷ [])

module _ {W : Type 0} where
  unfoldable pub enqueue_event : StreamEvent → Run W → Run W
  unfolding put_nowait
  enqueue_event (token conversation_id text index) r = record r {
    queue = put_nowait (some (token conversation_id text index)) r.queue;
    token_index = r.token_index + 1;
    accumulated = r.accumulated ++ text;
  }
  enqueue_event (tool_step step) r = record r { queue = put_nowait (some (tool_step step)) r.queue }
  enqueue_event (output conversation_id text usage) r = record r {
    queue = put_nowait (some (output conversation_id text usage)) r.queue;
    saw_output = true;
  }

  abbrev pub received_from : List (Option StreamEvent) → Run W → Run W
  received_from (some event ∷ queue) r = record r {
    queue = queue;
    received = r.received ++ event ∷ [];
  }
  received_from queue r = r

  -- The consumer yields one event, where there is one.
  unfoldable pub take_event : Run W → Run W
  take_event r = received_from r.queue r

  -- The consumer takes so many times.
  abbrev pub take_late : ℕ → Run W → Run W
  take_late zero r = r
  take_late (suc late) r = take_late late (take_event r)

  -- Behind each event the consumer may take some of what is there.
  unfoldable pub enqueue_mapped_event : (taken : List ℕ) → List StreamEvent → Run W → Run W
  unfolding enqueue_event
  enqueue_mapped_event taken [] r = r
  enqueue_mapped_event [] (event ∷ events) r =
      enqueue_mapped_event [] events (enqueue_event event r)
  enqueue_mapped_event (n ∷ taken) (event ∷ events) r =
      enqueue_mapped_event taken events (take_late n (enqueue_event event r))

  unfoldable pub emit_synth_output : Text → Run W → Run W
  unfolding put_nowait
  emit_synth_output conversation_id r = record r {
    queue = put_nowait (some (output conversation_id r.accumulated none)) r.queue;
  }

  unfoldable pub finish_run : Text → Ending → Run W → Run W
  unfolding emit_synth_output
  finish_run conversation_id exhausted r =
      if r.saw_output then r else emit_synth_output conversation_id r
  finish_run conversation_id failed r = r

  unfoldable pub put_sentinel : Run W → Run W
  unfolding put_nowait
  put_sentinel r = record r { queue = put_nowait none r.queue }

module _ {W : Type 0} (env : Env W) (conversation_id : Text) where
  unfoldable pub take_turn : Turn → Run W → Run W
  unfolding map_event enqueue_mapped_event take_event
  take_turn (sdk_event ev taken) r =
      let (events, tools') = map_event env conversation_id ev r.token_index r.tools in
      enqueue_mapped_event taken events (record r { tools = tools' })
  take_turn get r = take_event r

  unfoldable pub process_event_stream : List Turn → Run W → Run W
  unfolding take_turn
  process_event_stream [] r = r
  process_event_stream (turn ∷ turns) r = process_event_stream turns (take_turn turn r)

  abbrev pub new_run : ToolState W → Run W
  new_run tools = record {
    tools = tools;
    queue = [];
    received = [];
    token_index = 0;
    accumulated = [];
    saw_output = false;
  }

  -- `late` is how often the consumer takes between the last event and the sentinel.
  unfoldable pub stream_run : List Turn → Ending → (late : ℕ) → ToolState W → Outcome
  unfolding process_event_stream finish_run put_sentinel drain_queue take_event
  stream_run turns ending late tools =
      let r = finish_run conversation_id ending (process_event_stream turns (new_run tools)) in
      let last = put_sentinel (take_late late r) in drain_queue last.queue last.received
