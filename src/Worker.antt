-- ===== src/Worker.antt =====
-- magent2/worker/worker.py: the worker's state, and the parts of the program that it is given.
-- A worker acts on a world that it shares with others: the bus, Redis, the observer index. What
-- stands outside the file (the bus, the runner, pydantic's validation, the Redis client) is `Env`.
-- Log lines, durations and sleeps are left out; metrics are kept in the order of their increments.
pub mod Run
pub mod Retry
pub mod Drain
pub mod Claims
pub mod Frame
pub mod Locks
pub mod Poison
pub mod Memory
pub mod Once
pub mod Runs
pub mod Served
pub mod Drained
pub mod Pass
pub mod Attempts
pub mod Checks
use magent.Prelude.{ℕ, ◌≡◌, Bool, Option, List, ◌++◌, [], ◌∷◌, ℤ, Text, codes, Dict}
use magent.Prelude.Exec.{Exec, Exception, Result}
use magent.Json.{Value, Fields}
use magent.Bus.{BusMessage}
use magent.Observability.{Metric}

-- models/envelope.py: the fields of `MessageEnvelope` that the worker reads.
pub record Envelope : Type 0 where
  pub id : Text
  pub conversation_id : Text
  pub content : Option Text
  pub metadata : Fields

-- The commands of a Redis client that the worker uses. Each may raise.
pub record RedisCommands (W : Type 0) : Type 0 where
  pub sadd : (key member : Text) → Exec W ℕ
  pub ttl : (key : Text) → Exec W ℤ
  pub expire : (key : Text) → (seconds : ℕ) → Exec W (Unit {0})
  pub set_nx : (key : Text) → (seconds : ℕ) → Exec W Bool
  pub delete : (key : Text) → Exec W (Unit {0})

-- A generator that a run hands to its consumer. Each resumption reads the world as the consumer left
-- it and changes it: the generator yields an event and goes on, or it ends, by an exception or not.
pub data Generator (W : Type 0) : Type 0 where
  yields : (event : W → Fields) → (effect : W → W) → (resume : W → Generator W) → Generator W
  ends : (outcome : W → Option Exception) → (effect : W → W) → Generator W

pub record Env (W : Type 0) : Type 0 where
  -- Bus.read and Bus.publish.
  pub read : (topic : Text) → (last_id : Option Text) → (limit : ℕ) → Exec W (List BusMessage)
  pub publish : (topic : Text) → Fields → Exec W (Unit {0})
  -- MessageEnvelope.model_validate, and the envelope's `model_dump`.
  pub validate : Value → Result Envelope
  pub dump : Envelope → Fields
  -- `stream_run(envelope)` of the runner.
  pub stream_run : Envelope → Generator W
  -- `get_client()` of a RedisBus; `none` for any other bus.
  pub client : Option (RedisCommands W)
  -- ObserverIndex.record_run_started and record_run_completed, which raise nothing.
  pub record_run_started : (agent conversation_id : Text) → W → W
  pub record_run_completed : (agent conversation_id : Text) → (errored : Bool) → W → W
  -- tools/signals: send_signal(topic, {"ok": True}), best effort.
  pub send_done : (topic : Text) → W → W
  -- AUTO_CHILD_SIGNAL_DONE is "1".
  pub auto_signal_done : Bool
  -- str.lower and traceback.format_exc.
  pub lower : Text → Text
  pub format_exc : Exception → Text

pub record Worker (W : Type 0) : Type 0 where
  pub agent_name : Text
  pub world : W
  pub last_inbound_id : Option Text
  pub processed_by_conversation : Dict (List Text)
  pub locks_in_memory : List Text
  pub metrics : List Metric

-- An effect on the world alone.
abbrev pub on_world : {W A : Type 0} → Exec W A → Exec (Worker W) A
on_world m w = let (r, world') = m w.world in (r, record w { world = world' })

abbrev pub change_world : {W : Type 0} → (W → W) → Worker W → Worker W
change_world f w = record w { world = f w.world }

abbrev pub increment : {W : Type 0} → Text → List (Text × Text) → Worker W → Worker W
increment name labels w = record w {
  metrics = w.metrics ++ record { name = name; labels = labels } ∷ [];
}
