-- ===== src/Worker/Drain.antt =====
-- `process_available`: one pass over the inbound messages.
use magent.Prelude.{ℕ, ◌+◌, Bool, Option, some, List, [], ◌∷◌, if◌then◌else◌, Text, has_text}
use magent.Prelude.Exec.{Exec, Result, return, raise, continue}
use magent.Bus.{BusMessage}
use magent.Bus.Topics.{chat_topic}
use magent.Worker.{Envelope, Env, Worker, on_world}
use magent.Worker.Retry.{run_and_stream_with_retry}
use magent.Worker.Claims.{already_processed, mark_processed, acquire_lock, release_lock}

-- The local variables of the pass.
pub record Progress : Type 0 where
  pub processed_count : ℕ
  pub processed_conversations : List Text
  pub last_processed_id : Option Text

module _ {W : Type 0} where
  abbrev pub start_of : Worker W → Progress
  start_of w = record {
    processed_count = 0;
    processed_conversations = [];
    last_processed_id = w.last_inbound_id;
  }

  unfoldable pub finish_drain : Result Progress → Worker W → Result ℕ × Worker W
  finish_drain (return p) w =
      (return p.processed_count, record w { last_inbound_id = p.last_processed_id })
  finish_drain (raise exc) w = (raise exc, w)

module _ {W : Type 0} (env : Env W) where
  -- The end of the `try … finally`: the claim is recorded on success, the lock always released.
  unfoldable pub after_run :
      Text → Envelope → Progress → Result Bool → Worker W → Result Progress × Worker W
  after_run message_id envelope p (return _) w =
      let cid = envelope.conversation_id in
      (
        return (record {
          processed_count = p.processed_count + 1;
          processed_conversations = cid ∷ p.processed_conversations;
          last_processed_id = some message_id;
        }),
        release_lock env.client cid (mark_processed env.client cid envelope.id w),
      )
  after_run message_id envelope p (raise exc) w =
      (raise exc, release_lock env.client envelope.conversation_id w)

  -- With the lock held.
  unfoldable pub run_locked : Text → Envelope → Progress → Exec (Worker W) Progress
  run_locked message_id envelope p w =
      let (r, after) = run_and_stream_with_retry env envelope w in
      after_run message_id envelope p r after

  -- The body of the `for` loop, behind the validation.
  unfoldable pub visit_envelope : Text → Envelope → Progress → Exec (Worker W) Progress
  visit_envelope message_id envelope p w =
      let cid = envelope.conversation_id in
      let (seen, w₁) = already_processed env.client cid envelope.id w in
      let (locked, w₂) = acquire_lock env.client cid w₁ in
      let run = run_locked message_id envelope p w₂ in
      if has_text cid p.processed_conversations
      then (return p, w)
      else if seen
      then (return p, w₁)
      else if locked
      then run
      else (return p, w₂)

  -- `model_validate` is outside of every `try`: its exception ends the pass.
  unfoldable pub visit_validated : Text → Result Envelope → Progress → Exec (Worker W) Progress
  visit_validated message_id (return envelope) p w = visit_envelope message_id envelope p w
  visit_validated message_id (raise exc) p w = (raise exc, w)

  unfoldable pub visit : BusMessage → Progress → Exec (Worker W) Progress
  visit msg p w = visit_validated msg.id (env.validate msg.payload) p w

  unfoldable pub drain : List BusMessage → Progress → Exec (Worker W) Progress
  drain [] p w = (return p, w)
  drain (msg ∷ messages) p w = let (r, w') = visit msg p w in continue r (drain messages) w'

  unfoldable pub drain_all : List BusMessage → Exec (Worker W) ℕ
  drain_all [] w = (return 0, w)
  drain_all (msg ∷ messages) w =
      let (r, w') = drain (msg ∷ messages) (start_of w) w in finish_drain r w'

  unfoldable pub process_available : ℕ → Exec (Worker W) ℕ
  process_available limit w =
      let (r, w') = on_world (env.read (chat_topic w.agent_name) w.last_inbound_id limit) w in
      continue r drain_all w'
