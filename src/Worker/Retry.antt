-- ===== src/Worker/Retry.antt =====
-- `_run_and_stream_with_retry`: bounded retries, and the dead-letter queue.
use magent.Prelude.{
  ℕ, zero, suc, ◌-◌, Bool, true, List, [], ◌∷◌, ◌++◌, if◌then◌else◌, any, Text, codes, contains,
}
use magent.Prelude.Exec.{
  Exec, Exception, permission_error, value_error, key_error, timeout_error, runtime_error, return,
  raise,
}
use magent.Json.{str, obj, Fields, field, end, decimal}
use magent.Worker.{Envelope, Env, Worker, change_world, increment}
use magent.Worker.Run.{run_and_stream}

pub data Category : Type 0 where
  transient policy input system : Category

unfoldable pub category_name : Category → Text
category_name transient = codes "transient"
category_name policy = codes "policy"
category_name input = codes "input"
category_name system = codes "system"

abbrev pub transient_phrases : List Text
transient_phrases =
    codes "connection error"
    ∷ codes "connection reset"
    ∷ codes "connection refused"
    ∷ codes "network is unreachable"
    ∷ codes "temporarily unavailable"
    ∷ codes "rate limit"
    ∷ codes "quota"
    ∷ codes "timeout"
    ∷ []

-- By the message, where the class of the exception decides nothing.
unfoldable pub classify_message : Text → Category
unfolding contains
classify_message msg =
    if any (λ phrase. contains phrase msg) transient_phrases then transient else system

unfoldable pub classify_exception : (Text → Text) → Exception → Category
unfolding classify_message
classify_exception lower exc = elim exc.kind [
  | permission_error ↦ policy
  | value_error ↦ input
  | key_error ↦ input
  | timeout_error ↦ transient
  | _ ↦ classify_message (lower exc.message)
]

abbrev pub dlq_topic : Text → Text
dlq_topic agent = codes "dlq:" ++ agent

abbrev pub failed_after_retries : Exception
failed_after_retries = record {
  kind = runtime_error;
  message = codes "run failed after retries; published to DLQ";
}

abbrev pub max_attempts : ℕ
max_attempts = 3

module _ {W : Type 0} (env : Env W) where
  unfoldable pub dead_letter : Text → Envelope → Exception → Fields
  dead_letter agent envelope exc = field (codes "event") (str (codes "dead_letter")) (
      field (codes "agent") (str agent) (
        field (codes "conversation_id") (str envelope.conversation_id) (
          field (codes "envelope") (obj (env.dump envelope))
            (field (codes "error") (str (env.format_exc exc)) end))))

  -- Best effort: an exception of the bus goes no further.
  unfoldable pub publish_to_dlq : Envelope → Exception → Worker W → Worker W
  unfolding dead_letter
  publish_to_dlq envelope exc w =
      change_world
        (λ world.
          (env.publish (dlq_topic w.agent_name) (dead_letter w.agent_name envelope exc) world).1)
        w

  abbrev labelled : Text → Worker W → Text → List (Text × Text) → Worker W → Worker W
  labelled name w category more =
      increment name ((codes "agent", w.agent_name) ∷ (codes "category", category) ∷ more)

  unfoldable pub soft_fail : Category → Envelope → Exception → Exec (Worker W) Bool
  unfolding publish_to_dlq category_name
  soft_fail category envelope exc w = (
    return true,
    labelled (codes "runs_soft_failed") w (category_name category) []
        (publish_to_dlq envelope exc w),
  )

  unfoldable pub final_fail : Envelope → Exception → Exec (Worker W) Bool
  unfolding publish_to_dlq
  final_fail envelope exc w = (
    raise failed_after_retries,
    labelled (codes "runs_hard_failed") w (codes "transient") ((codes "phase", codes "final") ∷ [])
        (publish_to_dlq envelope exc w),
  )

  unfoldable pub system_fail : Envelope → Exception → Exec (Worker W) Bool
  unfolding publish_to_dlq
  system_fail envelope exc w = (
    raise exc,
    change_world (env.record_run_completed w.agent_name envelope.conversation_id true) (
        labelled (codes "runs_hard_failed") w (codes "system")
          ((codes "phase", codes "immediate") ∷ []) (publish_to_dlq envelope exc w)),
  )

  unfoldable pub note_retry : ℕ → Worker W → Worker W
  note_retry attempt w =
      increment (codes "runs_retrying")
        ((codes "agent", w.agent_name)
          ∷ (codes "attempt", decimal attempt)
          ∷ (codes "category", codes "transient")
          ∷ [])
        w

  -- The `for` loop, with `left` attempts still to make after this one.
  unfoldable pub attempt_run : (left : ℕ) → Envelope → Exec (Worker W) Bool
  unfolding classify_exception soft_fail final_fail system_fail note_retry
  attempt_run zero envelope w =
      let (r, after) = run_and_stream env envelope w in
      elim r [
        | return _ ↦ (return true, after)
        | raise exc ↦ elim (classify_exception env.lower exc) [
          | transient ↦ final_fail envelope exc after
          | policy ↦ soft_fail policy envelope exc after
          | input ↦ soft_fail input envelope exc after
          | system ↦ system_fail envelope exc after
        ]
      ]
  attempt_run (suc left) envelope w =
      let (r, after) = run_and_stream env envelope w in
      let again = attempt_run left envelope (note_retry (max_attempts - suc left) after) in
      elim r [
        | return _ ↦ (return true, after)
        | raise exc ↦ elim (classify_exception env.lower exc) [
          | transient ↦ again
          | policy ↦ soft_fail policy envelope exc after
          | input ↦ soft_fail input envelope exc after
          | system ↦ system_fail envelope exc after
        ]
      ]

  -- Attempts 1 to `max_attempts`: two more after the first.
  unfoldable pub run_and_stream_with_retry : Envelope → Exec (Worker W) Bool
  run_and_stream_with_retry envelope = attempt_run 2 envelope
