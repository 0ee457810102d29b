-- ===== src/Worker/Frame.antt =====
-- The claims of the worker over a run of the agent, with its retries and dead letters.
use magent.Prelude.{ℕ, zero, suc, ◌-◌, ◌≡◌, ◌∙◌, arith}
use magent.Worker.{Envelope, Env, Worker}
use magent.Worker.Run.{run_and_stream}
use magent.Worker.Retry.{note_retry, attempt_run, run_and_stream_with_retry, max_attempts}

pub record SameClaims {W : Type 0} (w w' : Worker W) : Type 0 where
  pub agent_name : w'.agent_name ≡ w.agent_name
  pub last_inbound_id : w'.last_inbound_id ≡ w.last_inbound_id
  pub processed_by_conversation : w'.processed_by_conversation ≡ w.processed_by_conversation
  pub locks_in_memory : w'.locks_in_memory ≡ w.locks_in_memory

module _ {W : Type 0} where
  pub SameClaims-trans : {u v w : Worker W} → SameClaims u v → SameClaims v w → SameClaims u w
  SameClaims-trans a b = record {
    agent_name = b.agent_name ∙ a.agent_name;
    last_inbound_id = b.last_inbound_id ∙ a.last_inbound_id;
    processed_by_conversation = b.processed_by_conversation ∙ a.processed_by_conversation;
    locks_in_memory = b.locks_in_memory ∙ a.locks_in_memory;
  }

module _ {W : Type 0} (env : Env W) where
  run_and_stream-SameClaims :
      (envelope : Envelope) (w : Worker W) → SameClaims w (run_and_stream env envelope w).1
  unfolding run_and_stream
  run_and_stream-SameClaims envelope w = ground arith

  attempt_run-SameClaims :
      (left : ℕ) (envelope : Envelope) (w : Worker W)
      → SameClaims w (attempt_run env left envelope w).1
  unfolding attempt_run
  attempt_run-SameClaims zero envelope w = ground (arith, run_and_stream-SameClaims envelope w)
  attempt_run-SameClaims (suc left) envelope w =
      let after = (run_and_stream env envelope w).1 in
      ground (
        arith,
        run_and_stream-SameClaims envelope w,
        attempt_run-SameClaims left envelope (note_retry env (max_attempts - suc left) after),
      )

  pub run_and_stream_with_retry-SameClaims :
      (envelope : Envelope) (w : Worker W)
      → SameClaims w (run_and_stream_with_retry env envelope w).1
  unfolding run_and_stream_with_retry
  run_and_stream_with_retry-SameClaims envelope w = attempt_run-SameClaims 2 envelope w
