-- ===== src/Worker/Attempts.antt =====
-- What `_run_and_stream_with_retry` does for each sequence of outcomes.
use magent.Prelude.{
  ℕ, zero, suc, ◌+◌, ◌-◌, ◌<◌, ◌≢◌, if◌then◌else◌, ◌≡◌, refl, ◌∙◌, Bool, true, false, arith,
}
use magent.Prelude.Exec.{Exception, return, raise}
use magent.Worker.{Envelope, Env, Worker}
use magent.Worker.Run.{run_and_stream}
use magent.Worker.Retry.{
  Category, transient, policy, input, classify_exception, soft_fail, final_fail, system_fail,
  note_retry, attempt_run, run_and_stream_with_retry, max_attempts, dlq_topic, dead_letter,
  failed_after_retries,
}

-- Policy and input errors are soft: the message counts as handled.
abbrev pub soft : Category → Bool
soft policy = true
soft input = true
soft _ = false

module _ {W : Type 0} (env : Env W) (envelope : Envelope) where
  -- The attempt numbered `n` from 0, when every attempt before it failed with a transient error.
  unfoldable pub before_attempt : ℕ → Worker W → Worker W
  before_attempt zero w = w
  before_attempt (suc n) w =
      note_retry env (suc n) (run_and_stream env envelope (before_attempt n w)).1

  abbrev pub last_failure : Worker W → Worker W
  last_failure w = (run_and_stream env envelope (before_attempt 2 w)).1

  -- The world of `after`, once the envelope is published to the dead-letter topic.
  abbrev pub dead_lettered : Exception → Worker W → W
  dead_lettered exc after =
      (env.publish (dlq_topic after.agent_name) (dead_letter env after.agent_name envelope exc)
        after.world).1

  -- The attempt numbered `n` fails with a transient error.
  abbrev pub FailsTransiently : ℕ → Worker W → Type 0
  FailsTransiently n w =
      (exc : Exception) × ((run_and_stream env envelope (before_attempt n w)).0 ≡ raise exc)
      × (classify_exception env.lower exc ≡ transient)

  retry_step :
      (left : ℕ) (w : Worker W) (exc : Exception)
      → (run_and_stream env envelope w).0 ≡ raise exc
      → classify_exception env.lower exc ≡ transient
      → attempt_run env (suc left) envelope w
        ≡ attempt_run env left envelope
            (note_retry env (max_attempts - suc left) (run_and_stream env envelope w).1)
  unfolding attempt_run
  retry_step left w exc fails category = ground arith

  retry_steps :
      (n left : ℕ) (w : Worker W)
      → left + n ≡ 2
      → ((i : ℕ) → i < n → FailsTransiently i w)
      → run_and_stream_with_retry env envelope w
        ≡ attempt_run env left envelope (before_attempt n w)
  unfolding before_attempt run_and_stream_with_retry
  retry_steps zero left w e fail = let two : left ≡ 2 = omega arith in rw two refl
  retry_steps (suc n) left w e fail =
      let (exc, fails, category) = fail n (omega arith) in
      let number : max_attempts - suc left ≡ suc n = omega arith in
      rw number at (
        retry_steps n (suc left) w (omega arith) (λ i h. fail i (omega arith))
        ∙ retry_step left (before_attempt n w) exc fails category)

  succeeds :
      (left : ℕ) (w : Worker W)
      → (run_and_stream env envelope w).0 ≡ return tt
      → attempt_run env left envelope w ≡ (return true, (run_and_stream env envelope w).1)
  unfolding attempt_run
  succeeds zero w done = ground arith
  succeeds (suc left) w done = ground arith

  stops :
      (left : ℕ) (w : Worker W) (exc : Exception)
      → (run_and_stream env envelope w).0 ≡ raise exc
      → classify_exception env.lower exc ≢ transient
      → (attempt_run env left envelope w).0
        ≡ (if soft (classify_exception env.lower exc) then return true else raise exc)
  unfolding attempt_run soft_fail system_fail
  stops zero w exc fails category = ground arith
  stops (suc left) w exc fails category = ground arith

  gives_up :
      (v : Worker W) (exc : Exception)
      → (run_and_stream env envelope v).0 ≡ raise exc
      → classify_exception env.lower exc ≡ transient
      → attempt_run env 0 envelope v ≡ final_fail env envelope exc (run_and_stream env envelope v).1
  unfolding attempt_run
  gives_up v exc fails category = ground arith

  -- When the attempts before the `n`-th fail with transient errors and the `n`-th succeeds, counted
  -- from 0 and below the limit of 3, the loop returns True in the state that this attempt leaves, so
  -- it makes no further attempt and no dead letter.
  pub retry_recovers :
      (n : ℕ) (w : Worker W)
      → n < max_attempts
      → ((i : ℕ) → i < n → FailsTransiently i w)
      → (run_and_stream env envelope (before_attempt n w)).0 ≡ return tt
      → run_and_stream_with_retry env envelope w
        ≡ (return true, (run_and_stream env envelope (before_attempt n w)).1)
  retry_recovers n w few fail done =
      retry_steps n (2 - n) w (omega arith) fail ∙ succeeds (2 - n) (before_attempt n w) done

  -- When each of the three attempts fails with a transient error, the loop raises the error of
  -- exhausted retries, and its world is that of the last attempt with the envelope and that
  -- attempt's exception published to the dead-letter topic.
  pub retry_exhausts :
      (w : Worker W)
      → ((i : ℕ) → i < max_attempts → FailsTransiently i w)
      → (exc : Exception) × ((run_and_stream env envelope (before_attempt 2 w)).0 ≡ raise exc)
        × ((run_and_stream_with_retry env envelope w).0 ≡ raise failed_after_retries)
        × ((run_and_stream_with_retry env envelope w).1.world ≡ dead_lettered exc (last_failure w))
  unfolding final_fail
  retry_exhausts w fail =
      let (exc, fails, category) = fail 2 (omega arith) in
      let e =
        retry_steps 2 0 w (omega arith) (λ i h. fail i (omega arith))
        ∙ gives_up (before_attempt 2 w) exc fails category in
      (exc, fails, rw e refl, rw e refl)

  -- A failure that is not transient, after transient ones only and within the limit, ends the loop:
  -- a policy or input error makes it return True, and any other is raised as it is.
  pub retry_stops :
      (n : ℕ) (w : Worker W) (exc : Exception)
      → n < max_attempts
      → ((i : ℕ) → i < n → FailsTransiently i w)
      → (run_and_stream env envelope (before_attempt n w)).0 ≡ raise exc
      → classify_exception env.lower exc ≢ transient
      → ((run_and_stream_with_retry env envelope w).0
          ≡ (if soft (classify_exception env.lower exc) then return true else raise exc))
  retry_stops n w exc few fail fails category =
      rw (retry_steps n (2 - n) w (omega arith) fail)
        (stops (2 - n) (before_attempt n w) exc fails category)
