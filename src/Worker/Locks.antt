-- ===== src/Worker/Locks.antt =====
-- The in-memory run locks over a pass.
use magent.Prelude.{
  ℕ, ◌≡◌, refl, ◌∙◌, false, none, List, [], ◌∷◌, arith, Text, has_text, discard, same_text_refl,
}
use magent.Prelude.Exec.{Result, return, raise, continue-keeps}
use magent.Bus.{BusMessage}
use magent.Bus.Topics.{chat_topic}
use magent.Worker.{Envelope, Env, Worker, on_world}
use magent.Worker.Claims.{already_processed, mark_processed, acquire_lock, release_lock}
use magent.Worker.Drain.{
  Progress, run_locked, after_run, visit_envelope, visit, drain, finish_drain, visit_validated,
  start_of, drain_all, process_available,
}
use magent.Worker.Frame.{run_and_stream_with_retry-SameClaims}

pub discard_absent :
    (name : Text) (names : List Text) → has_text name names ≡ false → discard name names ≡ names
unfolding has_text discard
discard_absent name [] h = refl
discard_absent name (n ∷ names) h = ground (arith, discard_absent name names)

discard_added :
    (name : Text) (names : List Text)
    → has_text name names ≡ false
    → discard name (name ∷ names) ≡ names
unfolding discard
discard_added name names h = rw (same_text_refl name) (discard_absent name names h)

finish_drain-locks :
    {W : Type 0} (locks : List Text) (r : Result Progress) (w : Worker W)
    → w.locks_in_memory ≡ locks
    → (finish_drain r w).1.locks_in_memory ≡ locks
unfolding finish_drain
finish_drain-locks locks (return p) w h = h
finish_drain-locks locks (raise exc) w h = h

module _ {W : Type 0} (env : Env W) (in_memory : env.client ≡ none) where
  run_locked-locks :
      (id : Text) (envelope : Envelope) (p : Progress) (w : Worker W)
      → (run_locked env id envelope p w).1.locks_in_memory
        ≡ discard envelope.conversation_id w.locks_in_memory
  unfolding run_locked after_run mark_processed release_lock
  run_locked-locks id envelope p w =
      ground (arith, run_and_stream_with_retry-SameClaims env envelope w)

  visit_envelope-locks :
      (id : Text) (envelope : Envelope) (p : Progress) (w : Worker W)
      → (visit_envelope env id envelope p w).1.locks_in_memory ≡ w.locks_in_memory
  unfolding visit_envelope already_processed acquire_lock
  visit_envelope-locks id envelope p w =
      let cid = envelope.conversation_id in
      let w₁ = (already_processed env.client cid envelope.id w).1 in
      ground (
        arith,
        run_locked-locks id envelope p (acquire_lock env.client cid w₁).1,
        discard_added cid w.locks_in_memory,
      )

  visit_validated-locks :
      (id : Text) (r : Result Envelope) (p : Progress) (w : Worker W)
      → (visit_validated env id r p w).1.locks_in_memory ≡ w.locks_in_memory
  unfolding visit_validated
  visit_validated-locks id (return envelope) p w = visit_envelope-locks id envelope p w
  visit_validated-locks id (raise exc) p w = refl

  pub visit-locks :
      (msg : BusMessage) (p : Progress) (w : Worker W)
      → (visit env msg p w).1.locks_in_memory ≡ w.locks_in_memory
  unfolding visit
  visit-locks msg p w = visit_validated-locks msg.id (env.validate msg.payload) p w

  drain-locks :
      (locks : List Text) (messages : List BusMessage) (p : Progress) (w : Worker W)
      → w.locks_in_memory ≡ locks
      → (drain env messages p w).1.locks_in_memory ≡ locks
  unfolding drain
  drain-locks locks [] p w h = h
  drain-locks locks (msg ∷ messages) p w h =
      let (r, w') = visit env msg p w in
      continue-keeps (λ v. v.locks_in_memory ≡ locks) r (drain env messages) w'
        (drain-locks locks messages) (visit-locks msg p w ∙ h)

  drain_all-locks :
      (locks : List Text) (messages : List BusMessage) (w : Worker W)
      → w.locks_in_memory ≡ locks
      → (drain_all env messages w).1.locks_in_memory ≡ locks
  unfolding drain_all
  drain_all-locks locks [] w h = h
  drain_all-locks locks (msg ∷ messages) w h =
      let (r, w') = drain env (msg ∷ messages) (start_of w) w in
      finish_drain-locks locks r w' (drain-locks locks (msg ∷ messages) (start_of w) w h)

  -- For a worker with no Redis client, a pass leaves the in-memory run locks as they were, whether
  -- it returns or raises.
  pub process_available-locks :
      (limit : ℕ) (w : Worker W)
      → (process_available env limit w).1.locks_in_memory ≡ w.locks_in_memory
  unfolding process_available
  process_available-locks limit w =
      let (r, w') = on_world (env.read (chat_topic w.agent_name) w.last_inbound_id limit) w in
      continue-keeps (λ v. v.locks_in_memory ≡ w.locks_in_memory) r (drain_all env) w'
        (drain_all-locks w.locks_in_memory) refl
