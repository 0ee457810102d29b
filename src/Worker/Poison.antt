-- ===== src/Worker/Poison.antt =====
-- The position in the inbound stream over a pass that raises.
use magent.Prelude.{ℕ, ◌≡◌, refl, ◌∙◌, Option, List, [], ◌∷◌, ◌++◌, arith, Text}
use magent.Prelude.Exec.{Exception, Result, return, raise, continue, continue-keeps}
use magent.Bus.{BusMessage}
use magent.Bus.Topics.{chat_topic}
use magent.Worker.{RedisCommands, Envelope, Env, Worker}
use magent.Worker.Retry.{run_and_stream_with_retry}
use magent.Worker.Claims.{already_processed, mark_processed, acquire_lock, release_lock}
use magent.Worker.Drain.{
  Progress, run_locked, after_run, visit_envelope, visit, visit_validated, drain, start_of,
  finish_drain, drain_all, process_available,
}
use magent.Worker.Frame.{run_and_stream_with_retry-SameClaims}

module _ {W : Type 0} (client : Option (RedisCommands W)) (cid id : Text) (w : Worker W) where
  already_processed-last : (already_processed client cid id w).1.last_inbound_id ≡ w.last_inbound_id
  unfolding already_processed
  already_processed-last = ground arith

  mark_processed-last : (mark_processed client cid id w).last_inbound_id ≡ w.last_inbound_id
  unfolding mark_processed
  mark_processed-last = ground arith

module _ {W : Type 0} (client : Option (RedisCommands W)) (cid : Text) (w : Worker W) where
  acquire_lock-last : (acquire_lock client cid w).1.last_inbound_id ≡ w.last_inbound_id
  unfolding acquire_lock
  acquire_lock-last = ground arith

  release_lock-last : (release_lock client cid w).last_inbound_id ≡ w.last_inbound_id
  unfolding release_lock
  release_lock-last = ground arith

module _ {W : Type 0} (env : Env W) where
  run_locked-last :
      (id : Text) (envelope : Envelope) (p : Progress) (w : Worker W)
      → (run_locked env id envelope p w).1.last_inbound_id ≡ w.last_inbound_id
  unfolding run_locked after_run
  run_locked-last id envelope p w =
      let after = (run_and_stream_with_retry env envelope w).1 in
      let cid = envelope.conversation_id in
      let marked = mark_processed env.client cid envelope.id after in
      ground (
        arith,
        run_and_stream_with_retry-SameClaims env envelope w,
        mark_processed-last env.client cid envelope.id after,
        release_lock-last env.client cid marked,
        release_lock-last env.client cid after,
      )

  visit_envelope-last :
      (id : Text) (envelope : Envelope) (p : Progress) (w : Worker W)
      → (visit_envelope env id envelope p w).1.last_inbound_id ≡ w.last_inbound_id
  unfolding visit_envelope
  visit_envelope-last id envelope p w =
      let cid = envelope.conversation_id in
      let w₁ = (already_processed env.client cid envelope.id w).1 in
      let w₂ = (acquire_lock env.client cid w₁).1 in
      ground (
        arith,
        already_processed-last env.client cid envelope.id w,
        acquire_lock-last env.client cid w₁,
        run_locked-last id envelope p w₂,
      )

  visit_validated-last :
      (id : Text) (r : Result Envelope) (p : Progress) (w : Worker W)
      → (visit_validated env id r p w).1.last_inbound_id ≡ w.last_inbound_id
  unfolding visit_validated
  visit_validated-last id (return envelope) p w = visit_envelope-last id envelope p w
  visit_validated-last id (raise exc) p w = refl

  pub drain-last :
      (last : Option Text) (messages : List BusMessage) (p : Progress) (w : Worker W)
      → w.last_inbound_id ≡ last
      → (drain env messages p w).1.last_inbound_id ≡ last
  unfolding drain visit
  drain-last last [] p w h = h
  drain-last last (msg ∷ messages) p w h =
      let (r, w') = visit env msg p w in
      continue-keeps (λ v. v.last_inbound_id ≡ last) r (drain env messages) w'
        (drain-last last messages) (visit_validated-last msg.id (env.validate msg.payload) p w ∙ h)

  drain-raises :
      (before : List BusMessage) (bad : BusMessage) (rest : List BusMessage) (e : Exception)
      (p : Progress) (w : Worker W)
      → env.validate bad.payload ≡ raise e
      → (exc : Exception) × ((drain env (before ++ bad ∷ rest) p w).0 ≡ raise exc)
  unfolding drain visit visit_validated
  drain-raises [] bad rest e p w h = (e, rw h refl)
  drain-raises (msg ∷ before) bad rest e p w h =
      let (r, w') = visit env msg p w in
      continue-raises r w' (λ q v. drain-raises before bad rest e q v h)
    where
      continue-raises :
          (r : Result Progress) (v : Worker W)
          → ((q : Progress) (u : Worker W)
              → (exc : Exception) × ((drain env (before ++ bad ∷ rest) q u).0 ≡ raise exc))
          → (exc : Exception) × ((continue r (drain env (before ++ bad ∷ rest)) v).0 ≡ raise exc)
      continue-raises (return q) v later = later q v
      continue-raises (raise exc) v later = (exc, refl)

  drain_all-last :
      (messages : List BusMessage) (w : Worker W) (exc : Exception)
      → (drain_all env messages w).0 ≡ raise exc
      → (drain_all env messages w).1.last_inbound_id ≡ w.last_inbound_id
  unfolding drain_all
  drain_all-last [] w exc h = refl
  drain_all-last (msg ∷ messages) w exc h =
      let (r, w') = drain env (msg ∷ messages) (start_of w) w in
      kept r w' exc (drain-last w.last_inbound_id (msg ∷ messages) (start_of w) w refl) h
    where
      kept :
          (r : Result Progress) (v : Worker W) (exc : Exception)
          → v.last_inbound_id ≡ w.last_inbound_id
          → (finish_drain r v).0 ≡ raise exc
          → (finish_drain r v).1.last_inbound_id ≡ w.last_inbound_id
      kept (return p) v exc same h = unfold finish_drain in cc
      kept (raise _) v exc same h = unfold finish_drain in same

  drain_all-raises :
      (before : List BusMessage) (bad : BusMessage) (rest : List BusMessage) (e : Exception)
      (w : Worker W)
      → env.validate bad.payload ≡ raise e
      → (exc : Exception) × ((drain_all env (before ++ bad ∷ rest) w).0 ≡ raise exc)
  unfolding drain_all finish_drain
  drain_all-raises [] bad rest e w h =
      let (exc, raises) = drain-raises [] bad rest e (start_of w) w h in (exc, rw raises refl)
  drain_all-raises (msg ∷ before) bad rest e w h =
      let (exc, raises) = drain-raises (msg ∷ before) bad rest e (start_of w) w h in
      (exc, ground arith)

  -- When a pass reads a message that fails validation, at any place among the messages, the pass
  -- raises and the position in the inbound stream stays where it was.
  pub process_available_poison :
      (limit : ℕ) (w : Worker W) (world : W) (before : List BusMessage) (bad : BusMessage)
      (rest : List BusMessage) (e : Exception)
      → env.read (chat_topic w.agent_name) w.last_inbound_id limit w.world
        ≡ (return (before ++ bad ∷ rest), world)
      → env.validate bad.payload ≡ raise e
      → ((exc : Exception) × ((process_available env limit w).0 ≡ raise exc))
        × ((process_available env limit w).1.last_inbound_id ≡ w.last_inbound_id)
  unfolding process_available
  process_available_poison limit w world before bad rest e read invalid =
      let w' = record w { world = world } in
      let (exc, raises) = drain_all-raises before bad rest e w' invalid in
      rw read ((exc, raises), drain_all-last (before ++ bad ∷ rest) w' exc raises)
