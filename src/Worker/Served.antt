-- ===== src/Worker/Served.antt =====
-- A worker with no Redis: which envelopes a pass serves.
use magent.Prelude.{
  ◌+◌, ◌≡◌, refl, ap, ◌∙◌, ◌⊎◌, inl, inr, Bool, true, false, not, Bool-cases, none, [], ◌∷◌, Text,
  has_text, same_text, same_text_refl,
}
use magent.Prelude.Exec.{Result, return, raise}
use magent.Worker.{Envelope, Env, Worker}
use magent.Worker.Retry.{run_and_stream_with_retry}
use magent.Worker.Claims.{already_processed, mark_processed, acquire_lock}
use magent.Worker.Memory.{recorded}
use magent.Worker.Drain.{Progress, run_locked, after_run, visit_envelope}
use magent.Worker.Frame.{run_and_stream_with_retry-SameClaims}
use magent.Worker.Once.{seen_facts, lock_facts, unlock-recorded, mark-recorded}
use magent.Worker.Runs.{
  SameRun, SameRun-refl, SameRun-trans, Runs, seen-SameRun, lock-SameRun, claims-SameRun,
}

-- The envelope is served between `w` and `w'`: it was not recorded and its lock was free, and
-- afterwards it is recorded.
pub record IsNew {W : Type 0} (w w' : Worker W) (e : Envelope) : Type 0 where
  pub unseen : recorded w e.conversation_id e.id ≡ false
  pub unlocked : has_text e.conversation_id w.locks_in_memory ≡ false
  pub marked : recorded w' e.conversation_id e.id ≡ true

-- What a visit that returns does with an envelope.
abbrev pub Skips : {W : Type 0} → Progress → Worker W → Progress → Worker W → Type 0
Skips p w p' w' = (p' ≡ p) × SameRun w w' × ((c i : Text) → recorded w' c i ≡ recorded w c i)

pub record Serves {W : Type 0} (env : Env W) (p : Progress) (w : Worker W) (e : Envelope)
    (p' : Progress) (w' : Worker W) : Type 0 where
  pub fresh : has_text e.conversation_id p.processed_conversations ≡ false
  pub is_new : IsNew w w' e
  pub runs : Runs env (e ∷ []) w w'
  pub others :
      (c i : Text) → same_text e.conversation_id c ≡ false → recorded w' c i ≡ recorded w c i
  pub count : p'.processed_count ≡ p.processed_count + 1
  pub conversations : p'.processed_conversations ≡ e.conversation_id ∷ p.processed_conversations

module _ {W : Type 0} (env : Env W) (in_memory : env.client ≡ none) where
  abbrev pub Visited : Progress → Worker W → Envelope → Result Progress × Worker W → Type 0
  Visited p w e (return p', w') = Skips p w p' w' ⊎ Serves env p w e p' w'
  Visited p w e (raise exc, w') = Unit

  after_run-Visited :
      (id : Text) (e : Envelope) (p : Progress) (w u v : Worker W) (r : Result Bool)
      → has_text e.conversation_id p.processed_conversations ≡ false
      → recorded w e.conversation_id e.id ≡ false
      → has_text e.conversation_id w.locks_in_memory ≡ false
      → SameRun w u
      → ((c i : Text) → recorded v c i ≡ recorded w c i)
      → run_and_stream_with_retry env e u ≡ (r, v)
      → Visited p w e (after_run env id e p r v)
  unfolding after_run
  after_run-Visited id e p w u v (raise exc) fresh unseen free same kept run = tt
  after_run-Visited id e p w u v (return done) fresh unseen free same kept run =
      let cid = e.conversation_id in
      let marked = mark_processed env.client cid e.id v in
      inr (record {
        fresh = fresh;
        is_new = record {
          unseen = unseen;
          unlocked = free;
          marked =
              unlock-recorded env in_memory cid cid e.id marked
              ∙ mark-recorded env in_memory cid e.id cid e.id v
              ∙ rw (same_text_refl cid, same_text_refl e.id) refl;
        };
        runs = (u, done, v, same, run, claims-SameRun env in_memory cid e.id v);
        others = λ c i h.
            unlock-recorded env in_memory cid c i marked
            ∙ mark-recorded env in_memory cid e.id c i v
            ∙ rw h (kept c i);
        count = refl;
        conversations = refl;
      })

  run-recorded :
      (e : Envelope) (c i : Text) (w : Worker W)
      → recorded (run_and_stream_with_retry env e w).1 c i ≡ recorded w c i
  unfolding recorded
  run-recorded e c i w =
      let same = (run_and_stream_with_retry-SameClaims env e w).processed_by_conversation in
      rw same refl

  pub visit_envelope-Visited :
      (id : Text) (e : Envelope) (p : Progress) (w : Worker W)
      → Visited p w e (visit_envelope env id e p w)
  unfolding visit_envelope run_locked
  visit_envelope-Visited id e p w =
      let cid = e.conversation_id in
      let w₁ = (already_processed env.client cid e.id w).1 in
      let w₂ = (acquire_lock env.client cid w₁).1 in
      let (is_seen, same_locks, same₁) = seen_facts env in_memory cid e.id w in
      let (is_free, same₂) = lock_facts env in_memory cid w₁ in
      let test : (acquire_lock env.client cid w₁).0 ≡ not (has_text cid w.locks_in_memory) =
        is_free ∙ ap (λ l. not (has_text cid l)) same_locks in
      let run₁ = seen-SameRun env in_memory cid e.id w in
      let run₂ : SameRun w w₂ = SameRun-trans run₁ (lock-SameRun env in_memory cid w₁) in
      let same = λ (c i : Text). same₂ c i ∙ same₁ c i in
      elim (Bool-cases (has_text cid p.processed_conversations)) [
        | inl served ↦ rw served (inl (refl, SameRun-refl w, λ c i. refl))
        | inr fresh ↦ elim (Bool-cases (recorded w cid e.id)) [
          | inl old ↦ rw (fresh, is_seen, old) (inl (refl, run₁, same₁))
          | inr unseen ↦ elim (Bool-cases (has_text cid w.locks_in_memory)) [
            | inl taken ↦ rw (fresh, is_seen, unseen, test, taken) (inl (refl, run₂, same))
            | inr free ↦
                let (r, v) = run_and_stream_with_retry env e w₂ in
                let served : Visited p w e (after_run env id e p r v) =
                  after_run-Visited id e p w w₂ v r fresh unseen free run₂
                    (λ c i. run-recorded e c i w₂ ∙ same c i) refl in
                rw (fresh, is_seen, unseen, test, free) served
          ]
        ]
      ]
