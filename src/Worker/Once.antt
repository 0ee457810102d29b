-- ===== src/Worker/Once.antt =====
-- A worker with no Redis: what a pass that returns has done with each message that it read.
use magent.Prelude.{
  ◌≡◌, refl, ◌∙◌, ap, subst, ◌⊎◌, inl, inr, Bool, true, false, not, Bool-cases, none, List, [], ◌∷◌,
  arith, All, Text, has_text, same_text, same_text_refl, if◌then◌else◌,
}
use magent.Prelude.Exec.{Result, return, raise, continue-eq-return}
use magent.Bus.{BusMessage}
use magent.Worker.{Envelope, Env, Worker}
use magent.Worker.Retry.{run_and_stream_with_retry}
use magent.Worker.Claims.{already_processed, mark_processed, acquire_lock, release_lock}
use magent.Worker.Memory.{recorded, recorded-seen, recorded-mark}
use magent.Worker.Drain.{
  Progress, run_locked, after_run, visit_envelope, visit, visit_validated, drain,
}
use magent.Worker.Locks.{visit-locks}
use magent.Worker.Frame.{run_and_stream_with_retry-SameClaims}

-- What a part of a pass adds to: the conversations that it served, and the ids that it recorded.
pub record Extends {W : Type 0} (p : Progress) (w : Worker W) (p' : Progress) (w' : Worker W)
    : Type 0 where
  pub conversations :
      (c : Text)
      → has_text c p.processed_conversations ≡ true
      → has_text c p'.processed_conversations ≡ true
  pub records : (c i : Text) → recorded w c i ≡ true → recorded w' c i ≡ true

-- The message is recorded as processed, or the pass served another message of its conversation, or
-- the run lock of its conversation was taken.
abbrev pub Accounted : {W : Type 0} → List Text → List Text → Worker W → Envelope → Type 0
Accounted locks served w envelope =
    (recorded w envelope.conversation_id envelope.id ≡ true)
    ⊎ ((has_text envelope.conversation_id served ≡ true)
        ⊎ (has_text envelope.conversation_id locks ≡ true))

abbrev pub AccountedMessage :
    {W : Type 0} → List Text → List Text → Worker W → Result Envelope → Type 0
AccountedMessage locks served w (return envelope) = Accounted locks served w envelope
AccountedMessage locks served w (raise exc) = ⊥

module _ {W : Type 0} where
  pub Extends-refl :
      (p : Progress) (w w' : Worker W)
      → ((c i : Text) → recorded w' c i ≡ recorded w c i)
      → Extends p w p w'
  Extends-refl p w w' same = record { conversations = λ c h. h; records = λ c i h. same c i ∙ h }

  pub Extends-trans :
      {p q r : Progress} {u v w : Worker W} → Extends p u q v → Extends q v r w → Extends p u r w
  Extends-trans a b = record {
    conversations = λ c h. b.conversations c (a.conversations c h);
    records = λ c i h. b.records c i (a.records c i h);
  }

  pub Accounted-Extends :
      {p p' : Progress} {w w' : Worker W} (locks : List Text) (r : Result Envelope)
      → Extends p w p' w'
      → AccountedMessage locks p.processed_conversations w r
      → AccountedMessage locks p'.processed_conversations w' r
  Accounted-Extends locks (return envelope) x (inl h) = inl (x.records _ _ h)
  Accounted-Extends locks (return envelope) x (inr (inl h)) = inr (inl (x.conversations _ h))
  Accounted-Extends locks (return envelope) x (inr (inr h)) = inr (inr h)
  Accounted-Extends locks (raise exc) x h = h

  -- The postcondition of a part of the pass, for one message.
  abbrev Post : List Text → Progress → Worker W → Envelope → Result Progress × Worker W → Type 0
  Post locks p w envelope (return p', w') =
      Extends p w p' w' × Accounted locks p'.processed_conversations w' envelope
  Post locks p w envelope (raise exc, w') = Unit

module _ {W : Type 0} (env : Env W) (in_memory : env.client ≡ none) where
  pub seen_facts :
      (cid id : Text) (w : Worker W)
      → let out = already_processed env.client cid id w in
        (out.0 ≡ recorded w cid id)
        × (out.1.locks_in_memory ≡ w.locks_in_memory)
        × ((c i : Text) → recorded out.1 c i ≡ recorded w c i)
  unfolding already_processed recorded
  seen_facts cid id w = rw in_memory (refl, refl, recorded-seen w cid id)

  pub lock_facts :
      (cid : Text) (w : Worker W)
      → let out = acquire_lock env.client cid w in
        (out.0 ≡ not (has_text cid w.locks_in_memory))
        × ((c i : Text) → recorded out.1 c i ≡ recorded w c i)
  unfolding acquire_lock recorded
  lock_facts cid w = rw in_memory (ground arith, λ c i. ground arith)

  pub unlock-recorded :
      (cid c i : Text) (w : Worker W)
      → recorded (release_lock env.client cid w) c i ≡ recorded w c i
  unfolding release_lock recorded
  unlock-recorded cid c i w = rw in_memory refl

  pub mark-recorded :
      (cid id c i : Text) (w : Worker W)
      → recorded (mark_processed env.client cid id w) c i ≡ (
          if same_text cid c
          then (if same_text id i then true else recorded w c i)
          else recorded w c i)
  unfolding mark_processed
  mark-recorded cid id c i w = rw in_memory (recorded-mark w cid id c i)

  after_run-Post :
      (locks : List Text) (id : Text) (envelope : Envelope) (p : Progress) (r : Result Bool)
      (w after : Worker W)
      → has_text envelope.conversation_id p.processed_conversations ≡ false
      → ((c i : Text) → recorded after c i ≡ recorded w c i)
      → Post locks p w envelope (after_run env id envelope p r after)
  unfolding after_run has_text
  after_run-Post locks id envelope p (raise exc) w after fresh same = tt
  after_run-Post locks id envelope p (return done) w after fresh same =
      let cid = envelope.conversation_id in
      let marked = mark_processed env.client cid envelope.id after in
      (
        record {
          conversations = λ c h. ground arith;
          records = λ c i h. ground (
            arith,
            unlock-recorded cid c i marked,
            mark-recorded cid envelope.id c i after,
            same c i,
          );
        },
        inl (
            unlock-recorded cid cid envelope.id marked
            ∙ mark-recorded cid envelope.id cid envelope.id after
            ∙ rw (same_text_refl cid, same_text_refl envelope.id) refl),
      )

  run_locked-Post :
      (locks : List Text) (id : Text) (envelope : Envelope) (p : Progress) (w : Worker W)
      → has_text envelope.conversation_id p.processed_conversations ≡ false
      → Post locks p w envelope (run_locked env id envelope p w)
  unfolding run_locked recorded
  run_locked-Post locks id envelope p w fresh =
      let (r, after) = run_and_stream_with_retry env envelope w in
      let same = (run_and_stream_with_retry-SameClaims env envelope w).processed_by_conversation in
      after_run-Post locks id envelope p r w after fresh (λ c i. rw same refl)

  Post-from :
      (locks : List Text) (p : Progress) (w w' : Worker W) (envelope : Envelope)
      (out : Result Progress × Worker W)
      → ((c i : Text) → recorded w' c i ≡ recorded w c i)
      → Post locks p w' envelope out
      → Post locks p w envelope out
  Post-from locks p w w' envelope (return p', v) same h =
      (Extends-trans (Extends-refl p w w' same) h.0, h.1)
  Post-from locks p w w' envelope (raise exc, v) same h = tt

  visit_envelope-Post :
      (locks : List Text) (id : Text) (envelope : Envelope) (p : Progress) (w : Worker W)
      → w.locks_in_memory ≡ locks
      → Post locks p w envelope (visit_envelope env id envelope p w)
  unfolding visit_envelope
  visit_envelope-Post locks id envelope p w held =
      let cid = envelope.conversation_id in
      let w₁ = (already_processed env.client cid envelope.id w).1 in
      let w₂ = (acquire_lock env.client cid w₁).1 in
      let (is_seen, same_locks, same₁) = seen_facts cid envelope.id w in
      let (is_free, same₂) = lock_facts cid w₁ in
      let test : (acquire_lock env.client cid w₁).0 ≡ not (has_text cid locks) =
        is_free ∙ ap (λ l. not (has_text cid l)) (same_locks ∙ held) in
      let same = λ (c i : Text). same₂ c i ∙ same₁ c i in
      elim (Bool-cases (has_text cid p.processed_conversations)) [
        | inl served ↦ rw served (Extends-refl p w w (λ c i. refl), inr (inl served))
        | inr fresh ↦ elim (Bool-cases (recorded w cid envelope.id)) [
          | inl old ↦
              rw (fresh, is_seen, old)
                (Extends-refl p w w₁ same₁, inl (same₁ cid envelope.id ∙ old))
          | inr unseen ↦ elim (Bool-cases (has_text cid locks)) [
            | inl taken ↦
                rw (fresh, is_seen, unseen, test, taken) (Extends-refl p w w₂ same, inr (inr taken))
            | inr free ↦
                rw (fresh, is_seen, unseen, test, free)
                  (Post-from locks p w w₂ envelope _ same
                    (run_locked-Post locks id envelope p w₂ fresh))
          ]
        ]
      ]

  visit_validated-Post :
      (locks : List Text) (id : Text) (r : Result Envelope) (p p' : Progress) (w w' : Worker W)
      → w.locks_in_memory ≡ locks
      → visit_validated env id r p w ≡ (return p', w')
      → Extends p w p' w' × AccountedMessage locks p'.processed_conversations w' r
  unfolding visit_validated
  visit_validated-Post locks id (return envelope) p p' w w' held e =
      subst (Post locks p w envelope) e (visit_envelope-Post locks id envelope p w held)
  visit_validated-Post locks id (raise exc) p p' w w' held e = cc

  pub visit-Post :
      (locks : List Text) (msg : BusMessage) (p p' : Progress) (w w' : Worker W)
      → w.locks_in_memory ≡ locks
      → visit env msg p w ≡ (return p', w')
      → Extends p w p' w'
        × AccountedMessage locks p'.processed_conversations w' (env.validate msg.payload)
  unfolding visit
  visit-Post locks msg p p' w w' held e =
      visit_validated-Post locks msg.id (env.validate msg.payload) p p' w w' held e

  pub drain-Post :
      (locks : List Text) (messages : List BusMessage) (p p' : Progress) (w w' : Worker W)
      → w.locks_in_memory ≡ locks
      → drain env messages p w ≡ (return p', w')
      → Extends p w p' w'
        × All
            (λ msg. AccountedMessage locks p'.processed_conversations w' (env.validate msg.payload))
            messages
  unfolding drain
  drain-Post locks [] p p' w w' held e =
      let same_p : p ≡ p' = cc in
      let same_w : w ≡ w' = cc in
      (
        subst (λ q. Extends p w q w') same_p
            (subst (λ v. Extends p w p v) same_w (Extends-refl p w w (λ c i. refl))),
        tt,
      )
  drain-Post locks (msg ∷ messages) p p' w w' held e =
      let (q, first, others) = continue-eq-return (visit env msg p w) (drain env messages) e in
      let v = (visit env msg p w).1 in
      let (x, accounted) = visit-Post locks msg p q w v held first in
      let (y, all) =
        drain-Post locks messages q p' v w' (visit-locks env in_memory msg p w ∙ held) others in
      (Extends-trans x y, (Accounted-Extends locks (env.validate msg.payload) y accounted, all))
