-- ===== src/Worker/Pass.antt =====
-- A whole pass of a worker with no Redis.
use magent.Prelude.{
  IsDistinct, ℕ, ◌≡◌, refl, sym, ap, ◌∙◌, ◌⊎◌, inl, inr, subst, none, List, [], ◌∷◌, All, All-map,
  length, Text, true, false, Bool-cases, has_text, map, arith,
}
use magent.Prelude.Exec.{Result, return, raise}
use magent.Bus.{BusMessage}
use magent.Bus.Topics.{chat_topic}
use magent.Worker.{Envelope, Env, Worker}
use magent.Worker.Memory.{recorded}
use magent.Worker.Drain.{Progress, drain, start_of, finish_drain, drain_all, process_available}
use magent.Worker.Once.{AccountedMessage, drain-Post}
use magent.Worker.Runs.{SameRun, SameRun-refl, Picked, Runs, Runs-to}
use magent.Worker.Served.{IsNew}
use magent.Worker.Drained.{conversations_of, Drains, IsNew-to, drain-Drains}

finish_drain-eq-return :
    {W : Type 0} (r : Result Progress) (v w' : Worker W) (n : ℕ)
    → finish_drain r v ≡ (return n, w')
    → (p : Progress) × (r ≡ return p)
      × (p.processed_count ≡ n)
      × (record v { last_inbound_id = p.last_processed_id } ≡ w')
unfolding finish_drain
finish_drain-eq-return (return p) v w' n h = (p, refl, cc, cc)
finish_drain-eq-return (raise exc) v w' n h = cc

-- Recorded before the pass, or of a conversation that the pass served, or of one whose run lock was
-- taken; and its payload passed validation.
abbrev pub AccountedAtStart :
    {W : Type 0} → (served : List Envelope) → Worker W → Result Envelope → Type 0
AccountedAtStart served w (return e) =
    (recorded w e.conversation_id e.id ≡ true)
    ⊎ ((has_text e.conversation_id (conversations_of served) ≡ true)
        ⊎ (has_text e.conversation_id w.locks_in_memory ≡ true))
AccountedAtStart served w (raise exc) = ⊥

-- What a pass over the messages that returns `n` has done, from the worker `w` to the worker `w'`.
pub record PassPost {W : Type 0} (env : Env W) (messages : List BusMessage) (w : Worker W) (n : ℕ)
    (w' : Worker W) (served : List Envelope) : Type 0 where
  pub picked : Picked served (map (λ (m : BusMessage). env.validate m.payload) messages)
  pub counted : length served ≡ n
  pub distinct : IsDistinct (conversations_of served)
  pub runs : Runs env served w w'
  pub news : All (IsNew w w') served
  pub others :
      (c i : Text) → has_text c (conversations_of served) ≡ false → recorded w' c i ≡ recorded w c i
  pub accounted :
      All (λ (m : BusMessage). AccountedAtStart served w (env.validate m.payload)) messages

module _ {W : Type 0} (env : Env W) (in_memory : env.client ≡ none) where
  at_start :
      (messages : List BusMessage) (w v : Worker W) (p : Progress) (served : List Envelope)
      → Drains env messages (start_of w) w p v served
      → (r : Result Envelope) → AccountedMessage w.locks_in_memory p.processed_conversations v r
      → AccountedAtStart served w r
  unfolding has_text
  at_start messages w v p served d (return e) h =
      elim (Bool-cases (has_text e.conversation_id (conversations_of served))) [
        | inl here ↦ inr (inl here)
        | inr absent ↦ elim h [
          | inl seen ↦ inl (sym (d.others e.conversation_id e.id absent) ∙ seen)
          | inr (inl listed) ↦
              (let bad : false ≡ true = sym (rw absent at (d.listed e.conversation_id)) ∙ listed in
                cc)
          | inr (inr taken) ↦ inr (inr taken)
        ]
      ]
  at_start messages w v p served d (raise exc) h = h

  drain_all-Post :
      (messages : List BusMessage) (w w' : Worker W) (n : ℕ)
      → drain_all env messages w ≡ (return n, w')
      → (served : List Envelope) × PassPost env messages w n w' served
  unfolding drain_all recorded has_text
  drain_all-Post [] w w' n e =
      let same : w ≡ w' = cc in
      (
        [],
        record {
          picked = tt;
          counted = cc;
          distinct = tt;
          runs = subst (SameRun w) same (SameRun-refl w);
          news = tt;
          others = λ c i h. ap (λ (u : Worker W). recorded u c i) (sym same);
          accounted = tt;
        },
      )
  drain_all-Post (msg ∷ messages) w w' n e =
      let all = msg ∷ messages in
      let (r, v) = drain env all (start_of w) w in
      let (p, returned, count, last) = finish_drain-eq-return r v w' n e in
      let (x, accounted) =
        drain-Post env in_memory w.locks_in_memory all (start_of w) p w v refl
          (λ i. (returned i, v)) in
      let (served, d) = drain-Drains env in_memory all (start_of w) p w v (λ i. (returned i, v)) in
      let same = λ (c i : Text). sym (ap (λ (u : Worker W). recorded u c i) last) in
      let ends : SameRun v w' = record {
        agent_name = sym (ap (λ (u : Worker W). u.agent_name) last);
        world = sym (ap (λ (u : Worker W). u.world) last);
        metrics = sym (ap (λ (u : Worker W). u.metrics) last);
      } in
      (
        served,
        record {
          picked = d.picked;
          counted = omega (arith, d.count, count);
          distinct = d.distinct;
          runs = Runs-to env served w v w' d.runs ends;
          news = All-map served (λ e'. IsNew-to w v w' e' (λ c i h. same c i ∙ h)) d.news;
          others = λ c i h. same c i ∙ d.others c i h;
          accounted =
              All-map all (λ m. at_start all w v p served d (env.validate m.payload)) accounted;
        },
      )

  -- For a worker with no Redis client: when a pass that read `messages` returns `n`, there is a list
  -- of `n` envelopes, validated from the messages and in their order, of distinct conversations, on
  -- each of which the run with its retries was made once, in this order, and returned, and nothing
  -- but these runs changed the world or the metrics after the read. Each of them was not recorded as
  -- processed before, its run lock was free, and it is recorded afterwards; the records of other
  -- conversations stay as they were. Every message passed validation and was recorded before the
  -- pass, or is of a conversation in that list, or of one whose run lock was taken when the pass
  -- began.
  pub process_available-Post :
      (limit n : ℕ) (messages : List BusMessage) (w w' : Worker W) (world : W)
      → env.read (chat_topic w.agent_name) w.last_inbound_id limit w.world
        ≡ (return messages, world)
      → process_available env limit w ≡ (return n, w')
      → (served : List Envelope) × PassPost env messages (record w { world = world }) n w' served
  unfolding process_available
  process_available-Post limit n messages w w' world read e =
      drain_all-Post messages (record w { world = world }) w' n (rw read at e)
