-- ===== src/Orchestrate/Children.antt =====
-- About the children of a split.
use magent.Prelude.{
  ℕ, zero, suc, ◌≡◌, refl, ◌∙◌, ℤ, false, Option, none, List, [], ◌∷◌, ◌++◌, Text, length, map,
  append-nil, append_assoc, sym, ap, codes,
}
use magent.Prelude.Exec.{return}
use magent.Json.{Fields}
use magent.Orchestrate.{
  Env, dispatch_all, dispatch_subtask, new_child, build_metadata, resolve_target_agent, child_topic,
  topics_of, count_of, maybe_wait, orchestrate_split,
}

-- A chat tool that takes every message, and appends its recipient, conversation and metadata to a log
-- that nothing else changes.
pub record TakesAll {W S : Type 0} (env : Env W S) (log : W → List (Text × Text × Fields))
    : Type 0 where
  pub accepts : (r t c : Text) (d : Fields) (w : W) → (env.send_message r t c d w).0 ≡ return tt
  pub appends :
      (r t c : Text) (d : Fields) (w : W)
      → log (env.send_message r t c d w).1 ≡ log w ++ (r, c, d) ∷ []
  pub new_hex_log : (w : W) → log (env.new_hex w).1 ≡ log w

-- What a child is sent.
abbrev pub sent_child : (agent : Text) → (Text → Fields) → Text → Text × Text × Fields
sent_child agent metadata c = (codes "agent:" ++ agent, c, metadata (child_topic c))

module _ {W S : Type 0} (env : Env W S) (log : W → List (Text × Text × Fields))
    (chat : TakesAll env log) where
  dispatch_all_lem :
      (agent task : Text) (metadata : Text → Fields) (n : ℕ) (convs : List Text) (w : W)
      → (new : List Text) × ((dispatch_all env agent task metadata n convs w).0
          ≡ return (convs ++ new))
        × (length new ≡ n)
        × (log (dispatch_all env agent task metadata n convs w).1
            ≡ log w ++ map (sent_child agent metadata) new)
  unfolding dispatch_all dispatch_subtask
  dispatch_all_lem agent task metadata zero convs w =
      ([], ap return (sym (append-nil convs)), refl, sym (append-nil (log w)))
  dispatch_all_lem agent task metadata (suc n) convs w =
      let c = (new_child env w).0 in
      let w₁ = (new_child env w).1 in
      let r = codes "agent:" ++ agent in
      let t = codes "Subtask for: " ++ task in
      let d = metadata (child_topic c) in
      let w₂ = (env.send_message r t c d w₁).1 in
      let (new, ends, count, logged) =
        dispatch_all_lem agent task metadata n (convs ++ c ∷ []) w₂ in
      (
        c ∷ new,
        rw (chat.accepts r t c d w₁) (ends ∙ ap return (append_assoc convs (c ∷ []) new)),
        ap suc count,
        rw (chat.accepts r t c d w₁) (
            logged
            ∙ ap (λ l. l ++ map (sent_child agent metadata) new)
                (chat.appends r t c d w₁ ∙ ap (λ l. l ++ (r, c, d) ∷ []) (chat.new_hex_log w))
            ∙ append_assoc (log w) ((r, c, d) ∷ []) (map (sent_child agent metadata) new)),
      )

  -- Over a chat tool that takes every message, a split that does not wait returns as many children
  -- as asked for (none for a negative number) and the done topic of each, and has sent each child,
  -- in order, one message to the resolved agent in the child's conversation, whose metadata names
  -- that child's done topic; it has sent nothing else.
  pub orchestrate_split_lem :
      (task : Text) (num_children : ℤ) (responsibilities allowed_paths : Option (List Text))
      (target_agent : Option Text) (timeout_ms : ℤ) (w : W)
      → (children : List Text) × (length children ≡ count_of num_children)
        × ((orchestrate_split env task num_children responsibilities allowed_paths false
              target_agent timeout_ms w).0
            ≡ return (record { children = children; topics = topics_of env children; wait = none }))
        × (log
              (orchestrate_split env task num_children responsibilities allowed_paths false
                target_agent timeout_ms w).1
            ≡ log w
              ++ map
                  (sent_child
                    (resolve_target_agent env target_agent)
                    (λ topic. build_metadata topic responsibilities allowed_paths))
                  children)
  unfolding orchestrate_split maybe_wait
  orchestrate_split_lem task num_children responsibilities allowed_paths target_agent timeout_ms w =
      let (new, ends, count, logged) =
        dispatch_all_lem (resolve_target_agent env target_agent) task
          (λ topic. build_metadata topic responsibilities allowed_paths) (count_of num_children) []
          w in
      (new, count, rw ends refl, rw ends logged)
