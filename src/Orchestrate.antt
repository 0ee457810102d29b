-- ===== src/Orchestrate.antt =====
-- magent2/tools/orchestrate.py: a task split over child conversations. The chat tool, the wait for
-- all signals and uuid4 are parameters.
pub mod Children
pub mod Done
pub mod Checks
use magent.Prelude.{
  ℕ, zero, suc, ◌+◌, Bool, true, false, ◌&&◌, not, ℤ, pos, negsuc, Option, none, some, List, [],
  ◌∷◌, ◌++◌, if◌then◌else◌, Text, codes, strip, is_empty, is_nil,
}
use magent.Prelude.Exec.{Exec, Result, return, raise, pure, continue, ◌>>=◌, ◌>>◌}
use magent.Json.{Value, str, arr, obj, Items, nil, cons, Fields, end, field}

pub record Env (W S : Type 0) : Type 0 where
  -- send_message(recipient, content, conversation_id=…, metadata=…)
  pub send_message : (recipient content conversation_id : Text) → Fields → Exec W (Unit {0})
  -- uuid4().hex[:8]
  pub new_hex : W → Text × W
  -- signal_wait_all(topics, last_ids=None, timeout_ms=…)
  pub signal_wait_all : List Text → (timeout_ms : ℤ) → Exec W S
  -- ORCHESTRATE_TARGET_AGENT and AGENT_NAME, "" where they are not set.
  pub target_override : Text
  pub agent_name : Text

-- The dict that is returned; `wait` is there after a wait only.
pub record Split (S : Type 0) : Type 0 where
  pub children : List Text
  pub topics : List Text
  pub wait : Option S

abbrev pub or_blank : Option Text → Text
or_blank none = []
or_blank (some t) = t

unfoldable pub first_given : List Text → Text
first_given [] = codes "DevAgent"
first_given (t ∷ ts) = if is_empty t then first_given ts else t

abbrev pub strings : List Text → Items
strings [] = nil
strings (t ∷ ts) = cons (str t) (strings ts)

abbrev pub or_empty : Option (List Text) → List Text
or_empty none = []
or_empty (some ts) = ts

unfoldable pub build_metadata : Text → Option (List Text) → Option (List Text) → Fields
build_metadata done_topic responsibilities allowed_paths =
    field (codes "orchestrate")
      (obj (
        field (codes "responsibilities") (arr (strings (or_empty responsibilities))) (
          field (codes "allowed_paths") (arr (strings (or_empty allowed_paths)))
            (field (codes "done_topic") (str done_topic) end))))
      end

-- max(0, num_children)
abbrev pub count_of : ℤ → ℕ
count_of (pos n) = n
count_of (negsuc n) = 0

abbrev pub child_topic : Text → Text
child_topic conv = codes "signal:" ++ conv ++ codes ":done"

module _ {W S : Type 0} (env : Env W S) where
  unfoldable pub resolve_target_agent : Option Text → Text
  unfolding first_given strip
  resolve_target_agent target_agent =
      first_given
        (strip (or_blank target_agent) ∷ strip env.target_override ∷ strip env.agent_name ∷ [])

  unfoldable pub dispatch_subtask : (agent task conv_id : Text) → Fields → Exec W (Unit {0})
  dispatch_subtask agent task conv_id metadata =
      env.send_message (codes "agent:" ++ agent) (codes "Subtask for: " ++ task) conv_id metadata

  abbrev pub new_child : W → Text × W
  new_child w = let (hex, w') = env.new_hex w in (codes "conv-child-" ++ hex, w')

  -- The `for` loop, with the conversations that it has so far.
  unfoldable pub dispatch_all :
      (agent task : Text) → (Text → Fields) → ℕ → List Text → Exec W (List Text)
  dispatch_all agent task metadata zero convs = pure convs
  dispatch_all agent task metadata (suc n) convs = do
    conv ← λ w. let (c, w') = new_child w in (return c, w')
    dispatch_subtask agent task conv (metadata (child_topic conv))
    dispatch_all agent task metadata n (convs ++ conv ∷ [])

  abbrev pub topics_of : List Text → List Text
  topics_of [] = []
  topics_of (c ∷ cs) = child_topic c ∷ topics_of cs

  unfoldable pub maybe_wait : (wait : Bool) → (timeout_ms : ℤ) → List Text → Exec W (Option S)
  maybe_wait wait timeout_ms topics w =
      if wait && not (is_nil topics)
      then (env.signal_wait_all topics timeout_ms >>= λ summary. pure (some summary)) w
      else (return none, w)

  unfoldable pub orchestrate_split :
      (task : Text)
      → ℤ
      → Option (List Text)
      → Option (List Text)
      → (wait : Bool) → Option Text
      → (timeout_ms : ℤ) → Exec W (Split S)
  orchestrate_split task num_children responsibilities allowed_paths wait target_agent timeout_ms =
      do
        convs ←
            dispatch_all (resolve_target_agent target_agent) task
              (λ topic. build_metadata topic responsibilities allowed_paths) (count_of num_children)
              []
        summary ← maybe_wait wait timeout_ms (topics_of convs)
        pure (record { children = convs; topics = topics_of convs; wait = summary })
