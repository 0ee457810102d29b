-- ===== src/Observability/Index.antt =====
-- The writes of magent2/observability/index.py. A pipeline is the list of its commands; executing
-- it, and the other commands of the Redis client, are parameters that may raise. The calls pass no
-- time stamp, so the clock gives it.
use magent.Prelude.{
  ℕ, ◌-◌, ◌*◌, Bool, pos, negsuc, Option, none, some, List, [], ◌∷◌, ◌++◌, if◌then◌else◌, ltb, max,
  Text, codes, strip, is_empty, py_int,
}
use magent.Prelude.Exec.{Exec, Result, return, raise}
use magent.Json.{decimal}

pub data Command : Type 0 where
  zadd : (key member : Text) → (score : ℕ) → Command
  hset : (key : Text) → List (Text × Text) → Command
  hincrby : (key name : Text) → (amount : ℕ) → Command
  sadd : (key member : Text) → Command
  expire : (key : Text) → (seconds : ℕ) → Command

pub record IndexClient (W : Type 0) : Type 0 where
  -- pipeline(transaction=False) … execute()
  pub execute : List Command → Exec W (Unit {0})
  pub hget : (key name : Text) → Exec W (Option Text)
  pub scard : (key : Text) → Exec W ℕ
  pub srandmember : (key : Text) → (count : ℕ) → Exec W (List Text)
  pub srem : (key : Text) → (members : List Text) → Exec W (Unit {0})

pub record ObserverIndex (W : Type 0) : Type 0 where
  pub client : Option (IndexClient W)
  -- `_enabled()`, OBS_INDEX_TTL_DAYS and the clock.
  pub enabled : Bool
  pub ttl_days : Text
  pub now_ms : W → ℕ × W

abbrev pub seconds_of_days : ℕ → ℕ
seconds_of_days days = days * (24 * 60 * 60)

-- 7 days where the setting is blank or no integer, and at least 1.
unfoldable pub ttl_seconds : Text → ℕ
unfolding strip
ttl_seconds raw = if is_empty (strip raw) then seconds_of_days 7 else elim (py_int (strip raw)) [
  | none ↦ seconds_of_days 7
  | some (pos days) ↦ seconds_of_days (max 1 days)
  | some (negsuc n) ↦ seconds_of_days 1
]

-- The stored count less one, and not below zero; a count that cannot be read is zero.
unfoldable pub one_less : Result (Option Text) → ℕ
one_less (raise exc) = 0
one_less (return none) = 0
one_less (return (some raw)) = elim (py_int raw) [
  | none ↦ 0
  | some (pos n) ↦ n - 1
  | some (negsuc n) ↦ 0
]

abbrev pub agent_hash : Text → Text
agent_hash name = codes "obs:agent:" ++ name ++ codes ":h"

abbrev pub agent_convs : Text → Text
agent_convs name = codes "obs:agent:" ++ name ++ codes ":convs"

abbrev pub conv_part : Text → Text → Text
conv_part cid part = codes "obs:conv:" ++ cid ++ part

unfoldable pub user_message_commands : (cid sender recipient : Text) → (ts ttl : ℕ) → List Command
user_message_commands cid sender recipient ts ttl =
    zadd (codes "obs:conv:z") cid ts
    ∷ hset (conv_part cid (codes ":h")) (
        (codes "last_activity_ms", decimal ts)
        ∷ (codes "last_sender", sender)
        ∷ (codes "last_recipient", recipient)
        ∷ [])
    ∷ hincrby (conv_part cid (codes ":h")) (codes "msg_count") 1
    ∷ sadd (conv_part cid (codes ":participants")) sender
    ∷ sadd (conv_part cid (codes ":participants")) recipient
    ∷ hincrby (conv_part cid (codes ":edges")) (sender ++ codes "|" ++ recipient) 1
    ∷ expire (conv_part cid (codes ":h")) ttl
    ∷ expire (conv_part cid (codes ":participants")) ttl
    ∷ expire (conv_part cid (codes ":edges")) ttl
    ∷ []

unfoldable pub started_commands : (name cid : Text) → (ts ttl : ℕ) → List Command
started_commands name cid ts ttl =
    zadd (codes "obs:agents:z") name ts
    ∷ hset (agent_hash name)
        ((codes "last_seen_ms", decimal ts) ∷ (codes "last_started_ms", decimal ts) ∷ [])
    ∷ hincrby (agent_hash name) (codes "active_runs") 1
    ∷ sadd (agent_convs name) cid
    ∷ expire (agent_hash name) ttl
    ∷ expire (agent_convs name) ttl
    ∷ []

unfoldable pub completed_commands : (name cid : Text) → (ts ttl active : ℕ) → List Command
completed_commands name cid ts ttl active =
    zadd (codes "obs:agents:z") name ts
    ∷ hset (agent_hash name)
        ((codes "last_seen_ms", decimal ts) ∷ (codes "last_completed_ms", decimal ts) ∷ [])
    ∷ hset (agent_hash name) ((codes "active_runs", decimal active) ∷ [])
    ∷ sadd (agent_convs name) cid
    ∷ expire (agent_hash name) ttl
    ∷ expire (agent_convs name) ttl
    ∷ []

module _ {W : Type 0} where
  module _ (client : IndexClient W) where
    unfoldable pub remove_drawn : (key : Text) → Result (List Text) → W → W
    remove_drawn key (return []) w = w
    remove_drawn key (return (x ∷ members)) w = (client.srem key (x ∷ members) w).1
    remove_drawn key (raise exc) w = w

    unfoldable pub cap_to : (key : Text) → (limit : ℕ) → Result ℕ → W → W
    cap_to key limit (raise exc) w = w
    cap_to key limit (return size) w =
        let (members, w') = client.srandmember key (size - limit) w in
        let capped = remove_drawn key members w' in if ltb limit size then capped else w

    -- Members that Redis draws at random are removed, so that at most `limit` are left.
    unfoldable pub cap_recent_set : (key : Text) → (limit : ℕ) → W → W
    cap_recent_set key limit w = let (size, w') = client.scard key w in cap_to key limit size w'

    -- The end of a run record's `try` block: the pipeline, then the limit on the set.
    unfoldable pub execute_then_cap : List Command → (key : Text) → W → W
    execute_then_cap commands key w =
        let (r, w') = client.execute commands w in
        elim r [ return u ↦ cap_recent_set key 50 w' | raise exc ↦ w' ]

  -- What an index does when it is active: it is enabled and has a client.
  abbrev when_active : ObserverIndex W → (IndexClient W → W → W) → W → W
  when_active index act w = elim index.client [
    | none ↦ w
    | some client ↦ if index.enabled then act client w else w
  ]

  module _ (index : ObserverIndex W) where
    unfoldable pub record_user_message : (conversation_id sender recipient : Text) → W → W
    unfolding user_message_commands ttl_seconds
    record_user_message conversation_id sender recipient = when_active index (λ client w.
        let (ts, w') = index.now_ms w in
        (client.execute
          (user_message_commands conversation_id sender recipient ts (ttl_seconds index.ttl_days))
          w').1)

    unfoldable pub record_run_started : (agent_name conversation_id : Text) → W → W
    unfolding started_commands ttl_seconds
    record_run_started agent_name conversation_id = when_active index (λ client w.
        let (ts, w') = index.now_ms w in
        execute_then_cap client
          (started_commands agent_name conversation_id ts (ttl_seconds index.ttl_days))
          (agent_convs agent_name) w')

    unfoldable pub record_run_completed : (agent_name conversation_id : Text) → W → W
    unfolding completed_commands ttl_seconds one_less
    record_run_completed agent_name conversation_id = when_active index (λ client w.
        let (ts, w₁) = index.now_ms w in
        let (raw, w₂) = client.hget (agent_hash agent_name) (codes "active_runs") w₁ in
        execute_then_cap client
          (completed_commands agent_name conversation_id ts (ttl_seconds index.ttl_days)
            (one_less raw))
          (agent_convs agent_name) w₂)
