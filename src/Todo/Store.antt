-- ===== src/Todo/Store.antt =====
-- `RedisTodoStore` of magent2/tools/todo/redis_store.py. The Redis client is a parameter, with a
-- pipeline as one command, since a pipeline of this client is a transaction. So is what pydantic and
-- `json` make of a task: `encode` is `json.dumps(task.model_dump(mode="json"))`, and `decode` is the
-- way back, with `none` for each exception that `get_task` catches.
use magent.Prelude.{ℕ, ◌+◌, Bool, false, Option, none, some, List, [], ◌∷◌, ◌++◌, ltb, Text, codes}
use magent.Prelude.Exec.{Exec, pure, ◌>>=◌, ◌>>◌}
use magent.Json.{Fields, end}

-- models.py; `created_at` in microseconds.
pub record Task : Type 0 where
  pub id : Text
  pub conversation_id : Text
  pub title : Text
  pub completed : Bool
  pub metadata : Fields
  pub created_at : ℕ

pub record Client (W : Type 0) : Type 0 where
  -- HSET key json payload, HGET key json.
  pub hset : (key payload : Text) → Exec W (Unit {0})
  pub hget : (key : Text) → Exec W (Option Text)
  -- ZRANGE key 0 -1.
  pub zrange : (key : Text) → Exec W (List Text)
  -- The pipeline of `create_task`: HSET, then ZADD.
  pub hset_zadd : (key payload zkey member : Text) → (score : ℕ) → Exec W (Unit {0})
  -- The pipeline of `delete_task`: DEL, then ZREM, with the number that each removed.
  pub del_zrem : (key zkey member : Text) → Exec W (ℕ × ℕ)

pub record Env (W : Type 0) : Type 0 where
  pub client : Client W
  pub prefix : Text
  pub encode : Task → Text
  pub decode : Text → Option Task
  -- The default factories of `Task`: uuid4 and the clock.
  pub new_id : W → Text × W
  pub now : W → ℕ × W

module _ {W : Type 0} (env : Env W) where
  abbrev pub task_key : Text → Text
  task_key task_id = env.prefix ++ codes ":task:" ++ task_id

  abbrev pub conv_key : Text → Text
  conv_key conversation_id = env.prefix ++ codes ":conv:" ++ conversation_id

  unfoldable pub new_task : Text → Text → Fields → W → Task × W
  new_task conversation_id title metadata w =
      let (id, w₁) = env.new_id w in
      let (created_at, w₂) = env.now w₁ in
      (
        record {
          id = id;
          conversation_id = conversation_id;
          title = title;
          completed = false;
          metadata = metadata;
          created_at = created_at;
        },
        w₂,
      )

  abbrev pub or_no_metadata : Option Fields → Fields
  or_no_metadata none = end
  or_no_metadata (some d) = d

  unfoldable pub store_task : Task → Exec W Task
  store_task task = do
    env.client.hset_zadd (task_key task.id) (env.encode task) (conv_key task.conversation_id)
        task.id task.created_at
    pure task

  unfoldable pub create_task : Text → Text → Option Fields → Exec W Task
  unfolding new_task
  create_task conversation_id title metadata w =
      let (task, w') = new_task conversation_id title (or_no_metadata metadata) w in
      store_task task w'

  abbrev pub decoded : Option Text → Option Task
  decoded none = none
  decoded (some raw) = env.decode raw

  unfoldable pub get_task : Text → Exec W (Option Task)
  get_task task_id = do raw ← env.client.hget (task_key task_id); pure (decoded raw)

  abbrev pub keep_found : Option Task → List Task → List Task
  keep_found none tasks = tasks
  keep_found (some t) tasks = t ∷ tasks

  -- The `for` loop of `list_tasks`.
  unfoldable pub get_tasks : List Text → Exec W (List Task)
  get_tasks [] = pure []
  get_tasks (tid ∷ ids) = do t ← get_task tid; rest ← get_tasks ids; pure (keep_found t rest)

  unfoldable pub list_tasks : Text → Exec W (List Task)
  list_tasks conversation_id = do ids ← env.client.zrange (conv_key conversation_id); get_tasks ids

  unfoldable pub changed : Option Text → Option Bool → Option Fields → Task → Task
  changed title completed metadata t = record t {
    title = elim title [ none ↦ t.title | some x ↦ x ];
    completed = elim completed [ none ↦ t.completed | some x ↦ x ];
    metadata = elim metadata [ none ↦ t.metadata | some x ↦ x ];
  }

  unfoldable pub save_changed :
      Text → Option Text → Option Bool → Option Fields → Option Task → Exec W (Option Task)
  save_changed task_id title completed metadata none = pure none
  save_changed task_id title completed metadata (some current) = do
    env.client.hset (task_key task_id) (env.encode (changed title completed metadata current))
    pure (some (changed title completed metadata current))

  unfoldable pub update_task :
      Text → Option Text → Option Bool → Option Fields → Exec W (Option Task)
  update_task task_id title completed metadata = do
    current ← get_task task_id
    save_changed task_id title completed metadata current

  unfoldable pub remove_task : Text → Option Task → Exec W Bool
  remove_task task_id none = pure false
  remove_task task_id (some task) = do
    counts ← env.client.del_zrem (task_key task_id) (conv_key task.conversation_id) task_id
    pure (ltb 0 (counts.0 + counts.1))

  -- True if either deletion removed something.
  unfoldable pub delete_task : Text → Exec W Bool
  delete_task task_id = do task ← get_task task_id; remove_task task_id task
