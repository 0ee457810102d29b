-- ===== src/Todo/Crud.antt =====
-- The store as a table of tasks: what each operation does to the tasks that `get_task` finds.
use magent.Prelude.{
  ◌+◌, ◌≡◌, refl, ◌∙◌, ap, Bool, true, false, Bool-cases, inl, inr, Option, none, some, ◌++◌, arith,
  ltb, if◌then◌else◌, Text, codes, same_text, same_text_iff, same_text-append, is_some,
}
use mathlib.Core.Option
use magent.Prelude.Exec.{return}
use magent.Json.{Fields}
use magent.Todo.Store.{
  Task, Env, task_key, conv_key, decoded, new_task, store_task, create_task, get_task, changed,
  save_changed, update_task, remove_task, delete_task, or_no_metadata,
}
use magent.Todo.Laws.{Scored, IsRedis, IsFaithful, RoundTrips}

removed_any : (b : Bool) → ltb 0 (1 + (if b then 1 else 0)) ≡ true
removed_any true = refl
removed_any false = refl

module _ {W : Type 0} (env : Env W) (hash : W → Text → Option Text) (zset : W → Text → Scored) where
  -- The task that the store holds under an id.
  abbrev pub task_at : W → Text → Option Task
  task_at w id = decoded env (hash w (task_key env id))

  if-decoded :
      (b : Bool) (o : Option Text)
      → decoded env (if b then none else o) ≡ (if b then none else decoded env o)
  if-decoded true o = refl
  if-decoded false o = refl

  module _ (redis : IsRedis env.client hash zset) (faithful : IsFaithful env hash zset) where
    key_same : (a b : Text) → same_text (task_key env a) (task_key env b) ≡ same_text a b
    key_same a b = same_text-append (env.prefix ++ codes ":task:") a b

    pub get_task_lem : (id : Text) (w : W) → get_task env id w ≡ (return (task_at w id), w)
    unfolding get_task
    get_task_lem id w = rw (redis.hget_lem (task_key env id) w) refl

    -- The table after a write of a task under its id.
    written :
        (id j : Text) (t : Task) (w w' : W)
        → RoundTrips env t
        → hash w' (task_key env j) ≡ (
            if same_text (task_key env id) (task_key env j)
            then some (env.encode t)
            else hash w (task_key env j))
        → task_at w' j ≡ (if same_text id j then some t else task_at w j)
    written id j t w w' kept h = ground (arith, key_same id j)

    -- Over a client that does what Redis documents, a created task that the codec takes round is
    -- returned, and afterwards the store holds it under its id and any other task as before.
    pub create_task_lem :
        (conversation_id title : Text) (metadata : Option Fields) (j : Text) (w : W)
        → RoundTrips env (new_task env conversation_id title (or_no_metadata env metadata) w).0
        → let made = (new_task env conversation_id title (or_no_metadata env metadata) w).0 in
          ((create_task env conversation_id title metadata w).0 ≡ return made)
          × (task_at (create_task env conversation_id title metadata w).1 j
              ≡ (if same_text made.id j then some made else task_at w j))
    unfolding create_task store_task new_task
    create_task_lem conversation_id title metadata j w kept =
        let (made, v) = new_task env conversation_id title (or_no_metadata env metadata) w in
        let key = task_key env made.id in
        let zkey = conv_key env conversation_id in
        let raw = env.encode made in
        let returns = redis.hset_zadd_returns key raw zkey made.id made.created_at v in
        let same : hash v (task_key env j) ≡ hash w (task_key env j) =
          faithful.now_hash (env.new_id w).1 (task_key env j)
          ∙ faithful.new_id_hash w (task_key env j) in
        let table =
          written made.id j made v (env.client.hset_zadd key raw zkey made.id made.created_at v).1
            kept (redis.hset_zadd_hash key raw zkey made.id made.created_at (task_key env j) v) in
        (
          rw returns refl,
          rw returns (
              table
              ∙ ap (λ (o : Option Text). if same_text made.id j then some made else decoded env o)
                  same),
        )

    unchanged :
        (id j : Text) (w : W)
        → task_at w id ≡ none
        → task_at w j ≡ (if same_text id j then none else task_at w j)
    unchanged id j w e = elim (Bool-cases (same_text id j)) [
      | inl same ↦ rw same (rw ((same_text_iff id j).0 same) at e)
      | inr other ↦ rw other refl
    ]

    save_changed_lem :
        (id : Text) (title : Option Text) (completed : Option Bool) (metadata : Option Fields)
        (j : Text) (w : W) (o : Option Task)
        → task_at w id ≡ o
        → ((t : Task) → o ≡ some t → RoundTrips env (changed env title completed metadata t))
        → ((save_changed env id title completed metadata o w).0
            ≡ return (Option.map (changed env title completed metadata) o))
          × (task_at (save_changed env id title completed metadata o w).1 j ≡ (
              if same_text id j
              then Option.map (changed env title completed metadata) o
              else task_at w j))
    unfolding save_changed
    save_changed_lem id title completed metadata j w none e kept = (refl, unchanged id j w e)
    save_changed_lem id title completed metadata j w (some t) e kept =
        let new = changed env title completed metadata t in
        let key = task_key env id in
        let returns = redis.hset_returns key (env.encode new) w in
        (
          rw returns refl,
          rw returns (
              written id j new w (env.client.hset key (env.encode new) w).1 (kept t refl)
                (redis.hset_hash key (env.encode new) (task_key env j) w)),
        )

    present :
        (id : Text) (w : W) (t : Task)
        → task_at w id ≡ some t
        → is_some (hash w (task_key env id)) ≡ true
    present id w t e = ground arith

    remove_task_lem :
        (id j : Text) (w : W) (o : Option Task)
        → task_at w id ≡ o
        → ((remove_task env id o w).0 ≡ return (is_some o))
          × (task_at (remove_task env id o w).1 j ≡ (if same_text id j then none else task_at w j))
    unfolding remove_task
    remove_task_lem id j w none e = (refl, unchanged id j w e)
    remove_task_lem id j w (some t) e =
        let key = task_key env id in
        let zkey = conv_key env t.conversation_id in
        let returns = redis.del_zrem_returns key zkey id w in
        (
          rw (returns, present id w t e) (ap return (removed_any _)),
          rw returns (
              ap (decoded env) (redis.del_zrem_hash key zkey id (task_key env j) w)
              ∙ rw (key_same id j) (if-decoded (same_text id j) (hash w (task_key env j)))),
        )

    -- Over a client that does what Redis documents, when the changed task is one that the codec
    -- takes round: an update returns the task with the given fields changed, or None where the store
    -- has no task under the id; afterwards the store holds that under the id, and any other task as
    -- before.
    pub update_task_lem :
        (id : Text) (title : Option Text) (completed : Option Bool) (metadata : Option Fields)
        (j : Text) (w : W)
        → ((t : Task)
            → task_at w id ≡ some t
            → RoundTrips env (changed env title completed metadata t))
        → let new = Option.map (changed env title completed metadata) (task_at w id) in
          ((update_task env id title completed metadata w).0 ≡ return new)
          × (task_at (update_task env id title completed metadata w).1 j
              ≡ (if same_text id j then new else task_at w j))
    unfolding update_task
    update_task_lem id title completed metadata j w kept =
        rw (get_task_lem id w)
          (save_changed_lem id title completed metadata j w (task_at w id) refl kept)

    -- Over a client that does what Redis documents, a deletion returns whether the store had the
    -- task, and afterwards it has none under that id and any other task as before.
    pub delete_task_lem :
        (id j : Text) (w : W)
        → ((delete_task env id w).0 ≡ return (is_some (task_at w id)))
          × (task_at (delete_task env id w).1 j ≡ (if same_text id j then none else task_at w j))
    unfolding delete_task
    delete_task_lem id j w = rw (get_task_lem id w) (remove_task_lem id j w (task_at w id) refl)
