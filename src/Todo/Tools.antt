-- ===== src/Todo/Tools.antt =====
-- The plain tools of magent2/tools/todo/tools.py. What a tool may raise beside a Redis error leaves
-- it as an exception. Log lines are left out, and so are the checks of a value's Python type, which
-- the model's types make.
use magent.Prelude.{
  Bool, Option, none, some, List, [], ◌∷◌, ◌++◌, if◌then◌else◌, Text, codes, strip, is_empty,
}
use magent.Prelude.Exec.{
  Exec, Exception, Kind, value_error, redis_error, Result, return, raise, ◌>>=◌,
}
use magent.Json.{Fields}
use magent.Observability.{Metric}
use magent.Todo.Store.{Task, Env, create_task, get_task, list_tasks, update_task, delete_task}

-- The dicts that the tools return; an error reply carries the text and `"transient": True`.
pub data Reply : Type 0 where
  task_reply : Option Task → Reply
  tasks_reply : List Task → Reply
  ok_reply : Bool → Reply
  task_error tasks_error ok_error : Text → Reply

pub record RunContext : Type 0 where
  pub conversation_id : Text
  pub run_id : Text

pub record Tools (W : Type 0) : Type 0 where
  pub world : W
  pub metrics : List Metric

unfoldable pub require_str_non_empty : Text → Text → Result Text
unfolding strip
require_str_non_empty name value =
    if is_empty (strip value)
    then raise (record { kind = value_error; message = name ++ codes " must be non-empty" })
    else return (strip value)

abbrev pub no_fields : Exception
no_fields = record { kind = value_error; message = codes "no fields to update" }

unfoldable pub some_field : Option Text → Option Bool → Option Fields → Result (Unit {0})
some_field none none none = raise no_fields
some_field none none (some d) = return tt
some_field none (some b) d = return tt
some_field (some t) b d = return tt

module _ {W : Type 0} where
  abbrev pub increment : Text → List (Text × Text) → Tools W → Tools W
  increment name labels s = record s {
    metrics = s.metrics ++ record { name = name; labels = labels } ∷ [];
  }

  -- `except RedisError`: any other kind of exception passes.
  unfoldable pub answer_error :
      Kind → Exception → (Text → Reply) → List (Text × Text) → Tools W → Result Reply × Tools W
  answer_error redis_error exc failed labels s =
      (return (failed exc.message), increment (codes "tool_errors") labels s)
  answer_error _ exc failed labels s = (raise exc, s)

  unfoldable pub answer :
      {A : Type 0}
      → List (Text × Text)
      → (A → Reply)
      → (Text → Reply)
      → Result A
      → Tools W
      → Result Reply × Tools W
  unfolding answer_error
  answer labels reply failed (return a) s = (return (reply a), s)
  answer labels reply failed (raise exc) s = answer_error exc.kind exc failed labels s

  -- The `try` block that every tool has around its call of the store.
  unfoldable pub call_store :
      {A : Type 0}
      → List (Text × Text)
      → (A → Reply)
      → (Text → Reply)
      → Exec W A
      → Exec (Tools W) Reply
  unfolding answer
  call_store labels reply failed body s =
      let counted = increment (codes "tool_calls") labels s in
      let (r, world') = body counted.world in
      answer labels reply failed r (record counted { world = world' })

module _ {W : Type 0} (env : Env W) (ctx : RunContext) where
  abbrev delete_labels : List (Text × Text)
  delete_labels = (codes "tool", codes "todo") ∷ (codes "conversation_id", ctx.conversation_id) ∷ []

  abbrev pub tool_labels : List (Text × Text)
  tool_labels =
      (codes "tool", codes "todo")
      ∷ (codes "conversation_id", ctx.conversation_id)
      ∷ (codes "run_id", ctx.run_id)
      ∷ []

  abbrev lift : {A : Type 0} → Result A → Exec (Tools W) A
  lift r s = (r, s)

  unfoldable pub create_task_tool : Text → Text → Option Fields → Exec (Tools W) Reply
  create_task_tool conversation_id title metadata = do
    cid ← lift (require_str_non_empty (codes "conversation_id") conversation_id)
    ttl ← lift (require_str_non_empty (codes "title") title)
    call_store tool_labels (λ t. task_reply (some t)) task_error (create_task env cid ttl metadata)

  unfoldable pub get_task_tool : Text → Exec (Tools W) Reply
  get_task_tool task_id = do
    tid ← lift (require_str_non_empty (codes "task_id") task_id)
    call_store tool_labels task_reply task_error (get_task env tid)

  unfoldable pub list_tasks_tool : Text → Exec (Tools W) Reply
  list_tasks_tool conversation_id = do
    cid ← lift (require_str_non_empty (codes "conversation_id") conversation_id)
    call_store tool_labels tasks_reply tasks_error (list_tasks env cid)

  unfoldable pub update_task_tool :
      Text → Option Text → Option Bool → Option Fields → Exec (Tools W) Reply
  update_task_tool task_id title completed metadata = do
    tid ← lift (require_str_non_empty (codes "task_id") task_id)
    _ ← lift (some_field title completed metadata)
    call_store tool_labels task_reply task_error (update_task env tid title completed metadata)

  unfoldable pub delete_task_tool : Text → Exec (Tools W) Reply
  delete_task_tool task_id = do
    tid ← lift (require_str_non_empty (codes "task_id") task_id)
    call_store delete_labels ok_reply ok_error (delete_task env tid)
