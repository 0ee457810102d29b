-- ===== src/Todo/Replies.antt =====
-- What a caller of the tools sees.
use magent.Prelude.{
  ◌≡◌, refl, Bool, true, false, inl, inr, Bool-cases, Option, none, some, List, Text, codes, strip,
  is_empty,
}
use magent.Prelude.Exec.{
  Exec, Exception, Kind, permission_error, value_error, key_error, timeout_error, type_error,
  runtime_error, redis_error, http_error, other_error, Result, return, raise, continue,
}
use magent.Json.{Fields}
use magent.Todo.Store.{Env}
use magent.Todo.Tools.{
  Reply, Tools, RunContext, require_str_non_empty, answer, answer_error, increment, call_store,
  some_field, create_task_tool, get_task_tool, list_tasks_tool, update_task_tool, delete_task_tool,
}

abbrev is_redis : Kind → Bool
is_redis redis_error = true
is_redis _ = false

-- A reply, or an exception that is no Redis error.
-- A reply, or an exception that is no Redis error.
unfoldable pub Contained : {A : Type 0} → Result A → Type 0
Contained (return reply) = Unit
Contained (raise exc) = is_redis exc.kind ≡ false

require-Contained : (name value : Text) → Contained (require_str_non_empty name value)
unfolding require_str_non_empty Contained
require-Contained name value = elim (Bool-cases (is_empty (strip value))) [
  | inl blank ↦ rw blank refl
  | inr given ↦ rw given tt
]

some_field-Contained :
    (title : Option Text) (completed : Option Bool) (metadata : Option Fields)
    → Contained (some_field title completed metadata)
unfolding some_field Contained
some_field-Contained none none none = refl
some_field-Contained none none (some d) = tt
some_field-Contained none (some b) d = tt
some_field-Contained (some t) b d = tt

module _ {W : Type 0} where
  answer_error-Contained :
      (k : Kind) (exc : Exception) (failed : Text → Reply) (labels : List (Text × Text))
      (s : Tools W)
      → exc.kind ≡ k
      → Contained (answer_error k exc failed labels s).0
  unfolding answer_error Contained
  answer_error-Contained redis_error exc failed labels s h = tt
  answer_error-Contained permission_error exc failed labels s h = rw h refl
  answer_error-Contained value_error exc failed labels s h = rw h refl
  answer_error-Contained key_error exc failed labels s h = rw h refl
  answer_error-Contained timeout_error exc failed labels s h = rw h refl
  answer_error-Contained type_error exc failed labels s h = rw h refl
  answer_error-Contained runtime_error exc failed labels s h = rw h refl
  answer_error-Contained http_error exc failed labels s h = rw h refl
  answer_error-Contained other_error exc failed labels s h = rw h refl

  answer-Contained :
      {A : Type 0} (labels : List (Text × Text)) (reply : A → Reply) (failed : Text → Reply)
      (r : Result A) (s : Tools W)
      → Contained (answer labels reply failed r s).0
  unfolding answer Contained
  answer-Contained labels reply failed (return a) s = tt
  answer-Contained labels reply failed (raise exc) s =
      answer_error-Contained exc.kind exc failed labels s refl

  call_store-Contained :
      {A : Type 0} (labels : List (Text × Text)) (reply : A → Reply) (failed : Text → Reply)
      (body : Exec W A) (s : Tools W)
      → Contained (call_store labels reply failed body s).0
  unfolding call_store
  call_store-Contained labels reply failed body s =
      answer-Contained labels reply failed (body (increment (codes "tool_calls") labels s).world).0
        _

  checked-Contained :
      {A : Type 0} (r : Result A) (f : A → Exec (Tools W) Reply) (s : Tools W)
      → ((t : A) → Contained (f t s).0)
      → Contained r
      → Contained (continue r f s).0
  unfolding Contained
  checked-Contained (return t) f s h good = h t
  checked-Contained (raise exc) f s h good = good

module _ {W : Type 0} (env : Env W) (ctx : RunContext) (s : Tools W) where
  -- Whatever the Redis client does, none of the five tools lets a Redis error out: each ends with a
  -- reply or with an exception of another kind.
  pub tools-Contained :
      (a b : Text) (title : Option Text) (completed : Option Bool) (metadata : Option Fields)
      → Contained (create_task_tool env ctx a b metadata s).0
        × Contained (get_task_tool env ctx a s).0
        × Contained (list_tasks_tool env ctx a s).0
        × Contained (update_task_tool env ctx a title completed metadata s).0
        × Contained (delete_task_tool env ctx a s).0
  unfolding create_task_tool get_task_tool list_tasks_tool update_task_tool delete_task_tool
  tools-Contained a b title completed metadata = (
    checked-Contained _ _ s
        (λ cid.
          checked-Contained _ _ s (λ ttl. call_store-Contained _ _ _ _ s) (require-Contained _ b))
        (require-Contained _ a),
    checked-Contained _ _ s (λ tid. call_store-Contained _ _ _ _ s) (require-Contained _ a),
    checked-Contained _ _ s (λ cid. call_store-Contained _ _ _ _ s) (require-Contained _ a),
    checked-Contained _ _ s
        (λ tid.
          checked-Contained _ _ s (λ u. call_store-Contained _ _ _ _ s)
            (some_field-Contained title completed metadata))
        (require-Contained _ a),
    checked-Contained _ _ s (λ tid. call_store-Contained _ _ _ _ s) (require-Contained _ a),
  )
