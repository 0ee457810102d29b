-- ===== src/Runner/Tools.antt =====
-- The lifecycle of a tool from the items of a run: a call starts it under a made-up id, and an
-- output ends the call of its conversation that has waited longest.
use magent.Prelude.{
  ℕ, Bool, not, ◌&&◌, ◌||◌, ◌++◌, Option, none, some, List, [], ◌∷◌, if◌then◌else◌, Text, codes,
  contains, is_empty, Dict, lookup, insert,
}
use magent.Json.{Fields, end}
use magent.Runner.Objects.{Obj, or_else, value_or}
use magent.Runner.Fields.{get_tool_call_id}
use magent.Runner.Texts.{summarize, normalize_args}
use magent.Runner.Step.{
  start, success, ToolStep, lookup_pair, insert_pair, pop_pair, pop_key, Env, ToolState,
  unknown_tool, non_empty, text_or, id_or_generate, note_start, pop_start,
}

abbrev pub start_step : (conversation_id name : Text) → Fields → (call_id : Text) → ToolStep
start_step conversation_id name args call_id = record {
  conversation_id = conversation_id;
  name = name;
  args = args;
  result_summary = none;
  status = start;
  error = none;
  duration_ms = none;
  tool_call_id = call_id;
}

abbrev pub result_step :
    (conversation_id name summary : Text) → (duration_ms : Option ℕ) → (call_id : Text) → ToolStep
result_step conversation_id name summary duration_ms call_id = record {
  conversation_id = conversation_id;
  name = name;
  args = end;
  result_summary = some summary;
  status = success;
  error = none;
  duration_ms = duration_ms;
  tool_call_id = call_id;
}

unfoldable pub is_tool_call : Text → Bool
unfolding contains
is_tool_call t = contains (codes "tool_call") t && not (contains (codes "output") t)

unfoldable pub is_tool_result : Text → Bool
unfolding contains
is_tool_result t =
    contains (codes "tool_call_output") t
    || (contains (codes "tool") t && contains (codes "output") t)
    || contains (codes "tool_call_output_item") t

abbrev pub ids_of : Option (List Text) → List Text
ids_of none = []
ids_of (some ids) = ids

-- The dict of pending ids when the list of a conversation has become `ids`.
abbrev pub leave_ids : Text → List Text → Dict (List Text) → Dict (List Text)
leave_ids conversation_id [] pending = pop_key conversation_id pending
leave_ids conversation_id (id ∷ ids) pending = insert conversation_id (id ∷ ids) pending

module _ {W : Type 0} where
  unfoldable pub append_pending : Text → Text → ToolState W → ToolState W
  append_pending conversation_id call_id s = record s {
    pending_tool_ids =
        insert conversation_id (ids_of (lookup conversation_id s.pending_tool_ids) ++ call_id ∷ [])
          s.pending_tool_ids;
  }

  unfoldable pub note_name : Text → Text → Text → ToolState W → ToolState W
  note_name conversation_id call_id name s = record s {
    tool_name_by_id = insert_pair (conversation_id, call_id) name s.tool_name_by_id;
  }

  unfoldable pub pop_name : Text → Text → ToolState W → ToolState W
  pop_name conversation_id call_id s = record s {
    tool_name_by_id = pop_pair (conversation_id, call_id) s.tool_name_by_id;
  }

  unfoldable pub take_pending : Text → List Text → ToolState W → Option Text × ToolState W
  take_pending conversation_id [] s = (none, s)
  take_pending conversation_id (pending_id ∷ ids) s = (
    some pending_id,
    record s { pending_tool_ids = leave_ids conversation_id ids s.pending_tool_ids },
  )

  unfoldable pub get_pending_tool_id : Text → ToolState W → Option Text × ToolState W
  unfolding take_pending
  get_pending_tool_id conversation_id s =
      take_pending conversation_id (ids_of (lookup conversation_id s.pending_tool_ids)) s

-- A name is `none` unless it is a string that is not empty.
module _ {W : Type 0} (env : Env W) where
  unfoldable pub handle_tool_call :
      Text → (name : Option Text) → (args : Obj) → ToolState W → ToolStep × ToolState W
  unfolding id_or_generate append_pending note_start note_name normalize_args
  handle_tool_call conversation_id name args s =
      let (call_id, s1) = id_or_generate env none s in
      let s2 = note_start env conversation_id call_id (append_pending conversation_id call_id s1) in
      let final_name = text_or unknown_tool name in
      (
        start_step conversation_id final_name (value_or end (normalize_args args)) call_id,
        note_name conversation_id call_id final_name s2,
      )

  unfoldable pub build_tool_result_event :
      Text
      → (name : Option Text) → (result item : Obj) → (call_id_override : Option Text) → ToolState W
      → ToolStep × ToolState W
  unfolding id_or_generate get_tool_call_id pop_start pop_name
  build_tool_result_event conversation_id name result item call_id_override s =
      let (call_id, s1) =
        id_or_generate env (or_else (non_empty call_id_override) (get_tool_call_id item)) s in
      let stored = lookup_pair (conversation_id, call_id) s1.tool_name_by_id in
      let (duration_ms, s2) = pop_start env conversation_id call_id s1 in
      (
        result_step conversation_id (text_or unknown_tool (or_else name stored))
            (summarize env.show result) duration_ms call_id,
        pop_name conversation_id call_id s2,
      )

  unfoldable pub create_fallback_tool_events :
      Text → (name : Option Text) → (result item : Obj) → ToolState W → List ToolStep × ToolState W
  unfolding id_or_generate note_start note_name build_tool_result_event
  create_fallback_tool_events conversation_id name result item s =
      let (fallback_id, s1) = id_or_generate env none s in
      let provisional_name = text_or unknown_tool name in
      let s2 =
        note_name conversation_id fallback_id provisional_name
          (note_start env conversation_id fallback_id s1) in
      let (success_event, s3) =
        build_tool_result_event conversation_id (some provisional_name) result item
          (some fallback_id) s2 in
      (start_step conversation_id provisional_name end fallback_id ∷ success_event ∷ [], s3)

  unfoldable pub result_for :
      Text
      → (name : Option Text) → (result item : Obj) → Option Text × ToolState W
      → List ToolStep × ToolState W
  unfolding create_fallback_tool_events build_tool_result_event
  result_for conversation_id name result item (none, s) =
      create_fallback_tool_events conversation_id name result item s
  result_for conversation_id name result item (some pending_id, s) =
      let stored_name = lookup_pair (conversation_id, pending_id) s.tool_name_by_id in
      let final_name = text_or unknown_tool (or_else name stored_name) in
      let (event, s') =
        build_tool_result_event conversation_id (some final_name) result item (some pending_id) s in
      (event ∷ [], s')

  unfoldable pub handle_tool_result :
      Text → (name : Option Text) → (result item : Obj) → ToolState W → List ToolStep × ToolState W
  unfolding get_pending_tool_id result_for
  handle_tool_result conversation_id name result item s =
      result_for conversation_id name result item (get_pending_tool_id conversation_id s)

  -- The events that stand for an item, none for an item that is no tool's.
  unfoldable pub map_typed_tool_item :
      Text
      → (item_type : Text) → (name : Option Text) → (args result item : Obj) → ToolState W
      → List ToolStep × ToolState W
  unfolding is_tool_call is_tool_result handle_tool_call handle_tool_result
  map_typed_tool_item conversation_id item_type name args result item s =
      let t = env.lower item_type in
      if is_empty t
      then ([], s)
      else if is_tool_call t
      then (let (event, s') = handle_tool_call conversation_id name args s in (event ∷ [], s'))
      else if is_tool_result t
      then handle_tool_result conversation_id name result item s
      else ([], s)
