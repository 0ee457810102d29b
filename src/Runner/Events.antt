-- ===== src/Runner/Events.antt =====
-- `_map_event`: what the runner streams for one event of the SDK. Several events are a list, and
-- None is the empty list. The debug log lines are left out.
use magent.Prelude.{
  ℕ, Bool, false, Option, none, some, List, [], ◌∷◌, map, if◌then◌else◌, Text, codes, same_text,
  starts_with,
}
use magent.Json.{str, Fields, end}
use magent.Runner.Objects.{
  Obj, plain, delta_event, no_value, getattr, dict_get, is_none, is_dict, or_obj, some_text,
  value_or,
}
use magent.Runner.Fields.{get_name, get_args, get_result, get_tool_call_id, extract_error}
use magent.Runner.Texts.{
  summarize, get_item_type_str, normalize_args, is_final_item, extract_text, extract_usage,
}
use magent.Runner.Step.{
  error, ToolStep, StreamEvent, token, tool_step, output, Env, ToolState, id_or_generate, non_empty,
}
use magent.Runner.Tools.{start_step, result_step, map_typed_tool_item}
use magent.Runner.Responses.{map_response_tool_event}

unfoldable delta_of : Obj → Option Text
delta_of (delta_event attrs) = some_text (getattr (codes "delta") (delta_event attrs))
delta_of value = some_text (dict_get (codes "delta") value)

unfoldable token_for : Text → ℕ → Option Text → List StreamEvent
token_for conversation_id token_index none = []
token_for conversation_id token_index (some delta) = token conversation_id delta token_index ∷ []

unfoldable pub map_raw_response_event : Text → Obj → (token_index : ℕ) → List StreamEvent
unfolding delta_of token_for
map_raw_response_event conversation_id value token_index =
    token_for conversation_id token_index (delta_of value)

unfoldable output_for : Text → Obj → Option Text → List StreamEvent
output_for conversation_id item none = []
output_for conversation_id item (some text) = output conversation_id text (extract_usage item) ∷ []

unfoldable pub map_final_output_event : Text → Obj → List StreamEvent
unfolding is_final_item extract_text output_for
map_final_output_event conversation_id item =
    if is_final_item item
    then output_for conversation_id item (non_empty (extract_text item))
    else []

-- The type of an event and its `data`.
unfoldable pub extract_event_type_and_data : Obj → Obj × Obj
extract_event_type_and_data ev = (
  or_obj (getattr (codes "type") ev) (dict_get (codes "type") ev),
  if is_dict ev then dict_get (codes "data") ev else getattr (codes "data") ev,
)

unfoldable pub is_response_tool_call_event : Obj → Bool
unfolding starts_with
is_response_tool_call_event (plain (str ev_type)) =
    starts_with (codes "response.tool_call.") ev_type
is_response_tool_call_event _ = false

abbrev type_text : Obj → Text
type_text (plain (str ev_type)) = ev_type
type_text _ = []

-- The item of a run event: its `item`, or its data.
abbrev item_of : (ev value : Obj) → Obj
item_of ev value =
    let own = getattr (codes "item") ev in
    let item = if is_none own then dict_get (codes "item") ev else own in
    if is_none item then value else item

module _ {W : Type 0} (env : Env W) where
  unfoldable invocation_for :
      Text → Option Text → Option Fields → ToolState W → List ToolStep × ToolState W
  unfolding id_or_generate
  invocation_for conversation_id (some name) (some args) s =
      let (call_id, s') = id_or_generate env none s in
      (start_step conversation_id name args call_id ∷ [], s')
  invocation_for conversation_id name args s = ([], s)

  unfoldable pub map_tool_invocation :
      Text → Option Text → (args : Obj) → ToolState W → List ToolStep × ToolState W
  unfolding invocation_for normalize_args
  map_tool_invocation conversation_id name args s =
      invocation_for conversation_id name (normalize_args args) s

  unfoldable pub map_tool_result :
      Text → Option Text → (result : Option Obj) → ToolState W → List ToolStep × ToolState W
  unfolding id_or_generate
  map_tool_result conversation_id (some name) (some result) s =
      let (call_id, s') = id_or_generate env none s in
      (result_step conversation_id name (summarize env.show result) none call_id ∷ [], s')
  map_tool_result conversation_id name result s = ([], s)

  unfoldable error_for :
      Text → (item : Obj) → Option Text → Option Text → ToolState W → List ToolStep × ToolState W
  unfolding id_or_generate get_tool_call_id
  error_for conversation_id item (some err) (some name) s =
      let (call_id, s') = id_or_generate env (get_tool_call_id item) s in
      (
        record {
          conversation_id = conversation_id;
          name = name;
          args = end;
          result_summary = none;
          status = error;
          error = some err;
          duration_ms = none;
          tool_call_id = call_id;
        }
            ∷ [],
        s',
      )
  error_for conversation_id item err name s = ([], s)

  unfoldable pub try_map_tool_error :
      Text → (item : Obj) → Option Text → ToolState W → List ToolStep × ToolState W
  unfolding error_for extract_error
  try_map_tool_error conversation_id item name s =
      error_for conversation_id item (extract_error item) name s

  -- `first or second`, for the events of a mapping.
  unfoldable pub or_map :
      List ToolStep × ToolState W
      → (ToolState W → List StreamEvent × ToolState W)
      → List StreamEvent × ToolState W
  or_map ([], s) other = other s
  or_map (step ∷ steps, s) other = (map tool_step (step ∷ steps), s)

  unfoldable pub map_run_item_stream_event :
      Text → (item : Obj) → ToolState W → List StreamEvent × ToolState W
  unfolding or_map map_typed_tool_item map_tool_invocation map_tool_result try_map_tool_error
      map_final_output_event get_name get_args get_result get_item_type_str
  map_run_item_stream_event conversation_id item s =
      let name = get_name item in
      let args = get_args item in
      let result = get_result item in
      let typed =
        map_typed_tool_item env conversation_id (get_item_type_str env.show item) name args
          (value_or no_value result) item s in
      let mapped = or_map typed (λ s1.
        or_map (map_tool_invocation conversation_id name args s1) (λ s2.
          or_map (map_tool_result conversation_id name result s2) (λ s3.
            or_map (try_map_tool_error conversation_id item name s3)
              (λ s4. (map_final_output_event conversation_id item, s4))))) in
      if is_none item then ([], s) else mapped

  unfoldable pub map_event :
      Text → (ev : Obj) → (token_index : ℕ) → ToolState W → List StreamEvent × ToolState W
  unfolding extract_event_type_and_data map_raw_response_event map_run_item_stream_event
      is_response_tool_call_event map_response_tool_event
  map_event conversation_id ev token_index s =
      let (ev_type, value) = extract_event_type_and_data ev in
      let run_item = map_run_item_stream_event conversation_id (item_of ev value) s in
      let (steps, s') = map_response_tool_event env conversation_id (type_text ev_type) value s in
      if same_text (type_text ev_type) (codes "raw_response_event")
      then (map_raw_response_event conversation_id value token_index, s)
      else if same_text (type_text ev_type) (codes "run_item_stream_event")
      then run_item
      else if is_response_tool_call_event ev_type
      then (map tool_step steps, s')
      else ([], s)
