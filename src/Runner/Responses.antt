-- ===== src/Runner/Responses.antt =====
-- The tool events of the Responses API: `_map_response_tool_event` and what it calls.
use magent.Prelude.{
  ℕ, Bool, ◌||◌, ◌++◌, Option, none, some, List, [], ◌∷◌, reverse, length, take, leb, if◌then◌else◌,
  Text, codes, starts_with, has_text,
}
use magent.Json.{Value, num, str, arr, obj, Items, nil, cons, Fields, field, end, decimal}
use magent.Runner.Objects.{Obj, plain, get_or_null, some_text, or_obj, value_or, is_none}
use magent.Runner.Texts.{summarize}
use magent.Runner.Step.{
  success, error, ToolStep, Env, ToolState, id_or_generate, note_start, pop_start,
}
use magent.Runner.Tools.{start_step}

-- text.endswith(suffix)
abbrev ends_with : Text → Text → Bool
ends_with suffix text = starts_with (reverse suffix) (reverse text)

pub record ResponseEventData : Type 0 where
  pub call_id : Option Text
  pub name_val : Option Text
  pub args_preview : Fields
  pub data_dict : Fields

abbrev terminal_names : List Text
terminal_names =
    codes "terminal_run_tool"
    ∷ codes "terminal_run"
    ∷ codes "terminal.run"
    ∷ codes "terminal.run_tool"
    ∷ []

abbrev shorten_command : Text → Text
shorten_command cmd = if leb (length cmd) 160 then cmd else take 157 cmd ++ codes "..."

abbrev command_field : Option Text → Fields → Fields
command_field none out = out
command_field (some cmd) out = field (codes "command") (str (shorten_command cmd)) out

abbrev cwd_field : Option Text → Fields
cwd_field none = end
cwd_field (some cwd) = field (codes "cwd") (str cwd) end

-- What a dict of arguments shows of the command and its directory.
unfoldable pub command_preview : Fields → Fields
unfolding get_or_null
command_preview parsed =
    command_field (some_text (plain (get_or_null (codes "command") parsed)))
      (cwd_field (some_text (plain (get_or_null (codes "cwd") parsed))))

abbrev first_keys : ℕ → Fields → Items
first_keys ℕ.zero d = nil
first_keys (ℕ.suc n) end = nil
first_keys (ℕ.suc n) (field k v d) = cons (str k) (first_keys n d)

abbrev or_fields : Fields → Fields → Fields
or_fields end other = other
or_fields (field k v d) other = field k v d

abbrev len_field : Text → Fields
len_field s = field (codes "len") (num (decimal (length s))) end

abbrev preview_parsed : Text → Option Value → Fields
preview_parsed arguments none = end
preview_parsed arguments (some (obj parsed)) =
    or_fields (command_preview parsed) (len_field arguments)
preview_parsed arguments (some v) = len_field arguments

-- `_minimal_args_preview`: the arguments of a terminal tool are parsed, those of others are counted.
unfoldable pub minimal_args_preview :
    (json_loads : Text → Option Value) → (tool_name : Text) → (arguments : Value) → Fields
unfolding command_preview has_text
minimal_args_preview json_loads tool_name (str arguments) =
    if has_text tool_name terminal_names
    then preview_parsed arguments (json_loads arguments)
    else len_field arguments
minimal_args_preview json_loads tool_name (obj d) =
    or_fields (command_preview d) (field (codes "keys") (arr (first_keys 5 d)) end)
minimal_args_preview json_loads tool_name _ = end

abbrev text_of : Value → Option Text
text_of (str s) = some s
text_of _ = none

abbrev fields_of : Obj → Fields
fields_of (plain (obj d)) = d
fields_of _ = end

unfoldable pub extract_response_event_data : (Text → Option Value) → Obj → ResponseEventData
unfolding get_or_null minimal_args_preview
extract_response_event_data json_loads value =
    let d = fields_of value in
    let name_val = text_of (get_or_null (codes "name") d) in
    record {
      call_id = text_of (get_or_null (codes "id") d);
      name_val = name_val;
      args_preview =
          minimal_args_preview json_loads (value_or [] name_val)
            (get_or_null (codes "arguments") d);
      data_dict = d;
    }

abbrev summary_of : (Obj → Text) → Obj → Option Text
summary_of show v = if is_none v then none else some (summarize show v)

module _ {W : Type 0} (env : Env W) where
  unfoldable pub create_tool_start_event :
      Text → (name : Text) → ResponseEventData → ToolState W → ToolStep × ToolState W
  unfolding id_or_generate note_start
  create_tool_start_event conversation_id name event s =
      let (call_id, s') = id_or_generate env event.call_id s in
      (
        start_step conversation_id name event.args_preview call_id,
        note_start env conversation_id call_id s',
      )

  unfoldable pub create_tool_success_event :
      Text → (name : Text) → ResponseEventData → ToolState W → ToolStep × ToolState W
  unfolding id_or_generate pop_start summarize get_or_null
  create_tool_success_event conversation_id name event s =
      let (call_id, s1) = id_or_generate env event.call_id s in
      let (dur_ms, s2) = pop_start env conversation_id call_id s1 in
      (
        record {
          conversation_id = conversation_id;
          name = name;
          args = event.args_preview;
          result_summary =
              summary_of env.show (plain (get_or_null (codes "result") event.data_dict));
          status = success;
          error = none;
          duration_ms = dur_ms;
          tool_call_id = call_id;
        },
        s2,
      )

  -- The start of a tool that fails stays noted.
  unfoldable pub create_tool_error_event :
      Text → (name : Text) → ResponseEventData → ToolState W → ToolStep × ToolState W
  unfolding id_or_generate summarize get_or_null
  create_tool_error_event conversation_id name event s =
      let (call_id, s') = id_or_generate env event.call_id s in
      let d = event.data_dict in
      let err_text =
        or_obj (plain (get_or_null (codes "error") d))
          (or_obj (plain (get_or_null (codes "message") d)) (plain (str (codes "tool error")))) in
      (
        record {
          conversation_id = conversation_id;
          name = name;
          args = event.args_preview;
          result_summary = none;
          status = error;
          error = some (summarize env.show err_text);
          duration_ms = none;
          tool_call_id = call_id;
        },
        s',
      )

  abbrev only : ToolStep × ToolState W → List ToolStep × ToolState W
  only (event, s) = (event ∷ [], s)

  unfoldable named_tool_event :
      Text
      → (ev_type : Text) → ResponseEventData
      → Option Text
      → ToolState W
      → List ToolStep × ToolState W
  unfolding create_tool_start_event create_tool_success_event create_tool_error_event starts_with
  named_tool_event conversation_id ev_type event none s = ([], s)
  named_tool_event conversation_id ev_type event (some []) s = ([], s)
  named_tool_event conversation_id ev_type event (some (c ∷ name)) s =
      if ends_with (codes ".created") ev_type
      then only (create_tool_start_event conversation_id (c ∷ name) event s)
      else if ends_with (codes ".completed") ev_type
      then only (create_tool_success_event conversation_id (c ∷ name) event s)
      else if ends_with (codes ".failed") ev_type || ends_with (codes ".error") ev_type
      then only (create_tool_error_event conversation_id (c ∷ name) event s)
      else ([], s)

  unfoldable pub map_response_tool_event :
      Text → (ev_type : Text) → Obj → ToolState W → List ToolStep × ToolState W
  unfolding extract_response_event_data named_tool_event
  map_response_tool_event conversation_id ev_type value s =
      let event = extract_response_event_data env.json_loads value in
      named_tool_event conversation_id ev_type event event.name_val s
