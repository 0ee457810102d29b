-- ===== src/Runner/Fields.antt =====
-- The name, the arguments, the result and the call id of a streamed item, which stand in different
-- places in different versions of the SDK.
use magent.Prelude.{Option, none, List, [], ◌∷◌, Text, codes}
use magent.Runner.Objects.{Obj, getattr, dict_get, or_obj, some_text, some_value, or_else, value_or}

-- `_find_first_valid_string`, for a value that is a dict.
unfoldable pub find_first_valid_string : Obj → List Text → Option Text
find_first_valid_string d [] = none
find_first_valid_string d (key ∷ keys) =
    or_else (some_text (dict_get key d)) (find_first_valid_string d keys)

unfoldable pub first_valid_attribute : Obj → List Text → Option Text
first_valid_attribute v [] = none
first_valid_attribute v (name ∷ names) =
    or_else (some_text (getattr name v)) (first_valid_attribute v names)

unfoldable pub find_first_non_none : Obj → List Text → Option Obj
find_first_non_none d [] = none
find_first_non_none d (key ∷ keys) =
    or_else (some_value (dict_get key d)) (find_first_non_none d keys)

unfoldable pub first_attribute : Obj → List Text → Option Obj
first_attribute v [] = none
first_attribute v (name ∷ names) = or_else (some_value (getattr name v)) (first_attribute v names)

abbrev name_keys : List Text
name_keys = codes "name" ∷ codes "tool_name" ∷ codes "tool" ∷ []

unfoldable pub get_name_from_raw_payload : Obj → Option Text
unfolding find_first_valid_string
get_name_from_raw_payload raw =
    or_else (some_text (getattr (codes "name") raw)) (find_first_valid_string raw name_keys)

unfoldable pub get_name_from_dict : Obj → Option Text
unfolding find_first_valid_string
get_name_from_dict item = find_first_valid_string item name_keys

unfoldable pub extract_name_from_raw : Obj → Option Text
unfolding get_name_from_raw_payload get_name_from_dict
extract_name_from_raw item =
    or_else (get_name_from_raw_payload (getattr (codes "raw_item") item)) (get_name_from_dict item)

-- A missing tool is None, which has no name.
unfoldable pub get_name : Obj → Option Text
unfolding extract_name_from_raw
get_name item = or_else (some_text (getattr (codes "name") item)) (
    or_else (some_text (getattr (codes "name") (getattr (codes "tool") item))) (
      or_else (some_text (or_obj (getattr (codes "tool_name") item) (getattr (codes "tool") item)))
        (extract_name_from_raw item)))

abbrev args_keys : List Text
args_keys = codes "arguments" ∷ codes "args" ∷ codes "input" ∷ codes "parameters" ∷ []

abbrev args_of_dict : Obj → Obj
args_of_dict item = or_obj (dict_get (codes "arguments") item) (
    or_obj (dict_get (codes "args") item)
      (or_obj (dict_get (codes "input") item) (dict_get (codes "parameters") item)))

unfoldable pub extract_args_from_raw : Obj → Obj
unfolding find_first_non_none
extract_args_from_raw item =
    let raw = getattr (codes "raw_item") item in
    value_or (args_of_dict item)
      (or_else (some_value (getattr (codes "arguments") raw)) (find_first_non_none raw args_keys))

unfoldable pub get_args : Obj → Obj
unfolding extract_args_from_raw
get_args item =
    let tool = getattr (codes "tool") item in
    value_or (extract_args_from_raw item) (
      or_else (some_value (getattr (codes "arguments") item))
        (some_value (or_obj (getattr (codes "arguments") tool) (getattr (codes "input") tool))))

abbrev result_keys : List Text
result_keys =
    codes "result"
    ∷ codes "output_text"
    ∷ codes "output"
    ∷ codes "content"
    ∷ codes "tool_result"
    ∷ []

unfoldable pub get_result_from_raw_payload : Obj → Option Obj
unfolding first_attribute find_first_non_none
get_result_from_raw_payload raw =
    or_else (first_attribute raw result_keys) (find_first_non_none raw result_keys)

unfoldable pub get_result_from_dict : Obj → Option Obj
unfolding find_first_non_none
get_result_from_dict item = find_first_non_none item result_keys

unfoldable pub extract_result_from_raw : Obj → Option Obj
unfolding get_result_from_raw_payload get_result_from_dict
extract_result_from_raw item =
    or_else (get_result_from_raw_payload (getattr (codes "raw_item") item))
      (get_result_from_dict item)

unfoldable pub get_result : Obj → Option Obj
unfolding extract_result_from_raw
get_result item = or_else (some_value (getattr (codes "result") item)) (
    or_else (some_value (or_obj (getattr (codes "output") item) (getattr (codes "content") item)))
      (extract_result_from_raw item))

abbrev id_keys : List Text
id_keys = codes "id" ∷ codes "tool_call_id" ∷ codes "call_id" ∷ []

unfoldable pub get_tool_call_id_from_raw_payload : Obj → Option Text
unfolding first_valid_attribute find_first_valid_string
get_tool_call_id_from_raw_payload raw =
    or_else (first_valid_attribute raw id_keys) (find_first_valid_string raw id_keys)

unfoldable pub get_tool_call_id_from_dict : Obj → Option Text
unfolding find_first_valid_string
get_tool_call_id_from_dict item = find_first_valid_string item id_keys

unfoldable pub extract_tool_call_id_from_raw : Obj → Option Text
unfolding get_tool_call_id_from_raw_payload get_tool_call_id_from_dict
extract_tool_call_id_from_raw item =
    or_else (get_tool_call_id_from_raw_payload (getattr (codes "raw_item") item))
      (get_tool_call_id_from_dict item)

unfoldable pub get_tool_call_id : Obj → Option Text
unfolding extract_tool_call_id_from_raw
get_tool_call_id item =
    or_else (first_valid_attribute item id_keys) (extract_tool_call_id_from_raw item)

unfoldable pub extract_error : Obj → Option Text
extract_error item =
    or_else (some_text (getattr (codes "error") item))
      (some_text (or_obj (dict_get (codes "error") item) (dict_get (codes "message") item)))
