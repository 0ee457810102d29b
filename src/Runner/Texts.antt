-- ===== src/Runner/Texts.antt =====
-- The texts of a streamed item: its type, its final text and usage, and how a result is written.
use magent.Prelude.{
  ℕ, Bool, true, false, ◌||◌, ◌≡◌, refl, ◌++◌, Option, none, some, List, [], ◌∷◌, any,
  if◌then◌else◌, Text, codes, same_text, contains, has_text, ◌==◌, ltb,
}
use magent.Json.{
  Value, null, bool, num, str, arr, obj, Items, nil, cons, Fields, field, end, escape,
}
use magent.Runner.Objects.{
  Obj, plain, getattr, dict_get, or_obj, some_text, or_else, get_or_null, is_none, truthy,
  truthy_value,
}

-- One character of `json.dumps(value, ensure_ascii=False)`.
unfoldable escape_raw : ℕ → Text
unfolding escape
escape_raw c = if ltb c 32 || c == 34 || c == 92 then escape c else c ∷ []

unfoldable escape_raw_all : Text → Text
unfolding escape_raw
escape_raw_all [] = []
escape_raw_all (c ∷ s) = escape_raw c ++ escape_raw_all s

abbrev quote_raw : Text → Text
quote_raw s = 34 ∷ (escape_raw_all s ++ 34 ∷ [])

unfoldable mutual
  unfolding escape_raw_all

  -- `json.dumps(value, ensure_ascii=False)`, with the separators ", " and ": ".
  pub dumps_raw : Value → Text
  dumps_raw null = codes "null"
  dumps_raw (bool true) = codes "true"
  dumps_raw (bool false) = codes "false"
  dumps_raw (num literal) = literal
  dumps_raw (str s) = quote_raw s
  dumps_raw (arr nil) = codes "[]"
  dumps_raw (arr (cons v xs)) = 91 ∷ (dumps_raw v ++ more_raw_items xs)
  dumps_raw (obj end) = codes "{}"
  dumps_raw (obj (field k v d)) =
      123 ∷ (quote_raw k ++ codes ": " ++ dumps_raw v ++ more_raw_fields d)

  more_raw_items : Items → Text
  more_raw_items nil = codes "]"
  more_raw_items (cons v xs) = codes ", " ++ dumps_raw v ++ more_raw_items xs

  more_raw_fields : Fields → Text
  more_raw_fields end = codes "}"
  more_raw_fields (field k v d) =
      codes ", " ++ quote_raw k ++ codes ": " ++ dumps_raw v ++ more_raw_fields d

dumps_raw_test :
    dumps_raw (
      obj (
        field
          (codes "a")
          (arr (cons (num (codes "1")) (cons null nil)))
          (field (codes "b") (str (codes "é\n")) end)))
    ≡ codes "{\"a\": [1, null], \"b\": \"é\\n\"}"
unfolding dumps_raw more_raw_items more_raw_fields escape_raw_all
dumps_raw_test = refl

module _ (show : Obj → Text) where
  -- `str(value)`; `show` is the `repr` of a list, a dict or an object.
  unfoldable pub str_of : Obj → Text
  str_of (plain null) = codes "None"
  str_of (plain (bool true)) = codes "True"
  str_of (plain (bool false)) = codes "False"
  str_of (plain (num literal)) = literal
  str_of (plain (str s)) = s
  str_of v = show v

  unfoldable pub summarize : Obj → Text
  unfolding dumps_raw str_of
  summarize (plain (arr vs)) = dumps_raw (arr vs)
  summarize (plain (obj d)) = dumps_raw (obj d)
  summarize v = str_of v

  unfoldable pub get_item_type_str : Obj → Text
  unfolding str_of
  get_item_type_str item =
      let own = getattr (codes "type") item in
      let t =
        if is_none own
        then or_obj (dict_get (codes "type") item) (dict_get (codes "kind") item)
        else own in
      str_of (or_obj t (plain (str [])))

-- `args` for a dict, and `{"args": args}` for a list; nothing for any other value.
unfoldable pub normalize_args : Obj → Option Fields
normalize_args (plain (obj d)) = some d
normalize_args (plain (arr vs)) = some (field (codes "args") (arr vs) end)
normalize_args _ = none

-- `value in (True, "completed", "done", "final")`
unfoldable pub is_flag : Obj → Bool
is_flag (plain (bool b)) = b
is_flag (plain (num literal)) = same_text literal (codes "1") || same_text literal (codes "1.0")
is_flag (plain (str s)) = has_text s (codes "completed" ∷ codes "done" ∷ codes "final" ∷ [])
is_flag _ = false

abbrev holds_completed : Obj → Bool
holds_completed (plain (str kind)) = contains (codes "completed") kind
holds_completed _ = false

unfoldable pub is_final_item : Obj → Bool
unfolding is_flag truthy contains
is_final_item item =
    any (λ name. truthy (getattr name item))
      (codes "final" ∷ codes "is_final" ∷ codes "completed" ∷ [])
    || any (λ k. is_flag (dict_get k item))
        (codes "final" ∷ codes "is_final" ∷ codes "completed" ∷ codes "status" ∷ [])
    || holds_completed (or_obj (dict_get (codes "kind") item) (dict_get (codes "type") item))

abbrev text_keys : List Text
text_keys = codes "text" ∷ codes "content" ∷ codes "message" ∷ codes "output" ∷ []

unfoldable pub extract_text_from_attrs : Obj → List Text → Option Text
extract_text_from_attrs item [] = none
extract_text_from_attrs item (name ∷ names) =
    or_else (some_text (getattr name item)) (extract_text_from_attrs item names)

abbrev part_of : Value → Option Text
part_of (str s) = some s
part_of _ = none

abbrev or_value : Value → Value → Value
or_value a b = if truthy_value a then a else b

abbrev item_part : Value → Option Text
item_part (str s) = some s
item_part (obj d) = part_of (
    or_value (get_or_null (codes "text") d)
      (or_value (get_or_null (codes "content") d) (get_or_null (codes "output") d)))
item_part _ = none

-- The parts of a list, joined; none where it has no part.
unfoldable pub collect_string_parts : Items → Option Text
collect_string_parts nil = none
collect_string_parts (cons v vs) =
    let rest = collect_string_parts vs in
    elim (item_part v) [
      | none ↦ rest
      | some part ↦ elim rest [ none ↦ some part | some more ↦ some (part ++ more) ]
    ]

abbrev list_parts : Obj → Option Text
list_parts (plain (arr vs)) = collect_string_parts vs
list_parts _ = none

unfoldable string_at : Obj → List Text → Option Text
string_at d [] = none
string_at d (key ∷ keys) = or_else (some_text (dict_get key d)) (string_at d keys)

unfoldable parts_at : Obj → List Text → Option Text
unfolding collect_string_parts
parts_at d [] = none
parts_at d (key ∷ keys) = or_else (list_parts (dict_get key d)) (parts_at d keys)

unfoldable pub extract_text_from_dict : Obj → Option Text
unfolding string_at parts_at
extract_text_from_dict d = or_else (string_at d text_keys) (parts_at d text_keys)

unfoldable pub extract_text : Obj → Option Text
unfolding extract_text_from_attrs extract_text_from_dict
extract_text item = or_else (extract_text_from_attrs item text_keys) (extract_text_from_dict item)

abbrev as_dict : Obj → Option Fields
as_dict (plain (obj d)) = some d
as_dict _ = none

unfoldable pub extract_usage : Obj → Option Fields
extract_usage item =
    or_else (as_dict (getattr (codes "usage") item)) (as_dict (dict_get (codes "usage") item))
