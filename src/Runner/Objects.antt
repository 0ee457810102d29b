-- ===== src/Runner/Objects.antt =====
-- The values that the SDK streams: plain Python data, and objects with attributes. A dict or list
-- has none of the attributes that the runner asks for.
use magent.Prelude.{
  Bool, true, false, not, ◌||◌, Option, none, some, [], ◌∷◌, if◌then◌else◌, Text, codes, same_text,
  is_empty,
}
use magent.Json.{Value, null, bool, num, str, arr, obj, nil, cons, end, field, Fields, get}

mutual
  -- `delta_event` is an instance of ResponseTextDeltaEvent.
  pub data Obj : Type 0 where
    plain : Value → Obj
    object : Attrs → Obj
    delta_event : Attrs → Obj

  pub data Attrs : Type 0 where
    no_attrs : Attrs
    attr : Text → Obj → Attrs → Attrs

abbrev pub no_value : Obj
no_value = plain null

unfoldable attr_of : Text → Attrs → Obj
attr_of name no_attrs = no_value
attr_of name (attr n v rest) = if same_text n name then v else attr_of name rest

-- getattr(value, name, None)
unfoldable pub getattr : Text → Obj → Obj
unfolding attr_of
getattr name (plain v) = no_value
getattr name (object attrs) = attr_of name attrs
getattr name (delta_event attrs) = attr_of name attrs

-- `d.get(k)`, None where the key is missing.
unfoldable pub get_or_null : Text → Fields → Value
get_or_null k d = elim (get k d) [ none ↦ null | some v ↦ v ]

-- `value.get(k) if isinstance(value, dict) else None`
unfoldable pub dict_get : Text → Obj → Obj
unfolding get_or_null
dict_get k (plain (obj d)) = plain (get_or_null k d)
dict_get k _ = no_value

abbrev pub is_none : Obj → Bool
is_none (plain null) = true
is_none _ = false

abbrev pub is_dict : Obj → Bool
is_dict (plain (obj d)) = true
is_dict _ = false

-- The truth value of a plain value.
unfoldable pub truthy_value : Value → Bool
truthy_value null = false
truthy_value (bool b) = b
truthy_value (num literal) = not (
    same_text literal (codes "0")
    || same_text literal (codes "0.0")
    || same_text literal (codes "-0.0"))
truthy_value (str s) = not (is_empty s)
truthy_value (arr nil) = false
truthy_value (arr (cons v vs)) = true
truthy_value (obj end) = false
truthy_value (obj (field k v d)) = true

unfoldable pub truthy : Obj → Bool
unfolding truthy_value
truthy (plain v) = truthy_value v
truthy _ = true

-- `a or b`
abbrev pub or_obj : Obj → Obj → Obj
or_obj a b = if truthy a then a else b

-- The text where `isinstance(value, str) and value`.
abbrev pub some_text : Obj → Option Text
some_text (plain (str [])) = none
some_text (plain (str (c ∷ s))) = some (c ∷ s)
some_text _ = none

abbrev pub or_else {ℓ} : {A : Type ℓ} → Option A → Option A → Option A
or_else (some a) b = some a
or_else none b = b

abbrev pub value_or {ℓ} : {A : Type ℓ} → A → Option A → A
value_or a none = a
value_or a (some b) = b

-- The value where it is not None.
abbrev pub some_value : Obj → Option Obj
some_value v = if is_none v then none else some v
