-- ===== src/Json.antt =====
-- JSON values as Python's `json` module holds them, and `json.dumps(value, separators=(",", ":"))`.
-- A number is kept as the literal that `dumps` writes for it.
use magent.Prelude.{
  ℕ, zero, suc, ◌+◌, ◌-◌, ◌/◌, ◌%◌, ◌≡◌, refl, Bool, true, false, ◌&&◌, Option, none, some, [], ◌∷◌,
  ◌++◌, ltb, leb, ◌==◌, if◌then◌else◌, Text, codes, same_text,
}

mutual
  pub data Value : Type 0 where
    null : Value
    bool : Bool → Value
    num : Text → Value
    str : Text → Value
    arr : Items → Value
    obj : Fields → Value

  pub data Items : Type 0 where
    nil : Items
    cons : Value → Items → Items

  pub data Fields : Type 0 where
    end : Fields
    field : Text → Value → Fields → Fields

-- d.get(k)
unfoldable pub get : Text → Fields → Option Value
get k end = none
get k (field j v d) = if same_text j k then some v else get k d

-- d[k] = v
unfoldable pub assign : Text → Value → Fields → Fields
assign k v end = field k v end
assign k v (field j w d) = if same_text j k then field j v d else field j w (assign k v d)

unfoldable pub hex_digit : ℕ → ℕ
hex_digit d = if ltb d 10 then 48 + d else 87 + d

unfoldable pub hex4 : ℕ → Text
unfolding hex_digit
hex4 n =
    92
    ∷ 117
    ∷ hex_digit (n / 4096 % 16)
    ∷ hex_digit (n / 256 % 16)
    ∷ hex_digit (n / 16 % 16)
    ∷ hex_digit (n % 16)
    ∷ []

-- One character of a string literal, with `ensure_ascii` as by default.
unfoldable pub escape : ℕ → Text
unfolding hex4
escape c =
    if c == 34
    then 92 ∷ 34 ∷ []
    else if c == 92
    then 92 ∷ 92 ∷ []
    else if c == 10
    then 92 ∷ 110 ∷ []
    else if c == 13
    then 92 ∷ 114 ∷ []
    else if c == 9
    then 92 ∷ 116 ∷ []
    else if c == 12
    then 92 ∷ 102 ∷ []
    else if c == 8
    then 92 ∷ 98 ∷ []
    else if leb 32 c && leb c 126
    then c ∷ []
    else if ltb c 65536
    then hex4 c
    else hex4 (55296 + (c - 65536) / 1024) ++ hex4 (56320 + (c - 65536) % 1024)

unfoldable pub escape_all : Text → Text
unfolding escape
escape_all [] = []
escape_all (c ∷ s) = escape c ++ escape_all s

unfoldable pub quote : Text → Text
unfolding escape_all
quote s = 34 ∷ (escape_all s ++ 34 ∷ [])

unfoldable mutual
  unfolding quote

  pub dumps_value : Value → Text
  dumps_value null = codes "null"
  dumps_value (bool true) = codes "true"
  dumps_value (bool false) = codes "false"
  dumps_value (num literal) = literal
  dumps_value (str s) = quote s
  dumps_value (arr nil) = codes "[]"
  dumps_value (arr (cons v xs)) = 91 ∷ (dumps_value v ++ more_items xs)
  dumps_value (obj end) = codes "{}"
  dumps_value (obj (field k v d)) = 123 ∷ (quote k ++ 58 ∷ (dumps_value v ++ more_fields d))

  pub more_items : Items → Text
  more_items nil = codes "]"
  more_items (cons v xs) = 44 ∷ (dumps_value v ++ more_items xs)

  pub more_fields : Fields → Text
  more_fields end = codes "}"
  more_fields (field k v d) = 44 ∷ (quote k ++ 58 ∷ (dumps_value v ++ more_fields d))

-- `json.dumps` of a dict.
unfoldable pub dumps : Fields → Text
unfolding dumps_value
dumps d = dumps_value (obj d)

dumps_test :
    dumps (
      field
        (codes "a")
        (str (codes "x\"y"))
        (field (codes "n") (arr (cons (num (codes "1")) (cons null nil))) end))
    ≡ codes "{\"a\":\"x\\\"y\",\"n\":[1,null]}"
unfolding dumps more_items more_fields
dumps_test = refl

-- The decimal literal of a number.
unfoldable pub decimal_fuel : ℕ → ℕ → Text → Text
decimal_fuel zero n out = out
decimal_fuel (suc f) n out =
    let d = 48 + n % 10 in
    let rest = decimal_fuel f (n / 10) (d ∷ out) in if ltb n 10 then d ∷ out else rest

unfoldable pub decimal : ℕ → Text
unfolding decimal_fuel
decimal n = decimal_fuel (suc n) n []

decimal_test : decimal 1024 ≡ codes "1024"
unfolding decimal
decimal_test = refl
