-- ===== src/Observability/Kept.antt =====
-- What `redact` leaves as it was.
use magent.Prelude.{
  ℕ, zero, suc, ◌≡◌, refl, ap, ◌∙◌, false, Bool-cases, inl, inr, Option, none, some, List, [], ◌∷◌,
  Text, same_text, same_text_iff,
}
use magent.Json.{Value, null, bool, num, str, arr, obj, Items, nil, cons, Fields, end, field, get}
use magent.Observability.Redact.{is_sensitive, redact, redact_items, redact_fields}

-- A step into a value: to a key of an object, or to a position of an array.
pub data Step : Type 0 where
  at_key : Text → Step
  at_index : ℕ → Step

unfoldable pub item : ℕ → Items → Option Value
item n nil = none
item zero (cons v xs) = some v
item (suc n) (cons v xs) = item n xs

abbrev pub child : Step → Value → Option Value
child (at_key k) (obj d) = get k d
child (at_index n) (arr xs) = item n xs
child _ _ = none

-- The value at the end of a path, where there is one.
abbrev pub find : List Step → Value → Option Value
find [] v = some v
find (step ∷ path) v = elim (child step v) [ none ↦ none | some w ↦ find path w ]

abbrev pub keys : Fields → List Text
keys end = []
keys (field k v d) = k ∷ keys d

abbrev pub count : Items → ℕ
count nil = 0
count (cons v xs) = suc (count xs)

-- A number, a string, a Boolean or null is the same; an object has the same keys in the same order,
-- and an array the same length.
abbrev pub SameShape : Value → Value → Type 0
SameShape (obj d) w = (d' : Fields) × (w ≡ obj d') × (keys d' ≡ keys d)
SameShape (arr xs) w = (xs' : Items) × (w ≡ arr xs') × (count xs' ≡ count xs)
SameShape null w = w ≡ null
SameShape (bool b) w = w ≡ bool b
SameShape (num n) w = w ≡ num n
SameShape (str s) w = w ≡ str s

abbrev pub KeptAt : Option Value → Option Value → Type 0
KeptAt none after = after ≡ none
KeptAt (some v) after = (w : Value) × (after ≡ some w) × SameShape v w

module _ (lower : Text → Text) where
  -- No key of the path is sensitive.
  abbrev pub IsOpen : List Step → Type 0
  IsOpen [] = Unit
  IsOpen (at_key k ∷ path) = (is_sensitive lower k ≡ false) × IsOpen path
  IsOpen (at_index n ∷ path) = IsOpen path

  keys-redact : (d : Fields) → keys (redact_fields lower d) ≡ keys d
  unfolding redact_fields
  keys-redact end = refl
  keys-redact (field k v d) = ap (λ ks. k ∷ ks) (keys-redact d)

  count-redact : (xs : Items) → count (redact_items lower xs) ≡ count xs
  unfolding redact_items
  count-redact nil = refl
  count-redact (cons v xs) = ap suc (count-redact xs)

  redact-SameShape : (v : Value) → SameShape v (redact lower v)
  unfolding redact
  redact-SameShape (obj d) = (redact_fields lower d, refl, keys-redact d)
  redact-SameShape (arr xs) = (redact_items lower xs, refl, count-redact xs)
  redact-SameShape null = refl
  redact-SameShape (bool b) = refl
  redact-SameShape (num n) = refl
  redact-SameShape (str s) = refl

  abbrev redacted : Option Value → Option Value
  redacted none = none
  redacted (some v) = some (redact lower v)

  get-redact :
      (k : Text) (d : Fields)
      → is_sensitive lower k ≡ false
      → get k (redact_fields lower d) ≡ redacted (get k d)
  unfolding redact_fields get
  get-redact k end free = refl
  get-redact k (field j v d) free = elim (Bool-cases (same_text j k)) [
    | inl same ↦
        let e : j ≡ k = (same_text_iff j k).0 same in
        let kept : is_sensitive lower j ≡ false = ap (is_sensitive lower) e ∙ free in
        rw (same, kept) refl
    | inr other ↦ rw other (get-redact k d free)
  ]

  item-redact : (n : ℕ) (xs : Items) → item n (redact_items lower xs) ≡ redacted (item n xs)
  unfolding redact_items item
  item-redact n nil = refl
  item-redact zero (cons v xs) = refl
  item-redact (suc n) (cons v xs) = item-redact n xs

  redact_keeps_child :
      (path : List Step)
      → ((v : Value) → IsOpen path → KeptAt (find path v) (find path (redact lower v)))
      → (here after : Option Value) → after ≡ redacted here
      → IsOpen path
      → KeptAt
          (elim here [ none ↦ none | some w ↦ find path w ])
          (elim after [ none ↦ none | some w ↦ find path w ])
  redact_keeps_child path keep none after e free = rw e refl
  redact_keeps_child path keep (some v) after e free = rw e (keep v free)

  child-redact-key :
      (k : Text) (v : Value)
      → is_sensitive lower k ≡ false
      → child (at_key k) (redact lower v) ≡ redacted (child (at_key k) v)
  unfolding redact
  child-redact-key k (obj d) free = get-redact k d free
  child-redact-key k (arr xs) free = refl
  child-redact-key k null free = refl
  child-redact-key k (bool b) free = refl
  child-redact-key k (num n) free = refl
  child-redact-key k (str s) free = refl

  child-redact-index :
      (n : ℕ) (v : Value) → child (at_index n) (redact lower v) ≡ redacted (child (at_index n) v)
  unfolding redact
  child-redact-index n (obj d) = refl
  child-redact-index n (arr xs) = item-redact n xs
  child-redact-index n null = refl
  child-redact-index n (bool b) = refl
  child-redact-index n (num m) = refl
  child-redact-index n (str s) = refl

  -- At the end of a path on which no key is sensitive, a redacted value has a value exactly where
  -- the original has one: the same number, string, Boolean or null, an object with the same keys in
  -- the same order, or an array of the same length.
  pub redact_keeps :
      (path : List Step) (v : Value)
      → IsOpen path
      → KeptAt (find path v) (find path (redact lower v))
  redact_keeps [] v free = (redact lower v, refl, redact-SameShape v)
  redact_keeps (at_key k ∷ path) v (here, free) =
      redact_keeps_child path (redact_keeps path) (child (at_key k) v)
        (child (at_key k) (redact lower v)) (child-redact-key k v here) free
  redact_keeps (at_index n ∷ path) v free =
      redact_keeps_child path (redact_keeps path) (child (at_index n) v)
        (child (at_index n) (redact lower v)) (child-redact-index n v) free
