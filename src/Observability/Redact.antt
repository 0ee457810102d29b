-- ===== src/Observability/Redact.antt =====
-- `redact` of magent2/observability/__init__.py: the values of sensitive keys are replaced, at any
-- depth. `lower` is Python's `str.lower`.
use magent.Prelude.{
  ◌≡◌, refl, Bool, true, false, List, [], ◌∷◌, if◌then◌else◌, Text, codes, has_text,
}
use magent.Json.{Value, null, bool, num, str, arr, obj, Items, nil, cons, Fields, end, field}

abbrev pub sensitive_keys : List Text
sensitive_keys =
    codes "openai_api_key"
    ∷ codes "api_key"
    ∷ codes "token"
    ∷ codes "authorization"
    ∷ codes "password"
    ∷ codes "secret"
    ∷ []

abbrev pub redacted_value : Value
redacted_value = str (codes "[REDACTED]")

module _ (lower : Text → Text) where
  unfoldable pub is_sensitive : Text → Bool
  unfolding has_text
  is_sensitive k = has_text (lower k) sensitive_keys

  unfoldable mutual
    pub redact : Value → Value
    redact (obj d) = obj (redact_fields d)
    redact (arr xs) = arr (redact_items xs)
    redact null = null
    redact (bool b) = bool b
    redact (num n) = num n
    redact (str s) = str s

    pub redact_items : Items → Items
    redact_items nil = nil
    redact_items (cons v xs) = cons (redact v) (redact_items xs)

    pub redact_fields : Fields → Fields
    redact_fields end = end
    redact_fields (field k v d) =
        field k (if is_sensitive k then redacted_value else redact v) (redact_fields d)

  -- Every sensitive key, at any depth, has the replacement for its value.
  mutual
    pub IsClean : Value → Type 0
    IsClean (obj d) = AreClean d
    IsClean (arr xs) = AllClean xs
    IsClean null = Unit
    IsClean (bool b) = Unit
    IsClean (num n) = Unit
    IsClean (str s) = Unit

    pub AllClean : Items → Type 0
    AllClean nil = Unit
    AllClean (cons v xs) = IsClean v × AllClean xs

    pub AreClean : Fields → Type 0
    AreClean end = Unit
    AreClean (field k v d) = (if is_sensitive k then v ≡ redacted_value else IsClean v) × AreClean d

  IsClean-field :
      (b : Bool) (v w : Value)
      → IsClean w
      → (if b
          then (if b then redacted_value else w) ≡ redacted_value
          else IsClean (if b then redacted_value else w))
  IsClean-field true v w h = refl
  IsClean-field false v w h = h

  mutual
    unfolding redact redact_items redact_fields IsClean AllClean AreClean

    cleans_value : (v : Value) → IsClean (redact v)
    cleans_value (obj d) = cleans_fields d
    cleans_value (arr xs) = cleans_items xs
    cleans_value null = tt
    cleans_value (bool b) = tt
    cleans_value (num n) = tt
    cleans_value (str s) = tt

    cleans_items : (xs : Items) → AllClean (redact_items xs)
    cleans_items nil = tt
    cleans_items (cons v xs) = (cleans_value v, cleans_items xs)

    cleans_fields : (d : Fields) → AreClean (redact_fields d)
    cleans_fields end = tt
    cleans_fields (field k v d) =
        (IsClean-field (is_sensitive k) v (redact v) (cleans_value v), cleans_fields d)

  -- After a redaction every sensitive key, at any depth of objects and arrays, has the replacement
  -- for its value.
  pub redact-IsClean : (v : Value) → IsClean (redact v)
  redact-IsClean v = cleans_value v
