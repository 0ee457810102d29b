-- ===== src/Gateway/Fits.antt =====
-- What the truncation of a payload guarantees to a client.
use magent.Prelude.{
  ℕ, ◌-◌, ◌≤◌, ◌≡◌, refl, ◌⊎◌, inl, inr, ap, ◌∙◌, leb→le, Bool-cases, false, Option, none, some, [],
  ◌∷◌, ◌++◌, arith, leb, if◌then◌else◌, Text, codes, same_text, same_text_iff,
}
use magent.Json.{Value, str, Fields, end, field, get, assign}
use magent.Gateway.Sse.{
  utf8_size, utf8_length, take_bytes, dumps_length, with_text, truncate_text_field, truncated_event,
  event_type, minimal, create_minimal_truncated_payload, or_minimal, shorten,
  truncate_payload_for_sse,
}

pub get-assign :
    (k j : Text) (v : Value) (d : Fields)
    → get j (assign k v d) ≡ (if same_text k j then some v else get j d)
unfolding get assign
get-assign k j v end = refl
get-assign k j v (field i w d) =
    ground (arith, same_text_iff k j, same_text_iff i k, same_text_iff i j, get-assign k j v d)

-- The truncated text is a beginning of the text, of at most the given bytes.
pub take_bytes_lem :
    (n : ℕ) (s : Text)
    → (utf8_length (take_bytes n s) ≤ n) × ((rest : Text) × (s ≡ take_bytes n s ++ rest))
unfolding take_bytes utf8_length
take_bytes_lem n [] = (omega arith, ([], refl))
take_bytes_lem n (c ∷ s) = elim (Bool-cases (leb (utf8_size c) n)) [
  | inl fits ↦
      let (short, (rest, e)) = take_bytes_lem (n - utf8_size c) s in
      let le = leb→le (utf8_size c) n fits in rw fits (omega arith, (rest, ap (λ t. c ∷ t) e))
  | inr over ↦ rw over (omega arith, (c ∷ s, refl))
]

-- The fields that the truncation does not write.
abbrev pub Kept : Text → Type 0
Kept k =
    (same_text (codes "text") k ≡ false)
    × (same_text (codes "truncated") k ≡ false)
    × (same_text (codes "cap_bytes") k ≡ false)

get-with_text :
    (k text : Text) (limit : ℕ) (payload : Fields)
    → Kept k
    → get k (with_text limit text payload) ≡ get k payload
unfolding with_text
get-with_text k text limit payload (a, b, c) = simp (get-assign, a, b, c)

get-with_text_self :
    (limit : ℕ) (text : Text) (payload : Fields)
    → get (codes "text") (with_text limit text payload) ≡ some (str text)
unfolding with_text same_text
get-with_text_self limit text payload = simp get-assign

event-Kept : Kept (codes "event")
unfolding same_text
event-Kept = (refl, refl, refl)

pub truncate_text_field-some :
    (payload out : Fields) (s : Text) (limit : ℕ)
    → truncate_text_field payload s limit ≡ some out
    → (dumps_length out ≤ limit)
      × ((shorter rest : Text) × (s ≡ shorter ++ rest)
          × (get (codes "text") out ≡ some (str shorter)))
      × ((k : Text) → Kept k → get k out ≡ get k payload)
unfolding truncate_text_field
truncate_text_field-some payload out s limit h =
    let room = limit - dumps_length (with_text limit [] payload) in
    let (_, (rest, split)) = take_bytes_lem room s in
    let same : out ≡ with_text limit (take_bytes room s) payload = ground arith in
    (
      ground arith,
      (
        take_bytes room s,
        rest,
        split,
        rw same (get-with_text_self limit (take_bytes room s) payload),
      ),
      λ k kept. rw same (get-with_text k (take_bytes room s) limit payload kept),
    )

abbrev Keeps : Text → Fields → Type 0
Keeps kind out = (get (codes "event") out ≡ some (str kind)) ⊎ (out ≡ truncated_event)

module _ (str_of : Value → Text) where
  create_fits :
      (payload : Fields) (limit : ℕ)
      → (dumps_length (create_minimal_truncated_payload str_of payload limit) ≤ limit)
        ⊎ (create_minimal_truncated_payload str_of payload limit ≡ truncated_event)
  unfolding create_minimal_truncated_payload
  create_fits payload limit = ground arith

  or_minimal_fits :
      (payload : Fields) (limit : ℕ) (o : Option Fields)
      → ((out : Fields) → o ≡ some out → dumps_length out ≤ limit)
      → (dumps_length (or_minimal str_of payload limit o) ≤ limit)
        ⊎ (or_minimal str_of payload limit o ≡ truncated_event)
  unfolding or_minimal
  or_minimal_fits payload limit none h = create_fits payload limit
  or_minimal_fits payload limit (some out) h = inl (h out refl)

  shorten_fits :
      (payload : Fields) (limit : ℕ) (text : Option Value)
      → (dumps_length (shorten str_of payload limit text) ≤ limit)
        ⊎ (shorten str_of payload limit text ≡ truncated_event)
  unfolding shorten
  shorten_fits payload limit (some (str s)) =
      or_minimal_fits payload limit (truncate_text_field payload s limit)
        (λ out e. (truncate_text_field-some payload out s limit e).0)
  shorten_fits payload limit _ = create_fits payload limit

  create-Keeps :
      (payload : Fields) (limit : ℕ) (kind : Text)
      → get (codes "event") payload ≡ some (str kind)
      → Keeps kind (create_minimal_truncated_payload str_of payload limit)
  unfolding create_minimal_truncated_payload minimal event_type get same_text
  create-Keeps payload limit kind h = ground arith

  or_minimal-Keeps :
      (payload : Fields) (limit : ℕ) (kind : Text) (o : Option Fields)
      → get (codes "event") payload ≡ some (str kind)
      → ((out : Fields) → o ≡ some out → get (codes "event") out ≡ get (codes "event") payload)
      → Keeps kind (or_minimal str_of payload limit o)
  unfolding or_minimal
  or_minimal-Keeps payload limit kind none e h = create-Keeps payload limit kind e
  or_minimal-Keeps payload limit kind (some out) e h = inl (h out refl ∙ e)

  shorten-Keeps :
      (payload : Fields) (limit : ℕ) (kind : Text) (text : Option Value)
      → get (codes "event") payload ≡ some (str kind)
      → Keeps kind (shorten str_of payload limit text)
  unfolding shorten
  shorten-Keeps payload limit kind (some (str s)) h =
      or_minimal-Keeps payload limit kind (truncate_text_field payload s limit) h
        (λ out e. (truncate_text_field-some payload out s limit e).2 (codes "event") event-Kept)
  shorten-Keeps payload limit kind _ h = create-Keeps payload limit kind h

  -- With a limit set, the payload that is sent is at most that long as JSON, or it is the fixed
  -- fallback event.
  pub truncate_fits :
      (payload : Fields) (limit : ℕ)
      → (dumps_length (truncate_payload_for_sse str_of payload (some limit)) ≤ limit)
        ⊎ (truncate_payload_for_sse str_of payload (some limit) ≡ truncated_event)
  unfolding truncate_payload_for_sse
  truncate_fits payload limit = elim (Bool-cases (leb (dumps_length payload) limit)) [
    | inl fits ↦ rw fits (inl (leb→le (dumps_length payload) limit fits))
    | inr over ↦ rw over (shorten_fits payload limit (get (codes "text") payload))
  ]

  -- With a limit set, a payload whose event is a string keeps that event, or the fixed fallback
  -- event is sent.
  pub truncate_keeps_event :
      (payload : Fields) (limit : ℕ) (kind : Text)
      → get (codes "event") payload ≡ some (str kind)
      → (get (codes "event") (truncate_payload_for_sse str_of payload (some limit))
          ≡ some (str kind))
        ⊎ (truncate_payload_for_sse str_of payload (some limit) ≡ truncated_event)
  unfolding truncate_payload_for_sse
  truncate_keeps_event payload limit kind h = elim (Bool-cases (leb (dumps_length payload) limit)) [
    | inl fits ↦ rw fits (inl h)
    | inr over ↦ rw over (shorten-Keeps payload limit kind (get (codes "text") payload) h)
  ]
