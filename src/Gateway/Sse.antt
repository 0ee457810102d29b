-- ===== src/Gateway/Sse.antt =====
-- `_truncate_payload_for_sse` and its helpers. A payload is a dict of JSON values, so `json.dumps`
-- raises nothing; encoding a lone surrogate as UTF-8 does.
use magent.Prelude.{
  ℕ, suc, ◌+◌, ◌-◌, Bool, true, ◌&&◌, Option, none, some, [], ◌∷◌, ltb, leb, if◌then◌else◌, pos,
  py_int, Text, codes, strip, is_empty, any, length,
}
use magent.Json.{Value, bool, num, str, Fields, end, field, get, assign, dumps, decimal}

-- The bytes of a code point in UTF-8.
unfoldable pub utf8_size : ℕ → ℕ
utf8_size c = if ltb c 128 then 1 else if ltb c 2048 then 2 else if ltb c 65536 then 3 else 4

abbrev pub is_surrogate : ℕ → Bool
is_surrogate c = leb 55296 c && leb c 57343

unfoldable pub utf8_length : Text → ℕ
unfolding utf8_size
utf8_length [] = 0
utf8_length (c ∷ s) = utf8_size c + utf8_length s

-- text.encode("utf-8")[:n].decode("utf-8", errors="ignore"): the characters that fit whole.
unfoldable pub take_bytes : ℕ → Text → Text
unfolding utf8_size
take_bytes n [] = []
take_bytes n (c ∷ s) = if leb (utf8_size c) n then c ∷ take_bytes (n - utf8_size c) s else []

-- `_sse_cap_bytes`, over the value of GATEWAY_SSE_MAX_BYTES.
unfoldable pub sse_cap_bytes : Option Text → Option ℕ
unfolding strip py_int
sse_cap_bytes none = none
sse_cap_bytes (some raw) =
    if is_empty (strip raw)
    then none
    else elim (py_int (strip raw)) [ some (pos (suc n)) ↦ some (suc n) | _ ↦ none ]

abbrev pub dumps_length : Fields → ℕ
dumps_length payload = length (dumps payload)

-- The payload with another text, marked as truncated.
unfoldable pub with_text : ℕ → Text → Fields → Fields
with_text cap_bytes text payload =
    assign (codes "cap_bytes") (num (decimal cap_bytes))
      (assign (codes "truncated") (bool true) (assign (codes "text") (str text) payload))

unfoldable pub truncate_text_field : Fields → Text → ℕ → Option Fields
truncate_text_field payload original_text cap_bytes =
    let overhead = dumps_length (with_text cap_bytes [] payload) in
    let trimmed = take_bytes (cap_bytes - overhead) original_text in
    let base = with_text cap_bytes trimmed payload in
    if any is_surrogate original_text
    then none
    else if leb (dumps_length base) cap_bytes
    then some base
    else none

abbrev pub truncated_event : Fields
truncated_event = field (codes "event") (str (codes "truncated")) end

-- `str_of` is Python's `str`, for a value that is no string.
module _ (str_of : Value → Text) where
  unfoldable pub event_type : Fields → Text
  event_type payload = elim (get (codes "event") payload) [
    | none ↦ codes "output"
    | some (str s) ↦ s
    | some v ↦ str_of v
  ]

  unfoldable pub minimal : Fields → ℕ → Fields
  minimal payload cap_bytes = field (codes "event") (str (event_type payload)) (
      field (codes "truncated") (bool true)
        (field (codes "cap_bytes") (num (decimal cap_bytes)) end))

  unfoldable pub create_minimal_truncated_payload : Fields → ℕ → Fields
  create_minimal_truncated_payload payload cap_bytes =
      if leb (dumps_length (minimal payload cap_bytes)) cap_bytes
      then minimal payload cap_bytes
      else truncated_event

  unfoldable pub or_minimal : Fields → ℕ → Option Fields → Fields
  or_minimal payload cap_bytes (some base) = base
  or_minimal payload cap_bytes none = create_minimal_truncated_payload payload cap_bytes

  -- A payload that is too large, by its `text`.
  unfoldable pub shorten : Fields → ℕ → Option Value → Fields
  shorten payload cap_bytes (some (str s)) =
      or_minimal payload cap_bytes (truncate_text_field payload s cap_bytes)
  shorten payload cap_bytes _ = create_minimal_truncated_payload payload cap_bytes

  unfoldable pub truncate_payload_for_sse : Fields → Option ℕ → Fields
  truncate_payload_for_sse payload none = payload
  truncate_payload_for_sse payload (some cap_bytes) =
      if leb (dumps_length payload) cap_bytes
      then payload
      else shorten payload cap_bytes (get (codes "text") payload)
