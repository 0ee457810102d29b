-- ===== src/Bus/Redis.antt =====
-- magent2/bus/redis_adapter.py: reads of a Redis stream without a consumer group.
-- The Redis client is not part of the repository: its commands are a parameter, and so are
-- `json.loads` and the interpreter's table of `str.isdigit`. A read makes its commands against a
-- stream that stands still. The warning and the metric on a malformed payload are left out.
pub mod Collect
pub mod Scan
pub mod Read
use magent.Prelude.{
  ℕ, zero, suc, ◌+◌, ◌-◌, ◌*◌, ◌<◌, ◌≤◌, max, ◌≡◌, refl, Bool, true, false, ◌&&◌, not, Option, none,
  some, List, [], ◌∷◌, ◌++◌, map, reverse, if◌then◌else◌, ltb, leb, Text, codes, same_text,
  is_empty, all, length, take, is_nil, is_some, before_sep, after_sep, has_char, Dict, lookup,
}
use magent.Json.{Value, obj, end}
use magent.Bus.{BusMessage}

pub record Entry : Type 0 where
  pub entry_id : Text
  pub data_fields : Dict Text

-- The two commands that a read without a group makes: XRANGE topic start + COUNT n, and
-- XREVRANGE topic + - COUNT n.
pub record StreamClient : Type 0 where
  pub xrange : (topic start : Text) → (count : ℕ) → List Entry
  pub xrevrange : (topic : Text) → (count : ℕ) → List Entry

-- f"({cursor}": strictly after the cursor.
abbrev pub exclusive : Text → Text
exclusive cursor = b'(' ∷ cursor

-- What Redis documents of the two commands, for a stream that holds `entries` in order.
pub record IsStream (c : StreamClient) (topic : Text) (entries : List Entry) : Type 0 where
  pub from_start : (n : ℕ) → 0 < n → c.xrange topic (codes "-") n ≡ take n entries
  pub after :
      (before : List Entry) (e : Entry) (rest : List Entry) (n : ℕ)
      → entries ≡ before ++ e ∷ rest
      → 0 < n
      → c.xrange topic (exclusive e.entry_id) n ≡ take n rest
  pub from_end : (n : ℕ) → 0 < n → c.xrevrange topic n ≡ take n (reverse entries)

-- data.get("id") == last_uuid
unfoldable pub holds_uuid : Text → Entry → Bool
holds_uuid last_uuid e = elim (lookup (codes "id") e.data_fields) [
  | none ↦ false
  | some id ↦ same_text id last_uuid
]

-- The `for` loop over a chunk of the scan.
unfoldable pub find_uuid : Text → List Entry → Option Text
unfolding holds_uuid
find_uuid last_uuid [] = none
find_uuid last_uuid (e ∷ chunk) =
    if holds_uuid last_uuid e then some e.entry_id else find_uuid last_uuid chunk

-- The id of the last entry of a chunk that follows the entry with id `cursor`.
unfoldable pub last_id_of : Text → List Entry → Text
last_id_of cursor [] = cursor
last_id_of cursor (e ∷ chunk) = last_id_of e.entry_id chunk

-- data.get("id") or entry_id
unfoldable pub bus_id : Entry → Text
bus_id e = elim (lookup (codes "id") e.data_fields) [
  | none ↦ e.entry_id
  | some id ↦ if is_empty id then e.entry_id else id
]

-- Redis stream ids are of the form '<milliseconds>-<sequence>'.
unfoldable pub is_entry_id : (ℕ → Bool) → Text → Bool
unfolding has_char before_sep after_sep
is_entry_id digit value =
    let left = before_sep b'-' value in
    let right = after_sep b'-' value in
    has_char b'-' value
    && (not (is_empty left) && all digit left)
    && (not (is_empty right) && all digit right)

-- A payload that is missing reads as "{}", and one that does not parse as an empty dict.
unfoldable pub to_bus_message : (Text → Option Value) → Text → Entry → BusMessage
unfolding bus_id
to_bus_message loads topic e =
    let raw : Text = elim (lookup (codes "payload") e.data_fields) [
      | none ↦ codes "{}"
      | some p ↦ p
    ] in
    record {
      topic = topic;
      payload = elim (loads raw) [ none ↦ obj end | some v ↦ v ];
      id = bus_id e;
    }

-- An outcome of a loop that is bounded by fuel: `none` is that the fuel ran out.
module _ (loads : Text → Option Value) (client : StreamClient) (topic : Text) where
  -- The inner loop over a chunk: it stops when the limit is reached.
  unfoldable pub collect_chunk : ℕ → List BusMessage → Text → List Entry → List BusMessage × Text
  unfolding to_bus_message
  collect_chunk limit messages next_id [] = (messages, next_id)
  collect_chunk limit messages next_id (e ∷ chunk) =
      let messages' = messages ++ to_bus_message loads topic e ∷ [] in
      let rest = collect_chunk limit messages' e.entry_id chunk in
      if leb limit (length messages') then (messages', e.entry_id) else rest

  unfoldable pub collect_after_cursor :
      (fuel limit : ℕ) → List BusMessage → Text → Option (List BusMessage)
  unfolding collect_chunk
  collect_after_cursor zero limit messages next_id = none
  collect_after_cursor (suc fuel) limit messages next_id =
      let chunk = client.xrange topic (exclusive next_id) (limit - length messages) in
      let (messages', next_id') = collect_chunk limit messages next_id chunk in
      let rest = collect_after_cursor fuel limit messages' next_id' in
      let round = if is_nil chunk then some messages else rest in
      if ltb (length messages) limit then round else some messages

  -- The inner option is the result: the entry id, or `None` where no entry has the uuid.
  unfoldable pub scan_from :
      (fuel : ℕ) (start last_uuid : Text) (chunk_size : ℕ) → Option (Option Text)
  scan_from zero start last_uuid chunk_size = none
  scan_from (suc fuel) start last_uuid chunk_size =
      let chunk = client.xrange topic start chunk_size in
      let rest = scan_from fuel (exclusive (last_id_of [] chunk)) last_uuid chunk_size in
      let found = find_uuid last_uuid chunk in
      let next = if is_some found then some found else rest in
      if is_nil chunk then some none else next

  unfoldable pub scan_for_uuid :
      (fuel : ℕ) (last_uuid : Text) (chunk_size : ℕ) → Option (Option Text)
  scan_for_uuid fuel last_uuid chunk_size = scan_from fuel (codes "-") last_uuid chunk_size

  unfoldable pub tail_messages : ℕ → List BusMessage
  unfolding to_bus_message
  tail_messages limit = map (to_bus_message loads topic) (reverse (client.xrevrange topic limit))

  module _ (digit : ℕ → Bool) where
    unfoldable pub read_without_group : (fuel : ℕ) → Option Text → ℕ → Option (List BusMessage)
    unfolding tail_messages is_entry_id collect_after_cursor scan_for_uuid
    read_without_group fuel none limit = some (tail_messages limit)
    read_without_group fuel (some last_id) limit =
        if is_entry_id digit last_id
        then collect_after_cursor fuel limit [] last_id
        else elim (scan_for_uuid fuel last_id (max (limit * 2) 100)) [
          | none ↦ none
          | some none ↦ some []
          | some (some cursor_id) ↦ collect_after_cursor fuel limit [] cursor_id
        ]
