-- ===== src/Bus/Checks.antt =====
-- The bus over a stream of two entries: the theorems at concrete reads.
use magent.Prelude.{
  All, ℕ, suc, ◌+◌, ◌<◌, ◌≡◌, refl, subst, inr, arith, Bool, false, ◌&&◌, Option, none, some, List,
  [], ◌∷◌, ◌++◌, map, reverse, if◌then◌else◌, leb, Text, codes, same_text, take, length, min,
  has_char, before_sep, after_sep, lookup, contains,
}
use magent.Prelude.Exec.{Exception, return, raise, other_error}
use magent.Json.{Value, str}
use magent.Bus.{BusMessage}
use magent.Bus.Topics.{Addressed, publish_topics_lem}
use magent.Bus.Redis.{
  Entry, StreamClient, IsStream, exclusive, bus_id, holds_uuid, to_bus_message, is_entry_id,
  read_without_group,
}
use magent.Bus.Redis.Collect.{messages_of}
use magent.Bus.Redis.Read.{Names, IsAddressed, read_after, read_unknown, read_tail, read_resume}
use magent.Bus.Group.{GroupClient, Conn, first_items, read_with_group, read_blocking_with_group}
use magent.Bus.Group.Delivery.{Tolerated, read_with_group_delivers}

abbrev entry : Text → Text → Entry
entry id uuid = record { entry_id = id; data_fields = (codes "id", uuid) ∷ [] }

abbrev first : Entry
first = entry (codes "1-0") (codes "u1")

abbrev second : Entry
second = entry (codes "2-0") (codes "u2")

abbrev entries : List Entry
entries = first ∷ second ∷ []

abbrev after_id : Text → List Entry → List Entry
after_id id [] = []
after_id id (e ∷ es) = if same_text id (exclusive e.entry_id) then es else after_id id es

abbrev client : StreamClient
client = record {
  xrange = λ topic start n.
      take n (if same_text start (codes "-") then entries else after_id start entries);
  xrevrange = λ topic n. take n (reverse entries);
}

abbrev pair : Entry → List Entry → Entry × List Entry
pair e rest = (e, rest)

after_lem :
    (before : List Entry) (e : Entry) (rest : List Entry) (n : ℕ)
    → entries ≡ before ++ e ∷ rest
    → 0 < n
    → client.xrange (codes "t") (exclusive e.entry_id) n ≡ take n rest
unfolding same_text
after_lem [] e rest n h pos =
    let same : pair first (second ∷ []) ≡ pair e rest = cc in
    subst (λ p. client.xrange (codes "t") (exclusive p.0.entry_id) n ≡ take n p.1) same refl
after_lem (x ∷ []) e rest n h pos =
    let same : pair second [] ≡ pair e rest = cc in
    subst (λ p. client.xrange (codes "t") (exclusive p.0.entry_id) n ≡ take n p.1) same refl
after_lem (x ∷ y ∷ []) e rest n h pos = cc
after_lem (x ∷ y ∷ z ∷ before) e rest n h pos = cc

client-IsStream : IsStream client (codes "t") entries
unfolding same_text
client-IsStream = record { from_start = λ n pos. refl; after = after_lem; from_end = λ n pos. refl }

abbrev digit : ℕ → Bool
digit c = leb 48 c && leb c 57

abbrev loads : Text → Option Value
loads s = some (str s)

first-Names : Names digit (codes "u1") [] first
unfolding is_entry_id has_char before_sep after_sep holds_uuid lookup same_text
first-Names = inr (refl, (tt, refl))

entries-IsAddressed : IsAddressed digit [] entries
unfolding is_entry_id has_char before_sep after_sep holds_uuid bus_id lookup same_text
entries-IsAddressed = (inr (refl, (tt, refl)), (inr (refl, ((refl, tt), refl)), tt))

scans_u9 : is_entry_id digit (codes "u9") ≡ false
unfolding is_entry_id has_char before_sep after_sep
scans_u9 = refl

absent_u9 : All (λ e. holds_uuid (codes "u9") e ≡ false) entries
unfolding holds_uuid lookup same_text
absent_u9 = (refl, (refl, tt))

abbrev page : List Entry → List BusMessage
page = messages_of loads client (codes "t")

abbrev read : ℕ → Option Text → ℕ → Option (List BusMessage)
read = read_without_group loads client (codes "t") digit

first_page :
    read 3 (some (codes "u1")) 1 ≡ some ([] ++ to_bus_message loads (codes "t") second ∷ [])
first_page =
    read_after loads client (codes "t") digit client-IsStream 3 1 (codes "u1") [] first
      (second ∷ []) refl first-Names (omega arith) (omega arith)

read_after_example : read 3 (some (codes "u1")) 1 ≡ some (page (take 1 (second ∷ [])))
read_after_example =
    read_after loads client (codes "t") digit client-IsStream 3 1 (codes "u1") [] first
      (second ∷ []) refl first-Names (omega arith) (omega arith)

read_unknown_example : read 3 (some (codes "u9")) 5 ≡ some []
read_unknown_example =
    read_unknown loads client (codes "t") digit client-IsStream 3 5 (codes "u9") scans_u9 absent_u9
      (omega arith)

read_tail_example :
    (older : List Entry) × (newest : List Entry) × (entries ≡ older ++ newest)
    × (length newest ≡ min 1 (length entries))
    × (read 0 none 1 ≡ some (page newest))
read_tail_example = read_tail loads client (codes "t") digit client-IsStream 0 1 (omega arith)

read_resume_example :
    (ms' : List BusMessage) × (read 3 (some (codes "u2")) 2 ≡ some ms')
    × (([] ++ to_bus_message loads (codes "t") second ∷ []) ++ ms'
        ≡ page (take (1 + 2) (second ∷ [])))
unfolding to_bus_message bus_id lookup same_text
read_resume_example =
    read_resume loads client (codes "t") digit client-IsStream 3 1 2 (codes "u1") [] first
      (second ∷ []) [] (to_bus_message loads (codes "t") second) refl entries-IsAddressed
      first-Names (omega arith) (omega arith) (omega arith) first_page

publish_topics_lem_example : Addressed (codes " agent:Dev ") (codes "c1")
publish_topics_lem_example = publish_topics_lem (codes " agent:Dev ") (codes "c1")

-- A group that is there, over a stream with the two entries; every acknowledgement fails.
abbrev busy : Exception
busy = record { kind = other_error; message = codes "BUSYGROUP taken" }

abbrev group_client : GroupClient ℕ
group_client = record {
  xadd = λ topic values maxlen w. (return tt, w);
  xgroup_create = λ topic group w. (raise busy, w);
  xreadgroup = λ topic group consumer count block w. (return ((topic, entries) ∷ []), suc w);
  xack = λ topic group id w. (raise busy, w);
  xread = λ streams count block w. (return [], w);
}

abbrev conn : Conn ℕ
conn = record { world = 0; metrics = [] }

busy-Tolerated : Tolerated (raise busy)
unfolding contains
busy-Tolerated = refl

read_with_group_delivers_example :
    ((read_with_group group_client loads (some 7) (codes "t") (codes "g") (codes "c") 10 conn).0
      ≡ return (map (to_bus_message loads (codes "t")) (first_items ((codes "t", entries) ∷ []))))
    × ((read_blocking_with_group group_client loads (codes "t") (codes "g") (codes "c") 10 7 conn).0
        ≡ return (map (to_bus_message loads (codes "t")) (first_items ((codes "t", entries) ∷ []))))
read_with_group_delivers_example =
    read_with_group_delivers group_client loads (codes "t") (codes "g") 7 (codes "c") 10 conn
      (raise busy) ((codes "t", entries) ∷ []) 0 1 refl busy-Tolerated refl
