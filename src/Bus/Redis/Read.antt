-- ===== src/Bus/Redis/Read.antt =====
-- What a read without a consumer group returns, and how a reader resumes with the id of the last
-- message that it has.
use magent.Prelude.{
  ℕ, ◌+◌, ◌*◌, ◌<◌, max, ◌≡◌, refl, sym, ap, ◌∙◌, ◌⊎◌, inl, inr, Option, none, some, List, [], ◌∷◌,
  ◌++◌, map, reverse, append_assoc, append-nil, arith, Bool, true, false, Text, length, take, drop,
  All, length-take, length-reverse, min, take-append-drop, take-add,
}
use mathlib.Core.List.{map-append, reverse-append, reverse-reverse}
use magent.Json.{Value}
use magent.Bus.{BusMessage}
use magent.Bus.Redis.{
  Entry, StreamClient, IsStream, bus_id, holds_uuid, to_bus_message, is_entry_id,
  read_without_group,
}
use magent.Bus.Redis.Collect.{messages_of, collect_after_cursor_lem}
use magent.Bus.Redis.Scan.{find_uuid_first, find_uuid-absent, scan_for_uuid-eq-find}

-- The cursor stands for the entry `e` behind `before`: it is the id of the entry, or a uuid that `e`
-- is the first to hold.
abbrev pub Names : (ℕ → Bool) → Text → List Entry → Entry → Type 0
Names digit cursor before e =
    ((is_entry_id digit cursor ≡ true) × (cursor ≡ e.entry_id))
    ⊎ ((is_entry_id digit cursor ≡ false)
        × (All (λ x. holds_uuid cursor x ≡ false) before × (holds_uuid cursor e ≡ true)))

-- The id of every message stands for its entry.
abbrev pub IsAddressed : (ℕ → Bool) → List Entry → List Entry → Type 0
IsAddressed digit before [] = Unit
IsAddressed digit before (e ∷ rest) =
    Names digit (bus_id e) before e × IsAddressed digit (before ++ e ∷ []) rest

IsAddressed-at :
    (digit : ℕ → Bool) (before xs : List Entry) (l : Entry) (rest : List Entry)
    → IsAddressed digit before (xs ++ l ∷ rest)
    → Names digit (bus_id l) (before ++ xs) l
IsAddressed-at digit before [] l rest h = rw (append-nil before) h.0
IsAddressed-at digit before (x ∷ xs) l rest h =
    rw append_assoc at (IsAddressed-at digit (before ++ x ∷ []) xs l rest h.1)

map-eq-snoc {ℓ κ} :
    {A : Type ℓ} {B : Type κ} (f : A → B) (xs : List A) (ys : List B) (y : B)
    → map f xs ≡ ys ++ y ∷ []
    → (init : List A) × (l : A) × (xs ≡ init ++ l ∷ []) × (f l ≡ y)
map-eq-snoc f [] [] y h = cc
map-eq-snoc f [] (z ∷ ys) y h = cc
map-eq-snoc f (x ∷ []) [] y h = ([], x, refl, cc)
map-eq-snoc f (x ∷ x' ∷ xs) [] y h = cc
map-eq-snoc f (x ∷ xs) (z ∷ ys) y h =
    let (init, l, e, p) = map-eq-snoc f xs ys y (cc) in (x ∷ init, l, ap (λ t. x ∷ t) e, p)

regroup :
    (before : List Entry) (e : Entry) (init : List Entry) (l : Entry) (more rest : List Entry)
    → rest ≡ (init ++ l ∷ []) ++ more
    → before ++ e ∷ rest ≡ (before ++ e ∷ init) ++ l ∷ more
regroup before e init l more rest h =
    rw (h, append_assoc init (l ∷ []) more, append_assoc before (e ∷ init) (l ∷ more)) refl

id_lem :
    (loads : Text → Option Value) (client : StreamClient) (topic : Text) (e : Entry)
    → (to_bus_message loads topic e).id ≡ bus_id e
unfolding to_bus_message
id_lem loads client topic e = refl

module _ (loads : Text → Option Value) (client : StreamClient) (topic : Text)
    (digit : ℕ → Bool) where
  abbrev read : ℕ → Option Text → ℕ → Option (List BusMessage)
  read fuel last_id limit = read_without_group loads client topic digit fuel last_id limit

  module _ {entries : List Entry} (stream : IsStream client topic entries) where
    -- A read from a cursor that names an entry, by its entry id or by a uuid that no earlier entry
    -- holds, returns the messages of the entries behind it, in order, up to the limit; fuel above
    -- the limit and the stream's length is enough.
    pub read_after :
        (fuel limit : ℕ) (cursor : Text) (before : List Entry) (e : Entry) (rest : List Entry)
        → entries ≡ before ++ e ∷ rest
        → Names digit cursor before e
        → limit < fuel
        → length entries < fuel
        → read fuel (some cursor) limit ≡ some (messages_of loads client topic (take limit rest))
    unfolding read_without_group
    read_after fuel limit cursor before e rest split (inl (seeks, same)) room enough =
        rw (seeks, same)
          (collect_after_cursor_lem loads client topic stream fuel limit before e rest split room)
    read_after fuel limit cursor before e rest split (inr (scans, (no_one, here))) room enough =
        rw
          (
            scans,
            scan_for_uuid-eq-find loads client topic stream fuel cursor (max (limit * 2) 100)
                (omega arith) enough,
            split,
            find_uuid_first cursor before e rest no_one here,
          )
          (collect_after_cursor_lem loads client topic stream fuel limit before e rest split room)

    -- A read from a uuid that no entry of the stream holds returns no messages, with fuel above the
    -- stream's length.
    pub read_unknown :
        (fuel limit : ℕ) (cursor : Text)
        → is_entry_id digit cursor ≡ false
        → All (λ x. holds_uuid cursor x ≡ false) entries
        → length entries < fuel
        → read fuel (some cursor) limit ≡ some []
    unfolding read_without_group
    read_unknown fuel limit cursor scans absent enough =
        rw
          (
            scans,
            scan_for_uuid-eq-find loads client topic stream fuel cursor (max (limit * 2) 100)
                (omega arith) enough,
            find_uuid-absent cursor entries absent,
          )
          refl

    -- A read without a cursor and with a positive limit returns the messages of the newest entries
    -- in the stream's order, as many as the limit allows and the stream has.
    pub read_tail :
        (fuel limit : ℕ)
        → 0 < limit
        → (older : List Entry) × (newest : List Entry) × (entries ≡ older ++ newest)
          × (length newest ≡ min limit (length entries))
          × (read fuel none limit ≡ some (messages_of loads client topic newest))
    unfolding read_without_group
    read_tail fuel limit pos =
        let back = reverse entries in
        (
          reverse (drop limit back),
          reverse (take limit back),
          sym (reverse-reverse entries)
              ∙ ap reverse (sym (take-append-drop limit back))
              ∙ reverse-append (take limit back) (drop limit back),
          omega (
            arith,
            length-reverse (take limit back),
            length-take limit back,
            length-reverse entries,
          ),
          rw (stream.from_end limit pos) refl,
        )

    -- Two reads in a row are one: after a page of up to `a` messages that is not empty, a read of up
    -- to `b` from the id of its last message succeeds, and the two pages together are the messages
    -- of the next `a + b` entries. The first cursor names an entry of the stream, every message id
    -- names its own entry, and the fuel exceeds `a`, `b` and the stream's length.
    pub read_resume :
        (fuel a b : ℕ) (cursor : Text) (before : List Entry) (e : Entry) (rest : List Entry)
        (ms : List BusMessage) (m : BusMessage)
        → entries ≡ before ++ e ∷ rest
        → IsAddressed digit [] entries
        → Names digit cursor before e
        → a < fuel
        → b < fuel
        → length entries < fuel
        → read fuel (some cursor) a ≡ some (ms ++ m ∷ [])
        → (ms' : List BusMessage) × (read fuel (some m.id) b ≡ some ms')
          × ((ms ++ m ∷ []) ++ ms' ≡ messages_of loads client topic (take (a + b) rest))
    read_resume fuel a b cursor before e rest ms m split addressed names room_a room_b enough page =
        let same : messages_of loads client topic (take a rest) ≡ ms ++ m ∷ [] =
          cc (read_after fuel a cursor before e rest split names room_a enough, page) in
        let (init, l, taken, is_last) =
          map-eq-snoc (to_bus_message loads topic) (take a rest) ms m same in
        let further : entries ≡ (before ++ e ∷ init) ++ l ∷ drop a rest =
          split
          ∙ regroup before e init l (drop a rest) rest
              (rw taken at (sym (take-append-drop a rest))) in
        let addressed' : IsAddressed digit [] ((before ++ e ∷ init) ++ l ∷ drop a rest) =
          rw further at addressed in
        let same_id : m.id ≡ bus_id l =
          sym (ap (λ (x : BusMessage). x.id) is_last) ∙ id_lem loads client topic l in
        let next =
          read_after fuel b (bus_id l) (before ++ e ∷ init) l (drop a rest) further
            (IsAddressed-at digit [] (before ++ e ∷ init) l (drop a rest) addressed') room_b
            enough in
        (
          messages_of loads client topic (take b (drop a rest)),
          rw same_id next,
          rw
              (
                take-add a b rest,
                map-append (to_bus_message loads topic) (take a rest) (take b (drop a rest)),
                same,
              )
              refl,
        )
