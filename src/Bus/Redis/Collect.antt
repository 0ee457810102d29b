-- ===== src/Bus/Redis/Collect.antt =====
-- About `_collect_after_cursor`, over a stream that stands still.
use magent.Prelude.{
  ℕ, zero, suc, ◌+◌, ◌-◌, ◌<◌, ◌≤◌, ◌≡◌, refl, sym, ◌∙◌, inl, inr, Option, some, List, [], ◌∷◌,
  ◌++◌, map, append_assoc, append-nil, arith, ltb-true, ltb-false, ℕ-cases, take_nil, Text, length,
  take, drop, length-append, length-take, length-map, take-append-drop,
}
use magent.Json.{Value}
use magent.Bus.{BusMessage}
use magent.Bus.Redis.{
  Entry, StreamClient, IsStream, last_id_of, to_bus_message, collect_chunk, collect_after_cursor,
}

-- Past the entries that a first `take` found, a second one for the missing number finds nothing.
pub take_missing {ℓ} :
    {A : Type ℓ} (k : ℕ) (xs : List A) → take (k - length (take k xs)) (drop k xs) ≡ []
take_missing zero xs = refl
take_missing (suc k) [] = take_nil (suc k - 0)
take_missing (suc k) (x ∷ xs) =
    let e : suc k - suc (length (take k xs)) ≡ k - length (take k xs) = omega arith in
    rw e (take_missing k xs)

-- The last entry of a chunk that follows `p`, with what stands before it.
pub split_last :
    (entries before : List Entry) (p : Entry) (xs rest : List Entry)
    → entries ≡ before ++ p ∷ (xs ++ rest)
    → (before' : List Entry) × (l : Entry) × (entries ≡ before' ++ l ∷ rest)
      × (last_id_of p.entry_id xs ≡ l.entry_id)
unfolding last_id_of
split_last entries before p [] rest e = (before, p, e, refl)
split_last entries before p (x ∷ xs) rest e =
    split_last entries (before ++ p ∷ []) x xs rest (e ∙ sym (append_assoc before (p ∷ []) _))

module _ (loads : Text → Option Value) (client : StreamClient) (topic : Text) where
  abbrev pub messages_of : List Entry → List BusMessage
  messages_of es = map (to_bus_message loads topic) es

  collect_chunk_lem :
      (limit : ℕ) (ms : List BusMessage) (next_id : Text) (chunk : List Entry)
      → length ms + length chunk ≤ limit
      → collect_chunk loads client topic limit ms next_id chunk
        ≡ (ms ++ messages_of chunk, last_id_of next_id chunk)
  unfolding collect_chunk last_id_of
  collect_chunk_lem limit ms next_id [] h = cc (append-nil ms)
  collect_chunk_lem limit ms next_id (e ∷ []) h = ground arith
  collect_chunk_lem limit ms next_id (e ∷ e' ∷ chunk) h =
      let m = to_bus_message loads topic e in
      ground (
        arith,
        length-append ms (m ∷ []),
        collect_chunk_lem limit (ms ++ m ∷ []) e.entry_id (e' ∷ chunk),
        append_assoc ms (m ∷ []) (messages_of (e' ∷ chunk)),
      )

  -- How many messages there are after a round, and how many are still wanted.
  counted_after :
      (limit k : ℕ) (ms : List BusMessage) (p : Entry) (post : List Entry)
      → limit - length ms ≡ suc k
      → ((length ms < length (ms ++ messages_of (p ∷ take k post)))
          × (length (ms ++ messages_of (p ∷ take k post)) ≤ limit))
        × (limit - length (ms ++ messages_of (p ∷ take k post)) ≡ k - length (take k post))
  counted_after limit k ms p post room =
      let same = length-append ms (messages_of (p ∷ take k post)) in
      let many = length-map (take k post) (to_bus_message loads topic) in
      let most = length-take k post in (omega arith, omega arith)

  module _ {entries : List Entry} (stream : IsStream client topic entries) where
    -- One round with room for `k + 1` more messages.
    collect_round :
        (fuel limit k : ℕ) (ms : List BusMessage) (before : List Entry) (e p : Entry)
        (post : List Entry)
        → entries ≡ before ++ e ∷ p ∷ post
        → limit - length ms ≡ suc k
        → collect_after_cursor loads client topic (suc fuel) limit ms e.entry_id
          ≡ collect_after_cursor loads client topic fuel limit
              (ms ++ messages_of (p ∷ take k post))
              (last_id_of p.entry_id (take k post))
    unfolding collect_after_cursor last_id_of
    collect_round fuel limit k ms before e p post h room =
        rw
          (
            ltb-true (length ms) limit (omega arith),
            room,
            stream.after before e (p ∷ post) (suc k) h (omega arith),
            collect_chunk_lem limit ms e.entry_id (p ∷ take k post)
                (omega (arith, length-take k post)),
          )
          refl

    collect_full :
        (fuel limit : ℕ) (ms : List BusMessage) (next_id : Text)
        → limit ≤ length ms
        → collect_after_cursor loads client topic (suc fuel) limit ms next_id ≡ some (ms ++ [])
    unfolding collect_after_cursor
    collect_full fuel limit ms next_id full =
        rw (ltb-false (length ms) limit full, append-nil ms) refl

    collect_end :
        (fuel limit k : ℕ) (ms : List BusMessage) (before : List Entry) (e : Entry)
        → entries ≡ before ++ e ∷ []
        → limit - length ms ≡ suc k
        → collect_after_cursor loads client topic (suc fuel) limit ms e.entry_id ≡ some (ms ++ [])
    unfolding collect_after_cursor
    collect_end fuel limit k ms before e h room =
        rw
          (
            ltb-true (length ms) limit (omega arith),
            room,
            stream.after before e [] (suc k) h (omega arith),
            append-nil ms,
          )
          refl

    collect_lem :
        (fuel limit : ℕ) (ms : List BusMessage) (before : List Entry) (e : Entry)
        (post : List Entry)
        → entries ≡ before ++ e ∷ post
        → length ms ≤ limit
        → limit < fuel + length ms
        → collect_after_cursor loads client topic fuel limit ms e.entry_id
          ≡ some (ms ++ messages_of (take (limit - length ms) post))
    collect_lem zero limit ms before e post h fits enough = absurd (omega arith)
    collect_lem (suc fuel) limit ms before e [] h fits enough = elim (ℕ-cases (limit - length ms)) [
      | inl full ↦ rw full (collect_full fuel limit ms e.entry_id (omega arith))
      | inr (k, more) ↦ rw more (collect_end fuel limit k ms before e h more)
    ]
    collect_lem (suc fuel) limit ms before e (p ∷ post) h fits enough =
        elim (ℕ-cases (limit - length ms)) [
          | inl full ↦ rw full (collect_full fuel limit ms e.entry_id (omega arith))
          | inr (k, more) ↦
              let ms' = ms ++ messages_of (p ∷ take k post) in
              let counted = counted_after limit k ms p post more in
              let (before', l, split, last) =
                split_last entries (before ++ e ∷ []) p (take k post) (drop k post)
                  (rw (take-append-drop k post, append_assoc before (e ∷ []) (p ∷ post)) h) in
              let ih =
                collect_lem fuel limit ms' before' l (drop k post) split (omega (arith, counted.0))
                  (omega (arith, counted.0)) in
              let none_left : messages_of (take (limit - length ms') (drop k post)) ≡ [] =
                rw (counted.1, take_missing k post) refl in
              rw more (
                collect_round fuel limit k ms before e p post h more
                ∙ rw (last, ih, none_left, append-nil ms') refl)
        ]

    pub collect_after_cursor_lem :
        (fuel limit : ℕ) (before : List Entry) (e : Entry) (post : List Entry)
        → entries ≡ before ++ e ∷ post
        → limit < fuel
        → collect_after_cursor loads client topic fuel limit [] e.entry_id
          ≡ some (messages_of (take limit post))
    collect_after_cursor_lem fuel limit before e post h enough =
        let same : limit - 0 ≡ limit = omega arith in
        rw same at (collect_lem fuel limit [] before e post h (omega arith) (omega arith))
