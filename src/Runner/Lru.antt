-- ===== src/Runner/Lru.antt =====
-- What `_get_session` keeps after any history of calls: the sessions of the conversations that were
-- used last.
use magent.Prelude.{
  ℕ, zero, suc, ◌-◌, ◌≤◌, max, ◌≡◌, refl, sym, ap, ◌∙◌, true, false, Option, none, some, is_some,
  List, [], ◌∷◌, ◌++◌, reverse, length, take, arith, length-take, length-append, length-reverse,
  take_all, Text, same_text_refl, has_text, discard, IsDistinct, lookup, insert, ltb,
}
use mathlib.Core.List.{reverse-append}
use native.Mathlib.Decide.{dec_le}
use magent.Runner.Sessions.{
  Setup, Sessions, remove_first, try_create_sqlite_session, drop_oldest, evict, add_session,
  find_or_add, get_session,
}
use magent.Runner.Held.{NoRepeat, Agrees, drop_oldest-Agrees, touch-Agrees, insert-Agrees}
use magent.Runner.Recent.{
  has_text-discard, discard_absent, discard-IsDistinct, remove_first_distinct, take-discard,
  discard-take, has_text-take, discard-reverse, has_text-reverse, reverse-IsDistinct,
  take-IsDistinct,
}

-- The conversations of a history, newest call first, each at its newest place.
unfoldable pub recent : List Text → List Text
recent [] = []
recent (c ∷ history) = c ∷ discard c (recent history)

reverse_oldest :
    (n : ℕ) (xs : List Text)
    → length xs ≡ suc n
    → (e : Text) × (reverse xs ≡ e ∷ reverse (take n xs))
reverse_oldest zero (x ∷ []) h = (x, refl)
reverse_oldest zero (x ∷ y ∷ xs) h = let bad : ⊥ = omega arith in absurd bad
reverse_oldest (suc n) (x ∷ xs) h =
    let (e, r) = reverse_oldest n xs (omega arith) in
    (e, rw (reverse-append (x ∷ []) xs, reverse-append (x ∷ []) (take n xs), r) refl)
reverse_oldest n [] h = let bad : ⊥ = omega arith in absurd bad

recent-IsDistinct : (history : List Text) → IsDistinct (recent history)
unfolding recent
recent-IsDistinct [] = tt
recent-IsDistinct (c ∷ history) = (
  has_text-discard c c (recent history) ∙ rw (same_text_refl c) refl,
  discard-IsDistinct c (recent history) (recent-IsDistinct history),
)

take-take : (n : ℕ) (xs : List Text) → take n (take (suc n) xs) ≡ take n xs
take-take zero xs = refl
take-take (suc n) [] = refl
take-take (suc n) (x ∷ xs) = ap (λ t. x ∷ t) (take-take n xs)

reverse_cons : (c : Text) (xs : List Text) → reverse (c ∷ xs) ≡ reverse xs ++ c ∷ []
reverse_cons c xs = reverse-append (c ∷ []) xs

recent_step :
    (n : ℕ) (c : Text) (history : List Text)
    → reverse (take (suc n) (c ∷ discard c (recent history)))
      ≡ reverse (take (suc n) (recent (c ∷ history)))
unfolding recent
recent_step n c history = refl

-- A conversation that is held moves to the end.
order_hit :
    (c : Text) (n : ℕ) (xs : List Text)
    → IsDistinct xs
    → has_text c (take (suc n) xs) ≡ true
    → remove_first c (reverse (take (suc n) xs)) ++ c ∷ []
      ≡ reverse (take (suc n) (c ∷ discard c xs))
order_hit c n xs d there =
    rw
      (
        remove_first_distinct c (reverse (take (suc n) xs))
            (reverse-IsDistinct (take (suc n) xs) (take-IsDistinct (suc n) xs d)),
        discard-reverse c (take (suc n) xs),
        discard-take c n xs d there,
        reverse_cons c (take n (discard c xs)),
      )
      refl

-- The calls of `history`, the newest first, over a start state.
module _ {S W : Type 0} (setup : Setup S W) where
  unfoldable pub serve_all : List Text → Sessions S W → Sessions S W
  serve_all [] s = s
  serve_all (c ∷ history) s = (get_session setup c (serve_all history s)).1

  abbrev Ordered : ℕ → List Text → Sessions S W → Type 0
  Ordered n history s = s.session_order ≡ reverse (take (suc n) (recent history))

  evict_full :
      (n : ℕ) (e : Text) (order : List Text) (t : Sessions S W)
      → max 1 setup.session_limit ≡ suc n
      → Agrees t
      → t.session_order ≡ e ∷ order
      → length order ≡ suc n
      → Agrees (evict setup t) × ((evict setup t).session_order ≡ order)
  unfolding evict drop_oldest
  evict_full n e order t limit a eq size =
      let over : ltb (max 1 setup.session_limit) (length t.sessions) ≡ true =
        ground (arith, limit, size, a.size, ap length eq) in
      rw (over, eq) (drop_oldest-Agrees e order t eq a, refl)

  evict_room :
      (n : ℕ) (t : Sessions S W)
      → max 1 setup.session_limit ≡ suc n
      → length t.sessions ≤ suc n
      → evict setup t ≡ t
  unfolding evict
  evict_room n t limit room =
      let under : ltb (max 1 setup.session_limit) (length t.sessions) ≡ false =
        ground (arith, limit, room) in
      rw under refl

  absent_recent :
      (n : ℕ) (c : Text) (history : List Text) (s : Sessions S W)
      → Agrees s
      → Ordered n history s
      → is_some (lookup c s.sessions) ≡ false
      → has_text c (take (suc n) (recent history)) ≡ false
  absent_recent n c history s a order absent =
      sym (has_text-reverse c (take (suc n) (recent history)))
      ∙ ap (has_text c) (sym order)
      ∙ sym (a.held c)
      ∙ absent

  miss_step :
      (n : ℕ) (c : Text) (history : List Text) (made : Option S × W) (s : Sessions S W)
      → max 1 setup.session_limit ≡ suc n
      → Agrees s
      → Ordered n history s
      → is_some (lookup c s.sessions) ≡ false
      → Agrees (add_session setup c made s).1
        × Ordered n (c ∷ history) (add_session setup c made s).1
  unfolding add_session recent
  miss_step n c history (session, w) s limit a order absent =
      let d : List Text = recent history in
      let gone : has_text c (take (suc n) d) ≡ false = absent_recent n c history s a order absent in
      let gone' : has_text c (take n d) ≡ false =
        ap (has_text c) (sym (take-take n d)) ∙ has_text-take c n (take (suc n) d) gone in
      let t : Sessions S W = record {
        world = w;
        sessions = insert c session s.sessions;
        session_order = s.session_order ++ c ∷ [];
      } in
      let ta : Agrees t = insert-Agrees c session w s a absent in
      let size : length s.session_order ≡ length (take (suc n) d) =
        ap length order ∙ length-reverse (take (suc n) d) in
      elim (dec_le (length d) n) [
        | yes few ↦
            let whole : take (suc n) d ≡ d = take_all (suc n) d (omega arith) in
            let absent' : has_text c d ≡ false = ap (has_text c) (sym whole) ∙ gone in
            let room : length t.sessions ≤ suc n =
              omega
                (arith, ta.size, length-append s.session_order (c ∷ []), size, ap length whole) in
            rw (evict_room n t limit room) (
              ta,
              rw (order, whole, discard_absent c d absent', take_all n d few)
                  (sym (reverse_cons c d)),
            )
        | no many ↦
            let full : length (take (suc n) d) ≡ suc n = omega (arith, length-take (suc n) d) in
            let (e, first) = reverse_oldest n (take (suc n) d) full in
            let eq : t.session_order ≡ e ∷ (reverse (take n d) ++ c ∷ []) =
              ap (λ o. o ++ c ∷ []) (order ∙ first ∙ ap (λ o. e ∷ reverse o) (take-take n d)) in
            let (kept, rest) =
              evict_full n e (reverse (take n d) ++ c ∷ []) t limit ta eq
                (omega (arith, ap length eq, length-append s.session_order (c ∷ []), size, full)) in
            (kept, rest ∙ rw (take-discard c n d gone') (sym (reverse_cons c (take n d))))
      ]

  call_step :
      (n : ℕ) (c : Text) (history : List Text) (found : Option (Option S)) (s : Sessions S W)
      → max 1 setup.session_limit ≡ suc n
      → Agrees s
      → Ordered n history s
      → lookup c s.sessions ≡ found
      → Agrees (find_or_add setup c found s).1
        × Ordered n (c ∷ history) (find_or_add setup c found s).1
  unfolding find_or_add
  call_step n c history none s limit a order e =
      miss_step n c history (try_create_sqlite_session setup c s.world) s limit a order
        (ap is_some e)
  call_step n c history (some session) s limit a order e =
      let there : has_text c (take (suc n) (recent history)) ≡ true =
        sym (has_text-reverse c (take (suc n) (recent history)))
        ∙ ap (has_text c) (sym order)
        ∙ sym (a.held c)
        ∙ ap is_some e in
      (
        touch-Agrees c s a (ap is_some e),
        ap (λ o. remove_first c o ++ c ∷ []) order
            ∙ order_hit c n (recent history) (recent-IsDistinct history) there
            ∙ recent_step n c history,
      )

  serve_all_step :
      (n : ℕ) (history : List Text) (s : Sessions S W)
      → max 1 setup.session_limit ≡ suc n
      → s.sessions ≡ []
      → s.session_order ≡ []
      → Agrees (serve_all history s) × Ordered n history (serve_all history s)
  unfolding serve_all get_session has_text lookup NoRepeat recent
  serve_all_step n [] s limit no_sessions no_order = (
    record {
      held = λ c. rw (no_sessions, no_order) refl;
      size = rw (no_sessions, no_order) refl;
      norepeat = rw no_sessions tt;
      distinct = rw no_order tt;
    },
    no_order,
  )
  serve_all_step n (c ∷ history) s limit no_sessions no_order =
      let (a, order) = serve_all_step n history s limit no_sessions no_order in
      let t : Sessions S W = serve_all history s in
      call_step n c history (lookup c t.sessions) t limit a order refl

  -- After any history of calls from an empty cache, the order of the sessions is that of the
  -- conversations last used, oldest first, each at its last use and as many as the limit allows (at
  -- least one); the dict has a session for exactly those conversations, and as many entries.
  pub sessions_recent :
      (history : List Text) (s : Sessions S W)
      → s.sessions ≡ []
      → s.session_order ≡ []
      → ((serve_all history s).session_order
          ≡ reverse (take (max 1 setup.session_limit) (recent history)))
        × ((c : Text)
            → is_some (lookup c (serve_all history s).sessions)
              ≡ has_text c (serve_all history s).session_order)
        × (length (serve_all history s).sessions ≡ length (serve_all history s).session_order)
  sessions_recent history s no_sessions no_order =
      let n : ℕ = max 1 setup.session_limit - 1 in
      let limit : max 1 setup.session_limit ≡ suc n = omega arith in
      let (a, order) = serve_all_step n history s limit no_sessions no_order in
      (rw limit order, a.held, a.size)
