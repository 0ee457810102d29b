-- ===== src/Runner/Held.antt =====
-- The dict of sessions and the deque of their order: what `_get_session` keeps true of both.
use magent.Prelude.{
  length-insert, suc, ◌≡◌, refl, sym, ap, ◌∙◌, subst, Bool, true, false, Option, is_some, List, [],
  ◌∷◌, ◌++◌, length, arith, length-append, Text, same_text, same_text_iff, same_text_refl, has_text,
  discard, IsDistinct, Dict, lookup, insert, lookup-insert, if◌then◌else◌,
}
use magent.Runner.Sessions.{Sessions, remove_first, erase, drop_oldest}
use magent.Runner.Recent.{
  has_text-append, has_text-discard, discard-IsDistinct, remove_first_distinct, append-IsDistinct,
  length-remove_first,
}

unfoldable pub NoRepeat {ℓ} : {V : Type ℓ} → Dict V → Type 0
NoRepeat [] = Unit
NoRepeat ((k, v) ∷ d) = (is_some (lookup k d) ≡ false) × NoRepeat d

module _ {ℓ} {V : Type ℓ} where
  length-erase :
      (k : Text) (d : Dict V) → is_some (lookup k d) ≡ true → suc (length (erase k d)) ≡ length d
  unfolding lookup erase
  length-erase k [] h = ground arith
  length-erase k ((j, w) ∷ d) h = ground (arith, length-erase k d)

  lookup-erase :
      (k j : Text) (d : Dict V)
      → NoRepeat d
      → is_some (lookup j (erase k d)) ≡ (if same_text k j then false else is_some (lookup j d))
  unfolding lookup erase NoRepeat
  lookup-erase k j [] h = ground arith
  lookup-erase k j ((i, w) ∷ d) h =
      ground (
        arith,
        lookup-erase k j d h.1,
        h.0,
        same_text_iff k j,
        same_text_iff i k,
        same_text_iff i j,
      )

  if_either-NoRepeat :
      (b : Bool) (d d' : Dict V)
      → NoRepeat d
      → (b ≡ false → NoRepeat d')
      → NoRepeat (if b then d else d')
  if_either-NoRepeat true d d' h k = h
  if_either-NoRepeat false d d' h k = k refl

  insert-NoRepeat : (k : Text) (v : V) (d : Dict V) → NoRepeat d → NoRepeat (insert k v d)
  unfolding lookup insert NoRepeat
  insert-NoRepeat k v [] h = (refl, tt)
  insert-NoRepeat k v ((j, w) ∷ d) h =
      if_either-NoRepeat (same_text j k) ((j, v) ∷ d) ((j, w) ∷ insert k v d) (h.0, h.1)
        (λ e. (
          ground (arith, lookup-insert k j v d, same_text_iff j k, same_text_iff k j, h.0, e),
          insert-NoRepeat k v d h.1,
        ))

  erase-NoRepeat : (k : Text) (d : Dict V) → NoRepeat d → NoRepeat (erase k d)
  unfolding erase NoRepeat
  erase-NoRepeat k [] h = tt
  erase-NoRepeat k ((j, w) ∷ d) h =
      if_either-NoRepeat (same_text j k) d ((j, w) ∷ erase k d) h.1
        (λ e. (ground (arith, lookup-erase k j d h.1, h.0), erase-NoRepeat k d h.1))

-- The two parts of the cache agree on what it holds.
pub record Agrees {S W : Type 0} (s : Sessions S W) : Type 0 where
  pub held : (c : Text) → is_some (lookup c s.sessions) ≡ has_text c s.session_order
  pub size : length s.sessions ≡ length s.session_order
  pub norepeat : NoRepeat s.sessions
  pub distinct : IsDistinct s.session_order

module _ {S W : Type 0} where
  pub drop_oldest-Agrees :
      (e : Text) (order : List Text) (s : Sessions S W)
      → s.session_order ≡ e ∷ order
      → Agrees s
      → Agrees (drop_oldest (e ∷ order) s)
  unfolding drop_oldest has_text
  drop_oldest-Agrees e order s eq a =
      let apart : IsDistinct (e ∷ order) = subst IsDistinct eq a.distinct in
      let there : is_some (lookup e s.sessions) ≡ true =
        a.held e ∙ ap (has_text e) eq ∙ ground (arith, same_text_refl e) in
      let size : length s.sessions ≡ suc (length order) = a.size ∙ ap length eq in
      record {
        held = λ c. ground (
          arith,
          lookup-erase e c s.sessions a.norepeat,
          a.held c,
          ap (has_text c) eq,
          apart.0,
          same_text_iff e c,
        );
        size = omega (arith, length-erase e s.sessions there, size);
        norepeat = erase-NoRepeat e s.sessions a.norepeat;
        distinct = apart.1;
      }

  pub touch-Agrees :
      (c : Text) (s : Sessions S W)
      → Agrees s
      → is_some (lookup c s.sessions) ≡ true
      → Agrees (record s { session_order = remove_first c s.session_order ++ c ∷ [] })
  unfolding has_text
  touch-Agrees c s a there =
      let in_order : has_text c s.session_order ≡ true = sym (a.held c) ∙ there in
      let same : remove_first c s.session_order ≡ discard c s.session_order =
        remove_first_distinct c s.session_order a.distinct in
      record {
        held = λ d.
            a.held d
            ∙ rw (same, has_text-append d (discard c s.session_order) (c ∷ []))
                (ground (arith, has_text-discard c d s.session_order, same_text_iff c d, in_order));
        size = omega (
          arith,
          a.size,
          length-append (remove_first c s.session_order) (c ∷ []),
          length-remove_first c s.session_order in_order,
        );
        norepeat = a.norepeat;
        distinct = rw same (
            append-IsDistinct c (discard c s.session_order)
              (discard-IsDistinct c s.session_order a.distinct)
              (ground (arith, has_text-discard c c s.session_order, same_text_refl c)));
      }

  pub insert-Agrees :
      (c : Text) (session : Option S) (w : W) (s : Sessions S W)
      → Agrees s
      → is_some (lookup c s.sessions) ≡ false
      → Agrees (record {
        world = w;
        sessions = insert c session s.sessions;
        session_order = s.session_order ++ c ∷ [];
      })
  unfolding has_text
  insert-Agrees c session w s a none_there = record {
    held = λ d. ground (
      arith,
      lookup-insert c d session s.sessions,
      has_text-append d s.session_order (c ∷ []),
      a.held d,
    );
    size = omega (
      arith,
      a.size,
      length-append s.session_order (c ∷ []),
      length-insert c session s.sessions none_there,
    );
    norepeat = insert-NoRepeat c session s.sessions a.norepeat;
    distinct = append-IsDistinct c s.session_order a.distinct (sym (a.held c) ∙ none_there);
  }
