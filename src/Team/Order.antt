-- ===== src/Team/Order.antt =====
-- The order by which the owner of a path is chosen, and the first element of a sorted list.
use magent.Prelude.{
  ◌≡◌, refl, sym, subst, inl, inr, true, false, Bool-cases, List, [], ◌∷◌, arith, All, All-map,
  Text, text_lt,
}
use magent.Team.Registry.{Match, key_lt, insert_match, sort_matches}

pub text_lt_irrefl : (s : Text) → text_lt s s ≡ false
unfolding text_lt
text_lt_irrefl [] = refl
text_lt_irrefl (a ∷ s) = ground (arith, text_lt_irrefl s)

text_lt_asymm : (s t : Text) → text_lt s t ≡ true → text_lt t s ≡ false
unfolding text_lt
text_lt_asymm [] [] h = refl
text_lt_asymm [] (b ∷ t) h = refl
text_lt_asymm (a ∷ s) [] h = cc
text_lt_asymm (a ∷ s) (b ∷ t) h = ground (arith, text_lt_asymm s t)

-- What is not above `t`, which is not above `u`, is not above `u`.
text_lt_trans : (s t u : Text) → text_lt s t ≡ false → text_lt t u ≡ false → text_lt s u ≡ false
unfolding text_lt
text_lt_trans s t [] h k = elim s as (λ x. text_lt x [] ≡ false) [ [] ↦ refl | _ ∷ _ ↦ refl ]
text_lt_trans s [] (c ∷ u) h k = cc
text_lt_trans [] (b ∷ t) (c ∷ u) h k = cc
text_lt_trans (a ∷ s) (b ∷ t) (c ∷ u) h k = ground (arith, text_lt_trans s t u)

key_lt_asymm : (x y : Match) → key_lt x y ≡ true → key_lt y x ≡ false
unfolding key_lt
key_lt_asymm (n, a) (m, b) h = ground (arith, text_lt_asymm a.agent_name b.agent_name)

key_lt_trans : (x y z : Match) → key_lt x y ≡ false → key_lt y z ≡ false → key_lt x z ≡ false
unfolding key_lt
key_lt_trans (n, a) (m, b) (k, c) h i =
    ground (arith, text_lt_trans a.agent_name b.agent_name c.agent_name)

-- The first element is least.
abbrev HeadIsLeast : List Match → Type 0
HeadIsLeast [] = Unit
HeadIsLeast (x ∷ xs) = All (λ y. key_lt y x ≡ false) xs

insert_match-All :
    (P : Match → Type 0) (x : Match) (ys : List Match) → P x → All P ys → All P (insert_match x ys)
unfolding insert_match
insert_match-All P x [] px h = (px, tt)
insert_match-All P x (y ∷ ys) px h = elim (Bool-cases (key_lt y x)) [
  | inl e ↦ rw e (h.0, insert_match-All P x ys px h.1)
  | inr e ↦ rw e (px, h)
]

All-insert_match :
    (P : Match → Type 0) (x : Match) (ys : List Match) → All P (insert_match x ys) → P x × All P ys
unfolding insert_match
All-insert_match P x [] h = h
All-insert_match P x (y ∷ ys) h = elim (Bool-cases (key_lt y x)) [
  | inl e ↦
      let h' : P y × All P (insert_match x ys) = rw e at h in
      let (px, others) = All-insert_match P x ys h'.1 in (px, (h'.0, others))
  | inr e ↦ rw e at h
]

insert_match-HeadIsLeast :
    (x : Match) (ys : List Match) → HeadIsLeast ys → HeadIsLeast (insert_match x ys)
unfolding insert_match
insert_match-HeadIsLeast x [] h = tt
insert_match-HeadIsLeast x (y ∷ ys) h = elim (Bool-cases (key_lt y x)) [
  | inl e ↦ rw e (insert_match-All (λ z. key_lt z y ≡ false) x ys (key_lt_asymm y x e) h)
  | inr e ↦ rw e (e, All-map ys (λ z least. key_lt_trans z y x least e) h)
]

sort_matches-All : (P : Match → Type 0) (xs : List Match) → All P xs → All P (sort_matches xs)
unfolding sort_matches
sort_matches-All P [] h = tt
sort_matches-All P (x ∷ xs) h =
    insert_match-All P x (sort_matches xs) h.0 (sort_matches-All P xs h.1)

All-sort_matches : (P : Match → Type 0) (xs : List Match) → All P (sort_matches xs) → All P xs
unfolding sort_matches
All-sort_matches P [] h = tt
All-sort_matches P (x ∷ xs) h =
    let (px, rest) = All-insert_match P x (sort_matches xs) h in (px, All-sort_matches P xs rest)

sort_matches-HeadIsLeast : (xs : List Match) → HeadIsLeast (sort_matches xs)
unfolding sort_matches
sort_matches-HeadIsLeast [] = tt
sort_matches-HeadIsLeast (x ∷ xs) =
    insert_match-HeadIsLeast x (sort_matches xs) (sort_matches-HeadIsLeast xs)

key_lt_irrefl : (x : Match) → key_lt x x ≡ false
unfolding key_lt
key_lt_irrefl (n, a) = ground (arith, text_lt_irrefl a.agent_name)

-- The first of the sorted matches is one of them, and none of them is below it.
pub sort_matches_first :
    (P : Match → Type 0) (xs rest : List Match) (x : Match)
    → All P xs
    → sort_matches xs ≡ x ∷ rest
    → P x × All (λ y. key_lt y x ≡ false) xs
sort_matches_first P xs rest x h e = (
  (subst (All P) e (sort_matches-All P xs h)).0,
  All-sort_matches (λ y. key_lt y x ≡ false) xs
      (subst (All (λ y. key_lt y x ≡ false)) (sym e)
        (key_lt_irrefl x, subst HeadIsLeast e (sort_matches-HeadIsLeast xs))),
)

pub sort_matches_none : (xs : List Match) → sort_matches xs ≡ [] → xs ≡ []
sort_matches_none [] e = refl
sort_matches_none (x ∷ xs) e =
    absurd (All-sort_matches (λ _. ⊥) (x ∷ xs) (subst (All (λ _. ⊥)) (sym e) tt)).0
