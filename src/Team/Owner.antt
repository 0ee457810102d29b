-- ===== src/Team/Owner.antt =====
-- About `find_owner_for_path`.
use magent.Prelude.{
  ◌⊎◌, Option, ℕ, ◌<◌, ◌≡◌, refl, sym, ap, subst, ◌∙◌, inl, inr, true, false, Bool-cases, none,
  some, List, [], ◌∷◌, arith, All, All-append, All-append_inv, Member, Text, text_lt, length, Dict,
}
use magent.Team.Glob.{normalize_path, glob_match}
use magent.Team.Registry.{
  AgentRecord, TeamRegistry, Match, key_lt, sort_matches, record_matches, all_matches, first_record,
  find_owner_for_path,
}
use magent.Team.Order.{sort_matches_first, sort_matches_none}

abbrev Registered : AgentRecord → Dict AgentRecord → Type 0
Registered a agents = (name : Text) × Member (name, a) agents

-- The agent is registered, and the pattern, one of its allowed paths, matches the path.
abbrev pub Owns : Text → Dict AgentRecord → AgentRecord → Text → Type 0
Owns target agents a pat =
    Registered a agents × Member pat a.allowed_paths × (glob_match target pat ≡ true)

abbrev Matched : Text → Dict AgentRecord → Match → Type 0
Matched target agents (n, a) = (pat : Text) × Owns target agents a pat × (n ≡ length pat)

module _ (target : Text) where
  record_matches-All :
      (a : AgentRecord) (P : Match → Type 0) (pats : List Text)
      → ((pat : Text) → Member pat pats → glob_match target pat ≡ true → P (length pat, a))
      → All P (record_matches target a pats)
  unfolding record_matches
  record_matches-All a P [] h = tt
  record_matches-All a P (pat ∷ pats) h =
      let rest = record_matches-All a P pats (λ q m. h q (inr m)) in
      elim (Bool-cases (glob_match target pat)) [
        | inl e ↦ rw e (h pat (inl refl) e, rest)
        | inr e ↦ rw e rest
      ]

  All-record_matches :
      (a : AgentRecord) (P : Match → Type 0) (pats : List Text)
      → All P (record_matches target a pats)
      → (pat : Text) → Member pat pats
      → glob_match target pat ≡ true
      → P (length pat, a)
  unfolding record_matches
  All-record_matches a P [] h pat m e = absurd m
  All-record_matches a P (q ∷ pats) h pat (inl same) e =
      let h' : All P ((length q, a) ∷ record_matches target a pats) =
        rw (ap (glob_match target) (sym same) ∙ e) at h in
      subst (λ t. P (length t, a)) (sym same) h'.0
  All-record_matches a P (q ∷ pats) h pat (inr m) e = elim (Bool-cases (glob_match target q)) [
    | inl e' ↦
        let h' : All P ((length q, a) ∷ record_matches target a pats) = rw e' at h in
        All-record_matches a P pats h'.1 pat m e
    | inr e' ↦ All-record_matches a P pats (rw e' at h) pat m e
  ]

  all_matches-All :
      (P : Match → Type 0) (agents : Dict AgentRecord)
      → ((a : AgentRecord) (pat : Text) → Owns target agents a pat → P (length pat, a))
      → All P (all_matches target agents)
  unfolding all_matches
  all_matches-All P [] h = tt
  all_matches-All P ((name, a) ∷ agents) h =
      All-append P (record_matches target a a.allowed_paths) (all_matches target agents)
        (record_matches-All a P a.allowed_paths (λ pat m e. h a pat ((name, inl refl), m, e)))
        (all_matches-All P agents (λ b pat o. h b pat ((o.0.0, inr o.0.1), o.1, o.2)))

  All-all_matches :
      (P : Match → Type 0) (agents : Dict AgentRecord) (name : Text)
      → All P (all_matches target agents)
      → (a : AgentRecord) (pat : Text) → Member (name, a) agents
      → Member pat a.allowed_paths
      → glob_match target pat ≡ true
      → P (length pat, a)
  unfolding all_matches
  All-all_matches P [] name h a pat registered m e = absurd registered
  All-all_matches P ((name', b) ∷ agents) name h a pat (inl same) m e =
      let same_agent : a ≡ b = ap (λ (x : Text × AgentRecord). x.1) same in
      All-record_matches a P a.allowed_paths
        (subst (λ c. All P (record_matches target c c.allowed_paths)) (sym same_agent)
          (All-append_inv P (record_matches target b b.allowed_paths) (all_matches target agents)
            h).0)
        pat m e
  All-all_matches P ((name', b) ∷ agents) name h a pat (inr rest) m e =
      All-all_matches P agents name
        (All-append_inv P (record_matches target b b.allowed_paths) (all_matches target agents) h).1
        a pat rest m e

-- A key that is not below that of `a`: a shorter pattern, or one as long of an agent whose name is
-- not before.
specific :
    (n m : ℕ) (a b : AgentRecord)
    → key_lt (m, b) (n, a) ≡ false
    → (m < n) ⊎ ((m ≡ n) × (text_lt b.agent_name a.agent_name ≡ false))
unfolding key_lt
specific n m a b h = ground arith

first_record-some :
    (sorted : List Match) (a : AgentRecord)
    → first_record sorted ≡ some a
    → (n : ℕ) × (rest : List Match) × (sorted ≡ (n, a) ∷ rest)
unfolding first_record
first_record-some [] a e = cc
first_record-some ((n, b) ∷ rest) a e =
    let same : b ≡ a = cc in (n, rest, ap (λ (c : AgentRecord). (n, c) ∷ rest) same)

none_matches :
    (target : Text) (agents : Dict AgentRecord)
    → all_matches target agents ≡ []
    → (a : AgentRecord) (pat : Text) → Registered a agents
    → Member pat a.allowed_paths
    → glob_match target pat ≡ false
none_matches target agents e a pat (name, registered) m =
    elim (Bool-cases (glob_match target pat)) [
      | inl hit ↦ absurd (
          All-all_matches target (λ _. ⊥) agents name (subst (All (λ _. ⊥)) (sym e) tt) a pat
            registered m hit)
      | inr miss ↦ miss
    ]

first_record-none : (sorted : List Match) → first_record sorted ≡ none → sorted ≡ []
unfolding first_record
first_record-none [] e = refl
first_record-none ((n, a) ∷ rest) e = cc

module _ (path : Text) (r : TeamRegistry) where
  abbrev target : Text
  target = normalize_path path

  -- An owner that is found is registered, and one of its patterns matches the normalised path.
  pub find_owner_sound :
      (a : AgentRecord)
      → find_owner_for_path path r ≡ some a
      → (pat : Text) × Owns target r.agents_by_name a pat
  unfolding find_owner_for_path
  find_owner_sound a found =
      let agents = r.agents_by_name in
      let (n, rest, e) = first_record-some (sort_matches (all_matches target agents)) a found in
      let (matched, _) =
        sort_matches_first (Matched target agents) (all_matches target agents) rest (n, a)
          (all_matches-All target (Matched target agents) agents (λ b pat o. (pat, o, refl))) e in
      (matched.0, matched.1)

  best_of :
      (a b : AgentRecord) (pat' : Text)
      → find_owner_for_path path r ≡ some a
      → Owns target r.agents_by_name b pat'
      → (pat : Text) × Owns target r.agents_by_name a pat
        × ((length pat' < length pat)
            ⊎ ((length pat' ≡ length pat) × (text_lt b.agent_name a.agent_name ≡ false)))
  unfolding find_owner_for_path
  best_of a b pat' found o =
      let agents = r.agents_by_name in
      let (n, rest, e) = first_record-some (sort_matches (all_matches target agents)) a found in
      let (matched, least) =
        sort_matches_first (Matched target agents) (all_matches target agents) rest (n, a)
          (all_matches-All target (Matched target agents) agents (λ b pat o. (pat, o, refl))) e in
      let below =
        All-all_matches target (λ y. key_lt y (n, a) ≡ false) agents o.0.0 least b pat' o.0.1 o.1
          o.2 in
      (
        matched.0,
        matched.1,
        subst
            (λ k.
              (length pat' < k) ⊎ ((length pat' ≡ k) × (text_lt b.agent_name a.agent_name ≡ false)))
            matched.2 (specific n (length pat') a b below),
      )

  none_found :
      find_owner_for_path path r ≡ none
      → (b : AgentRecord) (pat : Text) → Registered b r.agents_by_name
      → Member pat b.allowed_paths
      → glob_match target pat ≡ false
  unfolding find_owner_for_path
  none_found e =
      let matches = all_matches target r.agents_by_name in
      none_matches target r.agents_by_name
        (sort_matches_none matches (first_record-none (sort_matches matches) e))

  found_or_none :
      (o : Option AgentRecord)
      → find_owner_for_path path r ≡ o
      → (b : AgentRecord) (pat' : Text) → Owns target r.agents_by_name b pat'
      → (a : AgentRecord) × (find_owner_for_path path r ≡ some a)
        × (pat : Text) × Owns target r.agents_by_name a pat
        × ((length pat' < length pat)
            ⊎ ((length pat' ≡ length pat) × (text_lt b.agent_name a.agent_name ≡ false)))
  found_or_none none e b pat' o = cc (none_found e b pat' o.0 o.1, o.2)
  found_or_none (some a) e b pat' o =
      let (pat, owns, best) = best_of a b pat' e o in (a, e, pat, owns, best)

  -- When some registered agent has a pattern that matches the normalised path, an owner is found,
  -- and a matching pattern of that owner is longer, or equally long with the other agent's name not
  -- below the owner's.
  pub find_owner_best :
      (b : AgentRecord) (pat' : Text)
      → Owns target r.agents_by_name b pat'
      → (a : AgentRecord) × (find_owner_for_path path r ≡ some a)
        × (pat : Text) × Owns target r.agents_by_name a pat
        × ((length pat' < length pat)
            ⊎ ((length pat' ≡ length pat) × (text_lt b.agent_name a.agent_name ≡ false)))
  find_owner_best b pat' o = found_or_none (find_owner_for_path path r) refl b pat' o
