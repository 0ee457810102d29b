-- ===== src/Team/Registry.antt =====
-- `TeamRegistry` of magent2/team/registry.py. Both dicts are in insertion order.
use magent.Prelude.{
  ℕ, Bool, ◌&&◌, ◌||◌, Option, none, some, List, [], ◌∷◌, ◌++◌, map, ltb, ◌==◌, if◌then◌else◌, Text,
  codes, same_text, text_lt, filter, length, Dict, lookup, insert,
}
use magent.Prelude.Exec.{key_error, Result, return, raise}
use magent.Team.Glob.{normalize_path, glob_match}

pub record AgentRecord : Type 0 where
  pub agent_name : Text
  pub team_name : Text
  pub responsibilities : List Text
  pub allowed_paths : List Text

pub record TeamRegistry : Type 0 where
  pub window_person_by_team : Dict Text
  pub agents_by_name : Dict AgentRecord

abbrev pub empty_registry : TeamRegistry
empty_registry = record { window_person_by_team = []; agents_by_name = [] }

unfoldable pub set_window_person : Text → Text → TeamRegistry → TeamRegistry
set_window_person team person r = record r {
  window_person_by_team = insert team person r.window_person_by_team;
}

unfoldable pub get_window_person : Text → TeamRegistry → Option Text
get_window_person team r = lookup team r.window_person_by_team

-- `x or []`
abbrev pub or_empty : Option (List Text) → List Text
or_empty none = []
or_empty (some xs) = xs

unfoldable pub register_agent :
    (team_name agent_name : Text)
    → Option (List Text)
    → Option (List Text)
    → TeamRegistry
    → AgentRecord × TeamRegistry
register_agent team_name agent_name responsibilities allowed_paths r =
    let agent : AgentRecord = record {
      agent_name = agent_name;
      team_name = team_name;
      responsibilities = or_empty responsibilities;
      allowed_paths = map normalize_path (or_empty allowed_paths);
    } in
    (agent, record r { agents_by_name = insert agent_name agent r.agents_by_name })

unfoldable pub updated : Option (List Text) → Option (List Text) → AgentRecord → AgentRecord
updated responsibilities allowed_paths a = record a {
  responsibilities = elim responsibilities [ none ↦ a.responsibilities | some xs ↦ xs ];
  allowed_paths = elim allowed_paths [ none ↦ a.allowed_paths | some ps ↦ map normalize_path ps ];
}

-- The record is shared with the dict, so an update of one is an update of the other.
unfoldable pub update_agent :
    Text
    → Option (List Text)
    → Option (List Text)
    → TeamRegistry
    → Result AgentRecord × TeamRegistry
unfolding updated
update_agent name responsibilities allowed_paths r = elim (lookup name r.agents_by_name) [
  | none ↦ (raise (record { kind = key_error; message = codes "unknown agent: " ++ name }), r)
  | some a ↦
      let a' = updated responsibilities allowed_paths a in
      (return a', record r { agents_by_name = insert name a' r.agents_by_name })
]

unfoldable pub get_agent : Text → TeamRegistry → Option AgentRecord
get_agent name r = lookup name r.agents_by_name

unfoldable pub list_team_agents : Text → TeamRegistry → List AgentRecord
list_team_agents team r =
    filter (λ a. same_text a.team_name team) (map (λ (_, a). a) r.agents_by_name)

abbrev pub Match : Type 0
Match = ℕ × AgentRecord

-- (-len, agent_name) of `a` is below that of `b`.
unfoldable pub key_lt : Match → Match → Bool
unfolding text_lt
key_lt (n, a) (m, b) = ltb m n || (n == m && text_lt a.agent_name b.agent_name)

-- `matches.sort(key=…)`, which is stable: an equal key goes behind.
unfoldable pub insert_match : Match → List Match → List Match
unfolding key_lt
insert_match x [] = x ∷ []
insert_match x (y ∷ ys) = if key_lt y x then y ∷ insert_match x ys else x ∷ y ∷ ys

unfoldable pub sort_matches : List Match → List Match
unfolding insert_match
sort_matches [] = []
sort_matches (x ∷ xs) = insert_match x (sort_matches xs)

unfoldable pub record_matches : Text → AgentRecord → List Text → List Match
unfolding glob_match
record_matches target a [] = []
record_matches target a (pat ∷ pats) =
    let rest = record_matches target a pats in
    if glob_match target pat then (length pat, a) ∷ rest else rest

unfoldable pub all_matches : Text → Dict AgentRecord → List Match
unfolding record_matches
all_matches target [] = []
all_matches target ((_, a) ∷ agents) =
    record_matches target a a.allowed_paths ++ all_matches target agents

unfoldable pub first_record : List Match → Option AgentRecord
first_record [] = none
first_record ((_, a) ∷ _) = some a

unfoldable pub find_owner_for_path : Text → TeamRegistry → Option AgentRecord
find_owner_for_path path r =
    first_record (sort_matches (all_matches (normalize_path path) r.agents_by_name))
