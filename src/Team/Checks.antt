-- ===== src/Team/Checks.antt =====
-- Two agents, and the owner of a path.
use magent.Prelude.{
  ◌<◌, ◌≡◌, refl, ◌⊎◌, inl, true, false, some, [], ◌∷◌, Text, codes, text_lt, length,
}
use magent.Team.Glob.{normalize_path, glob_match}
use magent.Team.Registry.{
  AgentRecord, TeamRegistry, find_owner_for_path, first_record, sort_matches, all_matches,
}
use magent.Team.Owner.{Owns, find_owner_sound, find_owner_best}

abbrev front : AgentRecord
front = record {
  agent_name = codes "front";
  team_name = codes "web";
  responsibilities = [];
  allowed_paths = codes "src/**" ∷ [];
}

abbrev back : AgentRecord
back = record {
  agent_name = codes "back";
  team_name = codes "web";
  responsibilities = [];
  allowed_paths = codes "src/api/*" ∷ [];
}

abbrev registry : TeamRegistry
registry = record {
  window_person_by_team = [];
  agents_by_name = (codes "front", front) ∷ (codes "back", back) ∷ [];
}

abbrev path : Text
path = codes "src/api/a"

back_found : find_owner_for_path path registry ≡ some back
unfolding find_owner_for_path first_record sort_matches all_matches text_lt
back_found = refl

front_matches : glob_match (normalize_path path) (codes "src/**") ≡ true
unfolding glob_match normalize_path
front_matches = refl

find_owner_sound_example :
    (pat : Text) × Owns (normalize_path path) registry.agents_by_name back pat
find_owner_sound_example = find_owner_sound path registry back back_found

find_owner_best_example :
    (a : AgentRecord) × (find_owner_for_path path registry ≡ some a)
    × (pat : Text) × Owns (normalize_path path) registry.agents_by_name a pat
    × ((length (codes "src/**") < length pat)
        ⊎ ((length (codes "src/**") ≡ length pat) × (text_lt (codes "front") a.agent_name ≡ false)))
find_owner_best_example =
    find_owner_best path registry front (codes "src/**")
      ((codes "front", inl refl), inl refl, front_matches)
