-- ===== src/Runner/Sessions.antt =====
-- `_get_session`, with the making of a session. The SDK's session class and the file system are
-- parameters.
use magent.Prelude.{
  ℕ, max, Bool, Option, none, some, List, [], ◌∷◌, ◌++◌, reverse, length, ◌==◌, ltb, if◌then◌else◌,
  Text, ◌≡◌, refl, codes, same_text, is_empty, lstrip, Dict, lookup, insert,
}
use magent.Prelude.Exec.{Exec, Result, return, raise}

-- `cls` is SQLiteSession where the SDK has it, `sqlite_path` is AGENT_SESSION_PATH or its default,
-- and `session_limit` is the argument of the constructor.
pub record Setup (S W : Type 0) : Type 0 where
  pub cls : Option ((conversation_id path : Text) → Exec W S)
  pub sqlite_path : Text
  pub exists : (path : Text) → W → Bool
  pub makedirs : (path : Text) → Exec W (Unit {0})
  pub session_limit : ℕ

-- `session_order` has the conversation that was used last at its end.
pub record Sessions (S W : Type 0) : Type 0 where
  pub world : W
  pub sessions : Dict (Option S)
  pub session_order : List Text

-- names.remove(name), where the ValueError of a missing name is passed over.
unfoldable pub remove_first : Text → List Text → List Text
remove_first name [] = []
remove_first name (n ∷ names) =
    let rest = remove_first name names in if same_text n name then names else n ∷ rest

-- `del d[k]`, where the KeyError of a missing key is passed over.
unfoldable pub erase {ℓ} : {V : Type ℓ} → Text → Dict V → Dict V
erase k [] = []
erase k ((j, v) ∷ d) = let rest = erase k d in if same_text j k then d else (j, v) ∷ rest

abbrev is_slash : ℕ → Bool
is_slash c = c == b'/'

abbrev from_slash : Text → Text
from_slash [] = []
from_slash (c ∷ s) = let rest = from_slash s in if is_slash c then c ∷ s else rest

-- os.path.dirname
unfoldable pub dirname : Text → Text
unfolding lstrip
dirname path =
    let head = from_slash (reverse path) in
    let parent = lstrip is_slash head in reverse (if is_empty parent then head else parent)

dirname_test : dirname (codes "./.sessions/agents.db") ≡ codes "./.sessions"
unfolding dirname
dirname_test = refl

unfoldable pub drop_oldest : {S W : Type 0} → List Text → Sessions S W → Sessions S W
drop_oldest [] s = s
drop_oldest (evict_id ∷ order) s = record s {
  sessions = erase evict_id s.sessions;
  session_order = order;
}

module _ {S W : Type 0} (setup : Setup S W) where
  -- Best effort: an exception of `makedirs` is dropped.
  unfoldable pub ensure_dir_for_path : Text → W → W
  ensure_dir_for_path path w =
      if is_empty (dirname path)
      then w
      else if setup.exists (dirname path) w
      then w
      else (setup.makedirs (dirname path) w).1

  abbrev made : Result S × W → Option S × W
  made (return session, w) = (some session, w)
  made (raise exc, w) = (none, w)

  unfoldable pub try_create_sqlite_session : Text → W → Option S × W
  try_create_sqlite_session conversation_id w =
      let path =
        if is_empty setup.sqlite_path then codes "./.sessions/agents.db" else setup.sqlite_path in
      elim setup.cls [
        | none ↦ (none, w)
        | some cls ↦ made (cls conversation_id path (ensure_dir_for_path path w))
      ]

  unfoldable pub evict : Sessions S W → Sessions S W
  evict s =
      if ltb (max 1 setup.session_limit) (length s.sessions)
      then drop_oldest s.session_order s
      else s

  unfoldable pub add_session : Text → Option S × W → Sessions S W → Option S × Sessions S W
  add_session conversation_id (session, w) s = (
    session,
    evict (record {
      world = w;
      sessions = insert conversation_id session s.sessions;
      session_order = s.session_order ++ conversation_id ∷ [];
    }),
  )

  unfoldable pub find_or_add : Text → Option (Option S) → Sessions S W → Option S × Sessions S W
  find_or_add conversation_id (some session) s = (
    session,
    record s {
      session_order = remove_first conversation_id s.session_order ++ conversation_id ∷ [];
    },
  )
  find_or_add conversation_id none s =
      add_session conversation_id (try_create_sqlite_session conversation_id s.world) s

  unfoldable pub get_session : Text → Sessions S W → Option S × Sessions S W
  get_session conversation_id s = find_or_add conversation_id (lookup conversation_id s.sessions) s
