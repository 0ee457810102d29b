-- ===== src/Mcp/Gateway.antt =====
-- magent2/tools/mcp/gateway.py: several servers behind one list of tools. The clients of the servers
-- are a parameter.
use magent.Prelude.{
  ℕ, zero, suc, ◌+◌, Bool, true, false, not, ◌&&◌, Option, none, some, List, [], ◌∷◌, ◌++◌,
  if◌then◌else◌, is_some, Text, codes, has_text, same_text, Dict, lookup, insert,
}
use magent.Prelude.Exec.{
  Exec, Exception, key_error, Result, return, raise, pure, continue, ◌>>=◌, ◌>>◌,
}
use magent.Json.{Value, str, obj, Fields, end, get}
use magent.Mcp.Config.{McpServerConfig}

-- Starting a server's process enters its context, and gives the client.
pub record Servers (W C : Type 0) : Type 0 where
  pub spawn_stdio_server : (cmd : List Text) → (cwd : Option Text) → (env : Dict Text) → Exec W C
  pub initialize : C → (timeout : Text) → Exec W (Unit {0})
  pub exit : C → Exec W (Unit {0})
  pub list_tools : C → (timeout : Text) → Exec W (List Fields)
  pub call_tool : C → (name : Text) → (arguments : Option Fields) → (timeout : Text) → Exec W Fields
  -- os.environ.get("PATH", ...)
  pub path : Text

pub record ToolInfo : Type 0 where
  pub name : Text
  pub description : Option Text
  pub input_schema : Fields

-- A client and its context are one here.
pub record Gateway (W C : Type 0) : Type 0 where
  pub world : W
  pub tool_owner : Dict ℕ
  pub clients : List C
  pub client_started : Bool
  pub tool_cache : Option (List ToolInfo)

abbrev pub unknown_tool : Text → Exception
unknown_tool name = record { kind = key_error; message = codes "Unknown tool: " ++ name }

-- xs[i]
unfoldable pub get_elem? : {A : Type 0} → List A → ℕ → Option A
get_elem? [] i = none
get_elem? (x ∷ xs) zero = some x
get_elem? (x ∷ xs) (suc i) = get_elem? xs i

abbrev pub in_set : Text → Option (List Text) → Bool
in_set name none = false
in_set name (some names) = has_text name names

-- Allowed, and not blocked; without an allow list, nothing is exposed.
unfoldable pub is_exposed_by_policy : McpServerConfig → Text → Bool
unfolding has_text
is_exposed_by_policy config name = in_set name config.allow && not (in_set name config.block)

abbrev text_of : Option Value → Option Text
text_of (some (str s)) = some s
text_of _ = none

unfoldable pub tool_names : List Fields → List Text
unfolding get
tool_names [] = []
tool_names (tool ∷ tools) =
    let names = tool_names tools in
    elim (text_of (get (codes "name") tool)) [
      | none ↦ names
      | some [] ↦ names
      | some (c ∷ name) ↦ (c ∷ name) ∷ names
    ]

-- The names of a server that its policy exposes and that no earlier server has.
unfoldable pub claim_names : McpServerConfig → ℕ → List Text → Dict ℕ → Dict ℕ
unfolding is_exposed_by_policy
claim_names config index [] owner = owner
claim_names config index (name ∷ names) owner = claim_names config index names (
    if is_exposed_by_policy config name && not (is_some (lookup name owner))
    then insert name index owner
    else owner)

abbrev fields_or_empty : Option Value → Fields
fields_or_empty (some (obj d)) = d
fields_or_empty _ = end

abbrev tool_info : Text → Fields → ToolInfo
tool_info name tool = record {
  name = name;
  description = text_of (get (codes "description") tool);
  input_schema = fields_or_empty (get (codes "inputSchema") tool);
}

-- The first tool of that name.
unfoldable pub find_tool : Text → List Fields → List ToolInfo
unfolding get same_text
find_tool name [] = []
find_tool name (tool ∷ tools) =
    let rest = find_tool name tools in
    elim (text_of (get (codes "name") tool)) [
      | none ↦ rest
      | some n ↦ if same_text n name then tool_info name tool ∷ [] else rest
    ]

abbrev value_or : Text → Option Text → Text
value_or default none = default
value_or default (some value) = value

module _ {W C : Type 0} (servers : Servers W C) where
  abbrev names_or_none : Result (List Fields) → List Text
  names_or_none (return tools) = tool_names tools
  names_or_none (raise e) = []

  unfoldable pub iter_server_tool_names : C → W → List Text × W
  unfolding tool_names
  iter_server_tool_names client w =
      let (r, w') = servers.list_tools client (codes "5.0") w in (names_or_none r, w')

  unfoldable pub index_servers : ℕ → List McpServerConfig → List C → Dict ℕ → W → Dict ℕ × W
  unfolding iter_server_tool_names claim_names
  index_servers index (config ∷ configs) (client ∷ clients) owner w =
      let (names, w') = iter_server_tool_names client w in
      index_servers (index + 1) configs clients (claim_names config index names owner) w'
  index_servers index [] clients owner w = (owner, w)
  index_servers index (config ∷ configs) [] owner w = (owner, w)

  unfoldable pub index_tools : List McpServerConfig → Gateway W C → Gateway W C
  unfolding index_servers
  index_tools configs g =
      let (owner, w) = index_servers 0 configs g.clients [] g.world in
      record g { world = w; tool_owner = owner; tool_cache = none }

  abbrev server_env : Dict Text → Dict Text → Dict Text
  server_env [] env = env
  server_env ((k, v) ∷ overrides) env = server_env overrides (insert k v env)

  abbrev minimal_env : Dict Text
  minimal_env =
      (codes "PATH", servers.path)
      ∷ (codes "LC_ALL", codes "C")
      ∷ (codes "PYTHONIOENCODING", codes "utf-8")
      ∷ (codes "PYTHONUNBUFFERED", codes "1")
      ∷ []

  -- A server that does not initialize is left, and the exception goes on: that of leaving it, if any.
  abbrev keep_or_exit : C → Result (Unit {0}) → Exec W C
  keep_or_exit client (return u) w = (return client, w)
  keep_or_exit client (raise e) w =
      let (r, w') = servers.exit client w in continue r (λ u s. (raise e, s)) w'

  unfoldable pub start_server : McpServerConfig → Exec W C
  start_server config w =
      let (r, w1) =
        servers.spawn_stdio_server (config.command ∷ config.args) config.cwd
          (server_env config.env minimal_env) w in
      continue r
        (λ client w2.
          let (ready, w3) =
            servers.initialize client (value_or (codes "5.0") config.init_timeout_seconds) w2 in
          keep_or_exit client ready w3)
        w1

  abbrev add_client : C → Exec (Gateway W C) (Unit {0})
  add_client client g = (return tt, record g { clients = g.clients ++ client ∷ [] })

  unfoldable pub start_servers : List McpServerConfig → Exec (Gateway W C) (Unit {0})
  unfolding start_server
  start_servers [] = pure tt
  start_servers (config ∷ configs) = do
    client ← λ g. let (r, w) = start_server config g.world in (r, record g { world = w })
    add_client client
    start_servers configs

  abbrev index_and_mark : List McpServerConfig → Exec (Gateway W C) (Unit {0})
  index_and_mark configs g =
      (return tt, record (index_tools configs g) { client_started = true; tool_cache = none })

  unfoldable pub start : List McpServerConfig → Exec (Gateway W C) (Unit {0})
  unfolding start_servers index_tools
  start configs g =
      if g.client_started
      then (return tt, g)
      else (start_servers configs >> index_and_mark configs) g
