-- ===== src/Mcp/Calls.antt =====
-- The gateway's list of tools, its calls and its end.
use magent.Prelude.{
  ℕ, false, Option, none, some, List, [], ◌∷◌, ◌++◌, reverse, Text, codes, Dict, lookup,
}
use magent.Prelude.Exec.{Exec, Exception, runtime_error, Result, return, raise}
use magent.Json.{Fields}
use magent.Mcp.Gateway.{Servers, ToolInfo, Gateway, unknown_tool, get_elem?, find_tool}

-- An index without a client, which no tool has: Python raises an IndexError.
abbrev pub no_client : Exception
no_client = record { kind = runtime_error; message = codes "list index out of range" }

module _ {W C : Type 0} (servers : Servers W C) where
  abbrev found_or_none : Text → Result (List Fields) → List ToolInfo
  found_or_none name (return tools) = find_tool name tools
  found_or_none name (raise e) = []

  abbrev list_of : Text → Option C → W → Result (List ToolInfo) × W
  list_of name none w = (raise no_client, w)
  list_of name (some client) w =
      let (r, w') = servers.list_tools client (codes "3.0") w in (return (found_or_none name r), w')

  abbrev then_more : List ToolInfo → Result (List ToolInfo) × W → Result (List ToolInfo) × W
  then_more infos (return more, w) = (return (infos ++ more), w)
  then_more infos (raise e, w) = (raise e, w)

  -- The tools of the owners; a server that cannot list now is left out.
  unfoldable pub list_owned : List C → Dict ℕ → W → Result (List ToolInfo) × W
  unfolding find_tool get_elem?
  list_owned clients [] w = (return [], w)
  list_owned clients ((name, index) ∷ owner) w =
      let (r, w') = list_of name (get_elem? clients index) w in
      elim r [
        | raise e ↦ (raise e, w')
        | return infos ↦ then_more infos (list_owned clients owner w')
      ]

  abbrev cache_tools :
      Gateway W C → Result (List ToolInfo) × W → Result (List ToolInfo) × Gateway W C
  cache_tools g (return tools, w) = (return tools, record g { world = w; tool_cache = some tools })
  cache_tools g (raise e, w) = (raise e, record g { world = w })

  abbrev list_uncached : Option (List ToolInfo) → Exec (Gateway W C) (List ToolInfo)
  list_uncached (some tools) g = (return tools, g)
  list_uncached none g = cache_tools g (list_owned g.clients g.tool_owner g.world)

  unfoldable pub list_tools : Exec (Gateway W C) (List ToolInfo)
  unfolding list_owned
  list_tools g = list_uncached g.tool_cache g

  abbrev pub timeout_or_ten : Option Text → Text
  timeout_or_ten none = codes "10.0"
  timeout_or_ten (some timeout) = timeout

  abbrev pub call_client :
      Text
      → (arguments : Option Fields) → (timeout : Option Text) → Option C
      → Exec (Gateway W C) Fields
  call_client name arguments timeout none g = (raise no_client, g)
  call_client name arguments timeout (some client) g =
      let (r, w) = servers.call_tool client name arguments (timeout_or_ten timeout) g.world in
      (r, record g { world = w })

  abbrev pub call_owner :
      Text
      → (arguments : Option Fields) → (timeout : Option Text) → Option ℕ
      → Exec (Gateway W C) Fields
  call_owner name arguments timeout none g = (raise (unknown_tool name), g)
  call_owner name arguments timeout (some index) g =
      call_client name arguments timeout (get_elem? g.clients index) g

  unfoldable pub call :
      Text → (arguments : Option Fields) → (timeout : Option Text) → Exec (Gateway W C) Fields
  unfolding get_elem?
  call name arguments timeout g = call_owner name arguments timeout (lookup name g.tool_owner) g

  -- What leaving a client raises is dropped.
  unfoldable pub exit_all : List C → W → W
  exit_all [] w = w
  exit_all (client ∷ clients) w = exit_all clients (servers.exit client w).1

  unfoldable pub close : Gateway W C → Gateway W C
  unfolding exit_all
  close g = record {
    world = exit_all (reverse g.clients) g.world;
    tool_owner = [];
    clients = [];
    client_started = false;
    tool_cache = none;
  }
