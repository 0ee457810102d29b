-- ===== src/Mcp/Checks.antt =====
-- Concrete frames and servers.
use magent.Prelude.{ℕ, ◌≡◌, refl, ◌⊎◌, false, none, some, List, [], ◌∷◌, ◌++◌, map, Text, codes}
use magent.Prelude.Exec.{return, raise}
use magent.Json.{str, obj, Fields, field, end}
use magent.Mcp.Frame.{Codec, read_frame, write_frame}
use magent.Mcp.RoundTrip.{lower_char, IsAscii, IsReadable, read_frame-write_frame}
use magent.Mcp.Config.{McpServerConfig}
use magent.Mcp.Gateway.{Servers, Gateway, unknown_tool, index_tools}
use magent.Mcp.Calls.{call, call_client}
use magent.Mcp.Exposed.{Exposes, call_exposed}

abbrev payload : Fields
payload = field (codes "method") (str (codes "shutdown")) end

-- A codec that takes every byte for a character and knows one text.
abbrev codec : Codec
codec = record {
  decode = λ s. some s;
  lower = λ s. map lower_char s;
  json_loads = λ s. some (obj payload);
}

codec-IsAscii : IsAscii codec
codec-IsAscii = record { decodes = λ s h. refl; lowers = λ s h. refl }

payload-IsReadable : IsReadable codec payload
payload-IsReadable = record { decoded = refl; loaded = refl }

read_frame-write_frame_example :
    read_frame codec (write_frame payload ++ codes "next") ≡ (return (obj payload), codes "next")
read_frame-write_frame_example =
    read_frame-write_frame codec codec-IsAscii payload (codes "next") payload-IsReadable

abbrev offered : List Fields
offered =
    field (codes "name") (str (codes "read")) end
    ∷ field (codes "name") (str (codes "write")) end
    ∷ []

-- Clients are numbers, and the world is the list of the tools that were called.
abbrev servers : Servers (List Text) ℕ
servers = record {
  spawn_stdio_server = λ cmd cwd env w. (return 0, w);
  initialize = λ client timeout w. (return tt, w);
  exit = λ client w. (return tt, w);
  list_tools = λ client timeout w. (return offered, w);
  call_tool = λ client name arguments timeout w. (return end, name ∷ w);
  path = codes "/usr/bin";
}

abbrev config : McpServerConfig
config = record {
  command = codes "server";
  args = [];
  cwd = none;
  env = [];
  allow = some (codes "read" ∷ codes "write" ∷ []);
  block = some (codes "write" ∷ []);
  init_timeout_seconds = none;
}

abbrev gateway : Gateway (List Text) ℕ
gateway = record {
  world = [];
  tool_owner = [];
  clients = 7 ∷ [];
  client_started = false;
  tool_cache = none;
}

call_exposed_example :
    (call servers (codes "read") none none (index_tools servers (config ∷ []) gateway)
      ≡ (raise (unknown_tool (codes "read")), index_tools servers (config ∷ []) gateway))
    ⊎ ((index : ℕ) × (server : Exposes servers (config ∷ []) gateway.clients (codes "read") index)
        × (call servers (codes "read") none none (index_tools servers (config ∷ []) gateway)
            ≡ call_client servers
                (codes "read")
                none
                none
                (some server.client)
                (index_tools servers (config ∷ []) gateway)))
call_exposed_example = call_exposed servers (config ∷ []) gateway (codes "read") none none
