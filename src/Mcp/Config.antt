-- ===== src/Mcp/Config.antt =====
-- magent2/tools/mcp/config.py: the servers of an agent, from environment variables.
use magent.Prelude.{
  ℕ, zero, suc, ◌+◌, ◌≡◌, refl, not, Option, none, some, List, [], ◌∷◌, ◌++◌, map, filter, ◌==◌,
  if◌then◌else◌, Text, codes, strip, is_empty, Dict, insert,
}
use magent.Prelude.Exec.{Exception, value_error, Result, return, raise}
use magent.Json.{Value, obj, Fields, end, field, decimal}

-- `allow` and `block` are sets; a number of seconds is kept as the text that `float` read.
pub record McpServerConfig : Type 0 where
  pub command : Text
  pub args : List Text
  pub cwd : Option Text
  pub env : Dict Text
  pub allow : Option (List Text)
  pub block : Option (List Text)
  pub init_timeout_seconds : Option Text

-- `os.getenv`, `json.loads` and `float`, none where they find nothing or raise, and `str` of a value.
pub record Settings : Type 0 where
  pub getenv : Text → Option Text
  pub json_loads : Text → Option Value
  pub float : Text → Option Text
  pub show : Value → Text

abbrev pub invalid : Text → Exception
invalid message = record { kind = value_error; message = message }

-- value.split(",")
unfoldable pub split_comma : Text → Text → List Text
split_comma part [] = part ∷ []
split_comma part (c ∷ s) =
    let rest = split_comma [] s in
    let more = split_comma (part ++ c ∷ []) s in if c == b',' then part ∷ rest else more

abbrev or_blank : Option Text → Text
or_blank none = []
or_blank (some s) = s

unfoldable pub parse_csv : Option Text → List Text
unfolding split_comma strip
parse_csv value = filter (λ part. not (is_empty part)) (map strip (split_comma [] (or_blank value)))

parse_csv_test : parse_csv (some (codes "a, b ,,c")) ≡ codes "a" ∷ codes "b" ∷ codes "c" ∷ []
unfolding parse_csv
parse_csv_test = refl

abbrev or_none : List Text → Option (List Text)
or_none [] = none
or_none (item ∷ items) = some (item ∷ items)

unfoldable pub parse_csv_set : Option Text → Option (List Text)
unfolding parse_csv
parse_csv_set value = or_none (parse_csv value)

module _ (settings : Settings) where
  abbrev string_values : Fields → Dict Text → Dict Text
  string_values end result = result
  string_values (field k v d) result = string_values d (insert k (settings.show v) result)

  abbrev decoded_env : Option Value → Result (Dict Text)
  decoded_env none = raise (invalid (codes "Invalid ENV_JSON; must be a JSON object string"))
  decoded_env (some (obj d)) = return (string_values d [])
  decoded_env (some v) = raise (invalid (codes "ENV_JSON must decode to an object"))

  unfoldable pub parse_env_json : Option Text → Result (Dict Text)
  parse_env_json none = return []
  parse_env_json (some []) = return []
  parse_env_json (some (c ∷ s)) = decoded_env (settings.json_loads (c ∷ s))

  abbrev to_timeout : Option Text → Result (Option Text)
  to_timeout none = raise (invalid (codes "INIT_TIMEOUT_SECONDS must be a float"))
  to_timeout (some seconds) = return (some seconds)

  unfoldable pub parse_timeout : Option Text → Result (Option Text)
  unfolding strip
  parse_timeout none = return none
  parse_timeout (some raw) =
      if is_empty (strip raw) then return none else to_timeout (settings.float raw)

  abbrev some_text : Option Text → Option Text
  some_text none = none
  some_text (some []) = none
  some_text (some (c ∷ s)) = some (c ∷ s)

  abbrev then_result : {A B : Type 0} → Result A → (A → Result B) → Result B
  then_result (return a) f = f a
  then_result (raise e) f = raise e

  -- The configuration whose variables start with `base`, with the command that was found.
  unfoldable pub read_config : (base command : Text) → Result McpServerConfig
  unfolding parse_csv parse_csv_set parse_env_json parse_timeout
  read_config base command =
      then_result (parse_env_json (settings.getenv (base ++ codes "ENV_JSON"))) (λ env.
        then_result (parse_timeout (settings.getenv (base ++ codes "INIT_TIMEOUT_SECONDS")))
          (λ timeout. return (record {
            command = command;
            args = parse_csv (settings.getenv (base ++ codes "ARGS"));
            cwd = some_text (settings.getenv (base ++ codes "CWD"));
            env = env;
            allow = parse_csv_set (settings.getenv (base ++ codes "ALLOW"));
            block = parse_csv_set (settings.getenv (base ++ codes "BLOCK"));
            init_timeout_seconds = timeout;
          })))

  -- The loop over the indexes on fuel; `none` says that the environment has more commands than that.
  unfoldable pub load_from :
      ℕ → (prefix : Text) → (index : ℕ) → Option (Result (List McpServerConfig))
  unfolding read_config decimal
  load_from zero prefix index = none
  load_from (suc fuel) prefix index =
      let base = prefix ++ decimal index ++ codes "_" in
      let rest = load_from fuel prefix (index + 1) in
      elim (some_text (settings.getenv (base ++ codes "CMD"))) [
        | none ↦ some (return [])
        | some command ↦ elim (read_config base command) [
          | raise e ↦ some (raise e)
          | return config ↦ elim rest [
            | none ↦ none
            | some configs ↦ some (then_result configs (λ more. return (config ∷ more)))
          ]
        ]
      ]

  unfoldable pub load_agent_mcp_configs : ℕ → Text → Option (Result (List McpServerConfig))
  unfolding load_from
  load_agent_mcp_configs fuel agent_name =
      load_from fuel (codes "AGENT_" ++ agent_name ++ codes "_MCP_") 0
