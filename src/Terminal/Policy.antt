-- ===== src/Terminal/Policy.antt =====
-- `TerminalTool`: its checks, the working directory, and `run`. The process is a parameter, as are
-- shlex, the resolution of paths in the file system, and the patterns of secrets.
use magent.Prelude.{
  ℕ, zero, Bool, true, false, not, ◌&&◌, ◌||◌, Option, none, some, List, [], ◌∷◌, ◌++◌, any,
  reverse, leb, ◌==◌, if◌then◌else◌, Text, codes, has_text, same_text, starts_with, strip, is_empty,
  Dict, insert, ℤ, pos,
}
use magent.Prelude.Exec.{Exec, Exception, value_error, permission_error, Result, return, raise}
use magent.Gateway.Sse.{is_surrogate, utf8_length, take_bytes}

-- A path is the list of its parts, as in `Path.parts`: an absolute path has the part "/" first.
abbrev pub Parts : Type 0
Parts = List Text

pub record Output : Type 0 where
  pub stdout : Text
  pub stderr : Text
  pub exit_code : ℤ
  pub timeout : Bool
  pub duration_ms : ℕ

pub record System (W : Type 0) : Type 0 where
  -- `shlex.split`, which may raise a ValueError.
  pub split : Text → Result (List Text)
  -- `Path(text)`, and `path.resolve()`, which reads the file system and may raise.
  pub parse : Text → Parts
  pub resolve : Parts → W → Result Parts
  -- `_execute_command`: Popen with a timeout.
  pub execute_command :
      (argv : List Text) → (working_dir : Option Parts) → (env : Dict Text) → Exec W Output
  -- The built-in patterns, replaced.
  pub redact_output : Text → Text

-- What the constructor keeps; `sandbox_root` is resolved.
pub record TerminalTool : Type 0 where
  pub allowed_commands : List Text
  pub output_cap_bytes : ℕ
  pub extra_env : Dict Text
  pub deny_command_prefixes : List Text
  pub sandbox_root : Option Parts

pub record Report : Type 0 where
  pub ok : Bool
  pub exit_code : ℤ
  pub timeout : Bool
  pub stdout : Text
  pub truncated : Bool
  pub duration_ms : ℕ

abbrev pub refused : Text → Exception
refused message = record { kind = permission_error; message = message }

abbrev pub bad_command : Text → Exception
bad_command message = record { kind = value_error; message = message }

abbrev until_slash : Text → Text
until_slash [] = []
until_slash (c ∷ s) = let rest = until_slash s in if c == b'/' then [] else c ∷ rest

-- os.path.basename
unfoldable pub basename : Text → Text
basename path = reverse (until_slash (reverse path))

unfoldable pub is_denied : List Text → Text → Bool
unfolding basename starts_with
is_denied prefixes raw =
    any (λ prefix. starts_with prefix (basename raw) || starts_with prefix raw) prefixes

abbrev pub check_not_denied : List Text → Result (List Text) → Result (Unit {0})
check_not_denied prefixes (raise e) = raise e
check_not_denied prefixes (return []) = raise (bad_command (codes "Empty command"))
check_not_denied prefixes (return (raw ∷ rest)) =
    if is_denied prefixes raw
    then raise (refused (codes "Command '" ++ basename raw ++ codes "' is denied by policy"))
    else return tt

-- Without prefixes, the command is not even split.
unfoldable pub assert_not_denied : List Text → Result (List Text) → Result (Unit {0})
unfolding is_denied
assert_not_denied [] tokens = return tt
assert_not_denied (prefix ∷ prefixes) tokens = check_not_denied (prefix ∷ prefixes) tokens

unfoldable pub assert_allowed : List Text → Result (List Text) → Result (Unit {0})
unfolding basename has_text
assert_allowed allowed (raise e) = raise e
assert_allowed allowed (return []) = raise (bad_command (codes "Empty command"))
assert_allowed allowed (return (raw ∷ rest)) =
    if has_text (basename raw) allowed
    then return tt
    else raise (refused (codes "Command '" ++ basename raw ++ codes "' is not allowed"))

-- `path.relative_to(root)` does not raise.
unfoldable pub is_under : Parts → Parts → Bool
unfolding same_text
is_under [] path = true
is_under (part ∷ root) [] = false
is_under (part ∷ root) (p ∷ path) = same_text part p && is_under root path

abbrev pub inside : Parts → Parts → Result (Option Parts)
inside root candidate =
    if is_under root candidate
    then return (some candidate)
    else raise (refused (codes "Working directory escapes sandbox root"))

abbrev pub or_newline : Text → Text
or_newline [] = []
or_newline (c ∷ s) = if c == 10 then [] else 10 ∷ []

unfoldable pub combine_streams : Text → Text → Text
combine_streams stdout [] = stdout
combine_streams [] (c ∷ stderr) = c ∷ stderr
combine_streams (d ∷ stdout) (c ∷ stderr) =
    (d ∷ stdout) ++ (or_newline (reverse (d ∷ stdout)) ++ (c ∷ stderr))

-- What `encode("utf-8", errors="ignore")` keeps.
abbrev pub encodable : Text → Text
encodable [] = []
encodable (c ∷ s) = let rest = encodable s in if is_surrogate c then rest else c ∷ rest

-- A character that is cut is dropped.
unfoldable pub truncate_to_bytes : Text → ℕ → Text × Bool
unfolding utf8_length take_bytes
truncate_to_bytes text limit_bytes =
    let data_text = encodable text in
    if leb (utf8_length data_text) limit_bytes
    then (text, false)
    else (take_bytes limit_bytes data_text, true)

abbrev is_zero : ℤ → Bool
is_zero (pos zero) = true
is_zero _ = false

abbrev injected : Dict Text → Dict Text → Dict Text
injected [] env = env
injected ((k, v) ∷ extra) env = injected extra (insert k v env)

unfoldable pub sanitize_env : TerminalTool → Dict Text
sanitize_env tool =
    injected tool.extra_env
      ((codes "PATH", codes "/usr/bin:/bin:/usr/local/bin") ∷ (codes "LC_ALL", codes "C") ∷ [])

module _ {W : Type 0} (system : System W) (tool : TerminalTool) where
  abbrev pub then_result : {A B : Type 0} → Result A → (A → Result B) → Result B
  then_result (return a) f = f a
  then_result (raise e) f = raise e

  abbrev pub in_root : Parts → Text → W → Result (Option Parts)
  in_root root cwd w =
      if is_empty (strip cwd)
      then return (some root)
      else if starts_with (codes "/") cwd
      then then_result (system.resolve (system.parse cwd) w) (inside root)
      else then_result (system.resolve (root ++ system.parse cwd) w) (inside root)

  abbrev pub in_sandbox : Option Parts → Option Text → W → Result (Option Parts)
  in_sandbox none none w = return none
  in_sandbox none (some cwd) w = return (some (system.parse cwd))
  in_sandbox (some root) none w = return (some root)
  in_sandbox (some root) (some cwd) w = in_root root cwd w

  unfoldable pub resolve_working_dir : Option Text → W → Result (Option Parts)
  unfolding is_under strip starts_with
  resolve_working_dir cwd w = in_sandbox tool.sandbox_root cwd w

  -- What is checked before a process starts: the arguments and the directory that it gets.
  unfoldable pub check_command : Text → Option Text → W → Result (List Text × Option Parts)
  unfolding assert_not_denied assert_allowed resolve_working_dir
  check_command command cwd w =
      let tokens = system.split command in
      then_result (assert_not_denied tool.deny_command_prefixes tokens) (λ u.
        then_result (assert_allowed tool.allowed_commands tokens) (λ u'.
          then_result (resolve_working_dir cwd w)
            (λ dir. then_result tokens (λ argv. return (argv, dir)))))

  unfoldable pub report_of : Output → Report
  unfolding combine_streams truncate_to_bytes
  report_of out =
      let (text, truncated) =
        truncate_to_bytes (system.redact_output (combine_streams out.stdout out.stderr))
          tool.output_cap_bytes in
      record {
        ok = is_zero out.exit_code && not out.timeout;
        exit_code = out.exit_code;
        timeout = out.timeout;
        stdout = text;
        truncated = truncated;
        duration_ms = out.duration_ms;
      }

  abbrev reported : Result Output × W → Result Report × W
  reported (return out, w) = (return (report_of out), w)
  reported (raise e, w) = (raise e, w)

  abbrev pub execute : List Text → Option Parts → Exec W Report
  execute argv dir w = reported (system.execute_command argv dir (sanitize_env tool) w)

  abbrev pub run_checked : Result (List Text × Option Parts) → Exec W Report
  run_checked (return (argv, dir)) w = execute argv dir w
  run_checked (raise e) w = (raise e, w)

  unfoldable pub run : (command : Text) → (cwd : Option Text) → Exec W Report
  unfolding check_command report_of sanitize_env
  run command cwd w = run_checked (check_command command cwd w) w
