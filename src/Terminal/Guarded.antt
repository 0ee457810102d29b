-- ===== src/Terminal/Guarded.antt =====
-- What holds of every command that `run` starts.
use magent.Prelude.{
  ◌≡◌, true, false, Option, none, some, List, ◌∷◌, Text, any, has_text, starts_with,
}
use magent.Terminal.Policy.{Parts, TerminalTool, basename, is_under}

-- With a sandbox, the process has a directory, and it is in the sandbox.
abbrev pub Confined : Option Parts → Option Parts → Type 0
Confined none dir = Unit
Confined (some root) none = ⊥
Confined (some root) (some dir) = is_under root dir ≡ true

pub record Guarded (tool : TerminalTool) (argv : List Text) (dir : Option Parts) : Type 0 where
  pub raw : Text
  pub rest : List Text
  pub command : argv ≡ raw ∷ rest
  pub allowed : has_text (basename raw) tool.allowed_commands ≡ true
  pub not_denied :
      any (λ prefix. starts_with prefix (basename raw)) tool.deny_command_prefixes ≡ false
  pub confined : Confined tool.sandbox_root dir
