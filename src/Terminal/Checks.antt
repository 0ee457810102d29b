-- ===== src/Terminal/Checks.antt =====
-- A concrete tool and a concrete command.
use magent.Prelude.{◌≡◌, refl, true, false, Option, none, some, List, [], ◌∷◌, Text, codes, pos}
use magent.Prelude.Exec.{Exec, return, raise}
use magent.Terminal.Policy.{
  Parts, Output, System, TerminalTool, refused, combine_streams, truncate_to_bytes, check_command,
  report_of,
}
use magent.Terminal.Capped.{IsCut, report_fits}
use magent.Terminal.Guarded.{Guarded}

-- The world is the list of the processes that were started.
abbrev World : Type 0
World = List (List Text × Option Parts)

-- A process that prints its command and succeeds.
abbrev started : List Text → Option Parts → Exec World Output
started argv dir w = (
  return (record {
    stdout = codes "done";
    stderr = [];
    exit_code = pos 0;
    timeout = false;
    duration_ms = 3;
  }),
  (argv, dir) ∷ w,
)

-- A splitter that takes the whole command for one token, and paths of one part.
abbrev simple_shell : System World
simple_shell = record {
  split = λ command. return (command ∷ []);
  parse = λ text. text ∷ [];
  resolve = λ path w. return path;
  execute_command = λ argv dir env w. started argv dir w;
  redact_output = λ text. text;
}

abbrev ls_tool : TerminalTool
ls_tool = record {
  allowed_commands = codes "ls" ∷ codes "rm" ∷ [];
  output_cap_bytes = 2;
  extra_env = [];
  deny_command_prefixes = codes "rm" ∷ [];
  sandbox_root = some (codes "/" ∷ codes "work" ∷ []);
}

check_allowed :
    check_command simple_shell ls_tool (codes "/bin/ls") (some (codes "notes")) []
    ≡ return (codes "/bin/ls" ∷ [], some (codes "/" ∷ codes "work" ∷ codes "notes" ∷ []))
unfolding check_command
check_allowed = refl

check_denied :
    check_command simple_shell ls_tool (codes "/bin/rm") none []
    ≡ raise (refused (codes "Command 'rm' is denied by policy"))
unfolding check_command
check_denied = refl

check_outside :
    check_command simple_shell ls_tool (codes "ls") (some (codes "/etc")) []
    ≡ raise (refused (codes "Working directory escapes sandbox root"))
unfolding check_command
check_outside = refl

cut_inside_character : truncate_to_bytes (97 ∷ 233 ∷ 98 ∷ []) 2 ≡ (97 ∷ [], true)
unfolding truncate_to_bytes
cut_inside_character = refl

surrogates_do_not_count : truncate_to_bytes (97 ∷ 55296 ∷ []) 1 ≡ (97 ∷ 55296 ∷ [], false)
unfolding truncate_to_bytes
surrogates_do_not_count = refl

streams_on_lines : combine_streams (codes "out") (codes "err") ≡ codes "out\nerr"
unfolding combine_streams
streams_on_lines = refl

abbrev printed : Output
printed = record {
  stdout = codes "done";
  stderr = codes "late";
  exit_code = pos 0;
  timeout = false;
  duration_ms = 3;
}

report_fits_example :
    IsCut
      (codes "done\nlate")
      2
      (report_of simple_shell ls_tool printed).stdout
      (report_of simple_shell ls_tool printed).truncated
unfolding combine_streams
report_fits_example = report_fits simple_shell ls_tool printed
