-- ===== src/Plugins/Bash/Toolset.antt =====
-- `BashToolset.execute` of plugins/toolsets/bash/bash.py. The shell is a parameter, which may raise,
-- as are `lower`, the reading of the missing tool's name off an error, and the texts of an error.
use vishwakarma.Prelude.{
  ℕ, String, not, ◌&&◌, ◌||◌, Option, none, some, str_eq, nat_eq, if◌then◌else◌, str_append,
}
use vishwakarma.Core.Models.{ToolOutput, ToolStatus, success, error, no_data}
use vishwakarma.Plugins.Bash.Rules.{Config, Matchers, Reason, occurs, is_allowed}
use vishwakarma.Plugins.Bash.Shell.{Ran}

pub data Hint : Type 0 where
  no_hint unreachable read_only : Hint
  not_installed : String → Hint

-- what an error tells the model
pub data Failure : Type 0 where
  unknown_tool : String → Failure
  refused : Reason → Failure
  exited : ℕ → String → String → Hint → Failure
  broken : Failure

-- `command` is `params.get("command", "")`
pub record Terminal (P W : Type 0) : Type 0 where
  pub run : String → W → Option Ran × W
  pub command : P → String
  pub lower : String → String
  pub missing_tool : String → String
  pub render : Failure → String
  pub no_params : P

module _ {P W : Type 0} (config : Config) (m : Matchers) (t : Terminal P W) where
  -- ToolOutput(status=..., ...): the name of the tool is not given
  abbrev unnamed : ToolStatus → Option String → Option String → String → ToolOutput P
  unnamed status out err invocation = record {
    tool_call_id = "";
    tool_name = "";
    description = "";
    status = status;
    output = out;
    error = err;
    invocation = invocation;
    token_count = 0;
    params = t.no_params;
  }

  abbrev shown_as : String → String
  shown_as command = str_append "bash(" (str_append command ")")

  unfoldable pub hint_for : String → String → Hint
  hint_for command stderr =
      let low = t.lower stderr in
      if occurs "command not found" low
      then not_installed (t.missing_tool stderr)
      else if occurs "no such host" low
          || (occurs "could not resolve" low || occurs "connection refused" low)
      then unreachable
      else if occurs "forbidden" low || (occurs "cannot " low && occurs "kubectl" (t.lower command))
      then read_only
      else no_hint

  unfoldable pub read_run : String → Option Ran → ToolOutput P
  unfolding hint_for
  read_run command none = unnamed error none (some (t.render broken)) (shown_as command)
  read_run command (some ran) =
      if not (nat_eq ran.exit_code 0)
      then unnamed error none
          (some
            (t.render (exited ran.exit_code ran.stderr ran.stdout (hint_for command ran.stderr))))
          (shown_as command)
      else if str_eq (m.strip ran.stdout) ""
      then unnamed no_data none none (shown_as command)
      else unnamed success (some ran.stdout) none (shown_as command)

  -- a stripped command that is not empty; `command[:100]` of a refused one is shown whole here
  unfoldable pub run_command : String → W → ToolOutput P × W
  unfolding read_run
  run_command command w = elim (is_allowed config m command) [
    | some reason ↦ (unnamed error none (some (t.render (refused reason))) (shown_as command), w)
    | none ↦ let (ran, w') = t.run command w in (read_run command ran, w')
  ]

  unfoldable pub execute : String → P → W → ToolOutput P × W
  unfolding run_command
  execute tool_name params w =
      let command = m.strip (t.command params) in
      if not (str_eq tool_name "bash")
      then (unnamed error none (some (t.render (unknown_tool tool_name))) "", w)
      else if str_eq command ""
      then (
        record (unnamed no_data (some "(empty command — nothing to run)") none "") {
          tool_name = "bash";
        },
        w,
      )
      else run_command command w
