-- ===== src/Core/Tools.antt =====
-- vishwakarma/core/tools.py: `ToolExecutor`, which finds the tool of a call and runs it. The handlers of Python tools, the shell, the filling in of a
-- command and the texts of JSON and lists are parameters; `W` is the state of the world.
mod Lookup
mod Tests
use vishwakarma.Prelude.{
  String, Bool, not, Option, none, some, List, [], ◌∷◌, map, str_eq, if◌then◌else◌, str_append,
}
use vishwakarma.Prelude.Dict
use vishwakarma.Prelude.Dict.{Dict}
use vishwakarma.Core.Models.{ToolOutput, ToolStatus, success, error, no_data}

-- what a handler returns: an output of its own, or a value that is shown as a text
pub data Handled (P : Type 0) : Type 0 where
  own : ToolOutput P → Handled P
  value : String → Handled P
  raises : String → Handled P

abbrev pub Handler : Type 0 → Type 0 → Type 0
Handler P W = P → W → Handled P × W

pub record ToolDef (P W : Type 0) : Type 0 where
  pub name : String
  pub command : Option String
  pub handler : Option (Handler P W)

-- `handle` is the toolset's `execute`
pub record Toolset (P W : Type 0) : Type 0 where
  pub name : String
  pub enabled : Bool
  pub tools : List (ToolDef P W)
  pub handle : String → Handler P W

-- how the process of a command ends, its texts stripped
pub data Process : Type 0 where
  exited : Bool → String → String → String → Process
  timed_out : Process
  broken : String → Process

-- a command with its parameters filled in, or the name of one that is missing
pub data Filled : Type 0 where
  filled missing : String → Filled

pub record Shell (P W : Type 0) : Type 0 where
  pub run : String → W → Process × W
  pub fill : String → P → Filled
  pub json : P → String
  pub keys : P → String
  pub listing : List String → String
  pub no_params : P

module _ {P W : Type 0} where
  -- a tool with neither handler nor command is handled by its toolset
  unfoldable pub wire : Toolset P W → ToolDef P W → ToolDef P W
  wire ts tool = elim tool.handler [
    | some h ↦ tool
    | none ↦ elim tool.command [
      | some c ↦ tool
      | none ↦ record tool { handler = some (ts.handle tool.name) }
    ]
  ]

  unfoldable pub index_tools :
      Toolset P W → List (ToolDef P W) → Dict (ToolDef P W) → Dict (ToolDef P W)
  unfolding wire
  index_tools ts [] index = index
  index_tools ts (tool ∷ tools) index =
      index_tools ts tools (Dict.put tool.name (wire ts tool) index)

  unfoldable pub rebuild_index : List (Toolset P W) → Dict (ToolDef P W) → Dict (ToolDef P W)
  unfolding index_tools
  rebuild_index [] index = index
  rebuild_index (ts ∷ toolsets) index =
      rebuild_index toolsets (if ts.enabled then index_tools ts ts.tools index else index)

module _ {P W : Type 0} (shell : Shell P W) where
  -- ToolOutput(tool_call_id="", ...)
  abbrev pub output_of : String → ToolStatus → Option String → Option String → String → ToolOutput P
  output_of name status output err invocation = record {
    tool_call_id = "";
    tool_name = name;
    description = "";
    status = status;
    output = output;
    error = err;
    invocation = invocation;
    token_count = 0;
    params = shell.no_params;
  }

  abbrev pub quoted : String → String → String → String
  quoted before name after = str_append before (str_append name after)

  unfoldable pub run_python : ToolDef P W → Handler P W → P → W → ToolOutput P × W
  run_python tool handler params w =
      let (result, w') = handler params w in
      let invocation = quoted tool.name "(" (str_append (shell.json params) ")") in
      (
        elim result [
          | own output ↦ output
          | value text ↦ output_of tool.name success (some text) none invocation
          | raises e ↦ output_of tool.name error none (some e) invocation
        ],
        w',
      )

  abbrev failure : String → String → String
  failure cmd detail = quoted "Command failed: " detail (str_append "\nCommand: " cmd)

  -- what is made of the process of `cmd`
  unfoldable pub read_process : String → String → Process → ToolOutput P
  read_process name cmd timed_out = output_of name error none (some "Tool timed out after 60s") ""
  read_process name cmd (broken e) = output_of name error none (some e) ""
  read_process name cmd (exited ok code out err) =
      if not ok
      then output_of name error none
          (some (failure cmd (if str_eq err "" then str_append "Exit code " code else err))) cmd
      else if str_eq out ""
      then output_of name no_data (some "") none cmd
      else output_of name success (some out) none cmd

  unfoldable pub run_shell : ToolDef P W → String → P → W → ToolOutput P × W
  unfolding read_process
  run_shell tool command params w = elim (shell.fill command params) [
    | missing e ↦ (
      output_of tool.name error none
          (some (
            quoted (quoted "Missing required parameter " e " for tool '") tool.name
              (str_append "'. Provided: " (shell.keys params))))
          command,
      w,
    )
    | filled cmd ↦ let (process, w') = shell.run cmd w in (read_process tool.name cmd process, w')
  ]

  -- a command that is the empty text counts as none
  unfoldable pub run_tool : ToolDef P W → P → W → ToolOutput P × W
  unfolding run_python run_shell
  run_tool tool params w =
      let nothing : ToolOutput P × W = (
        output_of tool.name error none
            (some (quoted "Tool '" tool.name "' has no handler or command defined.")) "",
        w,
      ) in
      elim tool.handler [
        | some h ↦ run_python tool h params w
        | none ↦ elim tool.command [
          | some c ↦ if str_eq c "" then nothing else run_shell tool c params w
          | none ↦ nothing
        ]
      ]

  unfoldable pub execute : Dict (ToolDef P W) → String → P → W → ToolOutput P × W
  unfolding run_tool
  execute index tool_name params w = elim (Dict.get tool_name index) [
    | some tool ↦ run_tool tool params w
    | none ↦ (
      output_of tool_name error none
          (some (
            quoted "Tool '" tool_name
              (str_append "' not found. Available: " (shell.listing (map (λ e. e.0) index)))))
          "",
      w,
    )
  ]
