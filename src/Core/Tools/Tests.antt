-- ===== src/Core/Tools/Tests.antt =====
-- Runs of core/tools.py.
use vishwakarma.Prelude.{ℕ, suc, ◌≡◌, refl, true, false, none, some, [], ◌∷◌}
use vishwakarma.Prelude.Dict
use vishwakarma.Prelude.Dict.{Dict}
use vishwakarma.Core.Models.{ToolOutput, ToolStatus, success, error}
use vishwakarma.Core.Tools.{
  ToolDef, Toolset, Shell, wire, index_tools, rebuild_index, run_python, read_process, run_shell,
  run_tool, execute, value, exited, filled,
}

program : Unit {0}
unfolding Dict.get Dict.put wire index_tools rebuild_index run_python read_process run_shell
    run_tool execute
program = tt

abbrev sh : Shell ℕ ℕ
sh = record {
  run = λ cmd w. (exited true "0" "pods" "", suc w);
  fill = λ c p. filled c;
  json = λ p. "{}";
  keys = λ p. "[]";
  listing = λ ns. "[]";
  no_params = 0;
}

abbrev shell_tool : ToolDef ℕ ℕ
shell_tool = record { name = "pods"; command = some "kubectl get pods"; handler = none }

abbrev plain_tool : ToolDef ℕ ℕ
plain_tool = record { name = "logs"; command = none; handler = none }

abbrev kube : Toolset ℕ ℕ
kube = record {
  name = "kube";
  enabled = true;
  tools = shell_tool ∷ plain_tool ∷ [];
  handle = λ name p w. (value name, w);
}

abbrev off : Toolset ℕ ℕ
off = record kube { name = "off"; enabled = false; tools = record plain_tool { name = "sql" } ∷ [] }

abbrev status_of : ToolOutput ℕ × ℕ → ToolStatus × ℕ
status_of (o, w) = (o.status, w)

by_shell : status_of (execute sh (rebuild_index (kube ∷ off ∷ []) []) "pods" 1 0) ≡ (success, 1)
unfolding program
by_shell = refl

by_toolset : (execute sh (rebuild_index (kube ∷ off ∷ []) []) "logs" 1 0).0.output ≡ some "logs"
unfolding program
by_toolset = refl

not_enabled : status_of (execute sh (rebuild_index (kube ∷ off ∷ []) []) "sql" 1 0) ≡ (error, 0)
unfolding program
not_enabled = refl
