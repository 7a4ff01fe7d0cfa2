-- ===== src/Core/Tools/Lookup.antt =====
-- Which calls core/tools.py finds a tool for.
use vishwakarma.Prelude.{
  String, ◌≡◌, refl, Bool, true, false, ◌&&◌, ◌||◌, none, some, List, [], ◌∷◌, arith, str_eq, any,
}
use vishwakarma.Prelude.Dict
use vishwakarma.Prelude.Dict.{Dict, get-put}
use vishwakarma.Core.Tools.{ToolDef, Toolset, wire, index_tools, rebuild_index}

module _ {P W : Type 0} where
  -- the tool has the name of its entry, and something to run
  abbrev pub runs : ToolDef P W → Bool
  runs tool = elim tool.handler [
    | some h ↦ true
    | none ↦ elim tool.command [ some c ↦ true | none ↦ false ]
  ]

  -- whether the name stands for a tool that has something to run
  abbrev pub found : String → Dict (ToolDef P W) → Bool
  found name index = elim (Dict.get name index) [ none ↦ false | some tool ↦ runs tool ]

  abbrev pub names : String → List (ToolDef P W) → Bool
  names name tools = any (λ t. str_eq t.name name) tools

  wire-runs : (ts : Toolset P W) (tool : ToolDef P W) → runs (wire ts tool) ≡ true
  unfolding wire
  wire-runs ts tool = ground arith

  found-index_tools :
      (name : String) (ts : Toolset P W) (tools : List (ToolDef P W)) (index : Dict (ToolDef P W))
      → found name (index_tools ts tools index) ≡ names name tools || found name index
  unfolding index_tools
  found-index_tools name ts [] index = refl
  found-index_tools name ts (tool ∷ tools) index = ground (
    arith,
    wire-runs ts tool,
    get-put tool.name name (wire ts tool) index,
    found-index_tools name ts tools (Dict.put tool.name (wire ts tool) index),
  )

  -- A name is found in the index exactly when an enabled toolset lists a tool of it, or it was found
  -- before, and the tool that is found has a handler or a command to run.
  pub found-rebuild_index :
      (name : String) (toolsets : List (Toolset P W)) (index : Dict (ToolDef P W))
      → found name (rebuild_index toolsets index)
        ≡ any (λ ts. ts.enabled && names name ts.tools) toolsets || found name index
  unfolding rebuild_index
  found-rebuild_index name [] index = refl
  found-rebuild_index name (ts ∷ toolsets) index = ground (
    arith,
    found-index_tools name ts ts.tools index,
    found-rebuild_index name toolsets (index_tools ts ts.tools index),
    found-rebuild_index name toolsets index,
  )
