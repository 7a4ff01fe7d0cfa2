-- ===== src/Plugins/Bash/Unnamed.antt =====
-- The outputs of plugins/toolsets/bash/bash.py in the eyes of the loop guard of core/safeguards.py.
use vishwakarma.Prelude.{
  String, ◌≡◌, refl, inl, inr, true, false, not, List, [], ◌∷◌, arith, str_eq, Equality,
  Option-cases, all,
}
use vishwakarma.Core.Models.{ToolOutput}
use vishwakarma.Core.Safeguards.{has_previous_exact_same_tool_call}
use vishwakarma.Plugins.Bash.Rules.{Config, Matchers, is_allowed}
use vishwakarma.Plugins.Bash.Toolset.{Terminal, read_run, run_command, execute}

module _ {P W : Type 0} (config : Config) (m : Matchers) (t : Terminal P W) where
  -- the outputs of a row of calls, as the engine keeps them: with the id and the parameters
  abbrev pub kept_outputs : List (String × P) → W → List (ToolOutput P)
  kept_outputs [] w = []
  kept_outputs ((id, params) ∷ calls) w =
      let (output, w') = execute config m t "bash" params w in
      (record output { tool_call_id = id; params = params }) ∷ kept_outputs calls w'

  -- every call has a command
  abbrev pub AllGiven : List (String × P) → Type 0
  AllGiven calls = all (λ c. not (str_eq (m.strip (t.command c.1)) "")) calls ≡ true

  run_command-name :
      (command : String) (w : W) → (run_command config m t command w).0.tool_name ≡ ""
  unfolding run_command read_run
  run_command-name command w = elim (Option-cases (is_allowed config m command)) [
    | inl e ↦
        let ran = (t.run command w).0 in
        elim (Option-cases ran) [
          | inl none_ran ↦ ground (arith, e, none_ran)
          | inr (r, some_ran) ↦ ground (arith, e, some_ran)
        ]
    | inr (reason, e) ↦ ground (arith, e)
  ]

  execute-name :
      (p : P) (w : W)
      → not (str_eq (m.strip (t.command p)) "") ≡ true
      → (execute config m t "bash" p w).0.tool_name ≡ ""
  unfolding execute
  execute-name p w h = ground (arith, h, run_command-name (m.strip (t.command p)) w)

  not_bash : (name : String) → name ≡ "" → str_eq name "bash" ≡ false
  not_bash name h = rw h refl

  -- The history layer of the loop guard never finds a call of the bash tool, however often the same
  -- command ran before: an output that the bash toolset makes for a command does not bear its name.
  pub has_previous-kept_outputs :
      ⦃e : Equality P⦄
      → (calls : List (String × P)) (params : P) (w : W) → AllGiven calls
      → has_previous_exact_same_tool_call "bash" params (kept_outputs calls w) ≡ false
  unfolding has_previous_exact_same_tool_call
  has_previous-kept_outputs [] params w h = refl
  has_previous-kept_outputs ((id, p) ∷ calls) params w h = ground (
    arith,
    not_bash (execute config m t "bash" p w).0.tool_name (execute-name p w (ground arith)),
    has_previous-kept_outputs calls params (execute config m t "bash" p w).1,
  )
