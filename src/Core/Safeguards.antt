-- ===== src/Core/Safeguards.antt =====
-- vishwakarma/core/safeguards.py: the guard that refuses repeated tool calls. The digest of the
-- standard library is a parameter, and a refusal carries what its message is made of.
mod Blocking
mod Tests
use vishwakarma.Prelude.{
  ℕ, ◌+◌, String, Bool, true, false, not, ◌&&◌, Option, none, some, List, [], ltb, any,
  if◌then◌else◌, str_eq, Equality,
}
use vishwakarma.Prelude.Dict
use vishwakarma.Prelude.Dict.{Dict}
use vishwakarma.Core.Models.{ToolOutput}

abbrev pub max_identical_calls : ℕ
max_identical_calls = 2

pub data Verdict : Type 0 where
  allowed : Verdict
  already_called : String → Verdict
  too_many : String → ℕ → Verdict

pub record LoopGuard : Type 0 where
  pub counts : Dict ℕ
  pub max_identical : ℕ

unfoldable pub new_guard : ℕ → LoopGuard
new_guard n = record { counts = []; max_identical = n }

unfoldable pub reset : LoopGuard → LoopGuard
reset g = record g { counts = [] }

-- self._counts.get(fp, 0)
unfoldable pub count_of : LoopGuard → String → ℕ
count_of g fp = elim (Dict.get fp g.counts) [ none ↦ 0 | some n ↦ n ]

module _ {P : Type 0} ⦃e : Equality P⦄ where
  -- the test of the loop over `tool_outputs`
  unfoldable pub has_previous_exact_same_tool_call : String → P → List (ToolOutput P) → Bool
  has_previous_exact_same_tool_call tool_name params tool_outputs =
      any (λ o. str_eq o.tool_name tool_name && e.equal o.params params) tool_outputs

  module _ (enabled : Bool) (fingerprint : String → P → String) where
    -- the second layer: count the call, and compare with the limit
    unfoldable pub count_call : LoopGuard → String → P → LoopGuard × Verdict
    count_call g tool_name params =
        let fp = fingerprint tool_name params in
        let count = count_of g fp + 1 in
        let g' = record g { counts = Dict.put fp count g.counts } in
        if ltb g.max_identical count then (g', too_many tool_name count) else (g', allowed)

    -- `tool_outputs` is [] where the source passes None
    unfoldable pub is_allowed : LoopGuard → String → P → List (ToolOutput P) → LoopGuard × Verdict
    unfolding count_call has_previous_exact_same_tool_call
    is_allowed g tool_name params tool_outputs =
        if not enabled
        then (g, allowed)
        else if has_previous_exact_same_tool_call tool_name params tool_outputs
        then (g, already_called tool_name)
        else count_call g tool_name params
