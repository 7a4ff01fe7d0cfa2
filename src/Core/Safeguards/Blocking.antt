-- ===== src/Core/Safeguards/Blocking.antt =====
-- Which calls the guard of core/safeguards.py refuses, over one call and over a session.
use vishwakarma.Prelude.{
  ℕ, ◌+◌, ◌<◌, String, ◌≡◌, ◌↔◌, Bool, true, false, List, [], ◌∷◌, arith, if◌then◌else◌, str_eq,
  Equality,
}
use vishwakarma.Prelude.Dict
use vishwakarma.Core.Models.{ToolOutput}
use vishwakarma.Core.Safeguards.{
  LoopGuard, Verdict, allowed, count_of, has_previous_exact_same_tool_call, is_allowed,
}

-- the guard after the count of `k` is set
abbrev counted : LoopGuard → String → ℕ → LoopGuard
counted g k n = record g { counts = Dict.put k n g.counts }

module _ {P : Type 0} ⦃e : Equality P⦄ (fingerprint : String → P → String) where
  -- With the guard enabled, a call is allowed exactly when no earlier output of the session has its
  -- tool and parameters and its digest was counted fewer times than the limit.
  pub is_allowed-allowed_iff :
      (g : LoopGuard) (name : String) (p : P) (outputs : List (ToolOutput P))
      → ((is_allowed true fingerprint g name p outputs).1 ≡ allowed) ↔ (
          (has_previous_exact_same_tool_call name p outputs ≡ false)
          × (count_of g (fingerprint name p) < g.max_identical))
  unfolding is_allowed
  is_allowed-allowed_iff g name p outputs = (λ h. ground arith, λ h. ground arith)

  -- How many of the calls are allowed under the digest `fp`, from the guard on.
  abbrev tally : Verdict → Bool → ℕ
  tally allowed same = if same then 1 else 0
  tally _ same = 0

  unfoldable pub granted : String → LoopGuard → List (String × P × List (ToolOutput P)) → ℕ
  granted fp g [] = 0
  granted fp g ((name, p, outputs) ∷ calls) =
      let (g', v) = is_allowed true fingerprint g name p outputs in
      tally v (str_eq (fingerprint name p) fp) + granted fp g' calls
