-- ===== src/Core/FixScorer/Tests.antt =====
-- Runs of core/fix_scorer.py.
use vishwakarma.Prelude.{◌≤◌, ◌≡◌, refl, ◌↔◌, true, false, none, some, [], ◌∷◌, arith}
use vishwakarma.Core.FixScorer.{
  rca_signal, is_localized, tests_signal, not_failed, score_fix, high, rca_high, rca_medium,
  draft_pr, rca_high_confidence, exact_line_identified, localized_diff,
}
use vishwakarma.Core.FixScorer.Gate.{AtLeast, action-draft_pr_iff, Evidence}

-- A diff that no test has checked still becomes a draft pull request.
score_fix_untested : score_fix rca_high true false 1 10 none ≡ record {
  score = 70;
  confidence = high;
  action = draft_pr;
  reasons = rca_high_confidence ∷ exact_line_identified ∷ localized_diff 1 10 ∷ [];
}
unfolding score_fix is_localized
score_fix_untested = refl

action-draft_pr_iff_example : ((score_fix rca_high true false 1 10 none).action ≡ draft_pr) ↔ (
    (70 ≤ (score_fix rca_high true false 1 10 none).score)
    × (1 ≤ 1)
    × (1 ≤ 3)
    × (1 ≤ 10)
    × (10 ≤ 120)
    × (not_failed none ≡ true))
action-draft_pr_iff_example = action-draft_pr_iff rca_high true false 1 10 none

abbrev weaker : Evidence
weaker = (rca_medium, true, false, none)

abbrev stronger : Evidence
stronger = (rca_high, true, true, some true)

stronger-AtLeast : AtLeast weaker stronger
unfolding rca_signal tests_signal not_failed
stronger-AtLeast = record {
  rca = omega arith;
  exact = λ _. refl;
  pattern_matched = λ _. refl;
  tests = omega arith;
  kept = λ _. refl;
}
