-- ===== src/Core/FixScorer/Gate.antt =====
-- When core/fix_scorer.py opens a draft pull request, and how its score moves with the evidence.
use vishwakarma.Prelude.{ℕ, ◌≤◌, ◌≡◌, ◌↔◌, Bool, true, Option, arith}
use vishwakarma.Core.FixScorer.{
  FixDecision, RcaConfidence, rca_signal, is_localized, tests_signal, not_failed, score_fix,
  draft_pr,
}

module _ (rca : RcaConfidence) (exact pattern_matched : Bool) (files lines : ℕ) where
  -- A draft pull request is opened exactly when the score reaches the threshold, the diff has 1 to
  -- 3 files and 1 to 120 lines, and the tests are not known to fail.
  pub action-draft_pr_iff :
      (tests : Option Bool)
      → ((score_fix rca exact pattern_matched files lines tests).action ≡ draft_pr) ↔ (
          (70 ≤ (score_fix rca exact pattern_matched files lines tests).score)
          × (1 ≤ files)
          × (files ≤ 3)
          × (1 ≤ lines)
          × (lines ≤ 120)
          × (not_failed tests ≡ true))
  unfolding score_fix is_localized
  action-draft_pr_iff tests = (λ h. ground arith, λ h. ground arith)

abbrev pub Evidence : Type 0
Evidence = RcaConfidence × Bool × Bool × Option Bool

-- `b` is at least as good evidence as `a`, signal by signal.
pub record AtLeast (a b : Evidence) : Type 0 where
  pub rca : (rca_signal a.0).0 ≤ (rca_signal b.0).0
  pub exact : a.1 ≡ true → b.1 ≡ true
  pub pattern_matched : a.2 ≡ true → b.2 ≡ true
  pub tests : (tests_signal a.3).0 ≤ (tests_signal b.3).0
  pub kept : not_failed a.3 ≡ true → not_failed b.3 ≡ true

abbrev pub scored : Evidence → ℕ → ℕ → FixDecision
scored (rca, exact, pattern_matched, tests) files lines =
    score_fix rca exact pattern_matched files lines tests

-- With at least as much evidence for the same diff the score is at least as high, and where a
-- draft pull request was opened one is opened still.
pub score_fix_mono :
    (a b : Evidence) (files lines : ℕ)
    → AtLeast a b
    → ((scored a files lines).score ≤ (scored b files lines).score)
      × ((scored a files lines).action ≡ draft_pr → (scored b files lines).action ≡ draft_pr)
unfolding score_fix is_localized
score_fix_mono (ra, ea, pa, ta) (rb, eb, pb, tb) files lines h = (ground arith, λ p. ground arith)
