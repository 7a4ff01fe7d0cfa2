-- ===== src/Core/FixScorer.antt =====
-- vishwakarma/core/fix_scorer.py. A score is counted in hundredths, which the source's weights and
-- thresholds are multiples of.
mod Gate
mod Tests
use vishwakarma.Prelude.{
  ℕ, ◌+◌, Bool, true, false, not, ◌&&◌, Option, none, some, List, [], ◌∷◌, ◌++◌, ltb, leb, nat_eq,
  if◌then◌else◌,
}

abbrev pub w_rca_high : ℕ
w_rca_high = 30

abbrev pub w_rca_medium : ℕ
w_rca_medium = 12

abbrev pub w_exact_line : ℕ
w_exact_line = 20

abbrev pub w_pattern : ℕ
w_pattern = 15

abbrev pub w_localized : ℕ
w_localized = 20

abbrev pub w_tests : ℕ
w_tests = 15

abbrev pub draft_pr_threshold : ℕ
draft_pr_threshold = 70

abbrev pub localized_max_files : ℕ
localized_max_files = 3

abbrev pub localized_max_lines : ℕ
localized_max_lines = 120

pub data Confidence : Type 0 where
  high medium low : Confidence

-- the upper-cased `rca_confidence`; `other` is any text but the two that are tested for
pub data RcaConfidence : Type 0 where
  rca_high rca_medium other : RcaConfidence

pub data Action : Type 0 where
  draft_pr propose_only : Action

pub data Reason : Type 0 where
  rca_high_confidence rca_medium_confidence exact_line_identified confirmed_pattern_matched : Reason
  localized_diff broad_diff : ℕ → ℕ → Reason
  tests_pass tests_fail gate_not_met : Reason

pub record FixDecision : Type 0 where
  pub score : ℕ
  pub confidence : Confidence
  pub action : Action
  pub reasons : List Reason

-- what one signal adds to the score and to the reasons
abbrev pub Signal : Type 0
Signal = ℕ × List Reason

unfoldable pub rca_signal : RcaConfidence → Signal
rca_signal rca_high = (w_rca_high, rca_high_confidence ∷ [])
rca_signal rca_medium = (w_rca_medium, rca_medium_confidence ∷ [])
rca_signal other = (0, [])

unfoldable pub is_localized : ℕ → ℕ → Bool
is_localized diff_files diff_lines =
    ltb 0 diff_files
    && leb diff_files localized_max_files
    && ltb 0 diff_lines
    && leb diff_lines localized_max_lines

unfoldable pub diff_signal : ℕ → ℕ → Signal
unfolding is_localized
diff_signal diff_files diff_lines =
    if is_localized diff_files diff_lines
    then (w_localized, localized_diff diff_files diff_lines ∷ [])
    else if not (nat_eq diff_files 0)
    then (0, broad_diff diff_files diff_lines ∷ [])
    else (0, [])

unfoldable pub tests_signal : Option Bool → Signal
tests_signal none = (0, [])
tests_signal (some true) = (w_tests, tests_pass ∷ [])
tests_signal (some false) = (0, tests_fail ∷ [])

-- `tests_passed is not False`
unfoldable pub not_failed : Option Bool → Bool
not_failed none = true
not_failed (some b) = b

unfoldable pub confidence_of : ℕ → Confidence
confidence_of score =
    if leb draft_pr_threshold score then high else if leb 40 score then medium else low

unfoldable pub score_fix : RcaConfidence → Bool → Bool → ℕ → ℕ → Option Bool → FixDecision
unfolding rca_signal diff_signal tests_signal not_failed confidence_of
score_fix rca_confidence exact_line_found pattern_matched diff_files diff_lines tests_passed =
    let rca = rca_signal rca_confidence in
    let exact : Signal =
      (if exact_line_found then (w_exact_line, exact_line_identified ∷ []) else (0, [])) in
    let pattern_ : Signal =
      (if pattern_matched then (w_pattern, confirmed_pattern_matched ∷ []) else (0, [])) in
    let diff = diff_signal diff_files diff_lines in
    let tests = tests_signal tests_passed in
    let score = rca.0 + exact.0 + pattern_.0 + diff.0 + tests.0 in
    let can_pr =
      leb draft_pr_threshold score
      && is_localized diff_files diff_lines
      && not_failed tests_passed in
    let gate : List Reason =
      (if not can_pr && leb draft_pr_threshold score then gate_not_met ∷ [] else []) in
    record {
      score = score;
      confidence = confidence_of score;
      action = (if can_pr then draft_pr else propose_only);
      reasons = rca.1 ++ (exact.1 ++ (pattern_.1 ++ (diff.1 ++ (tests.1 ++ gate))));
    }
