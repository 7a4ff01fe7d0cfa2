-- ===== src/Core/EvalHarness.antt =====
-- vishwakarma/core/eval_harness.py: the scoring of the agent against incidents of known root cause.
-- The regular expressions and `lower` are parameters: `find_confidence` is the first match of
-- `_CONF_RE` in capitals and `words` is `re.findall`. A ratio is its numerator and denominator.
mod Levels
mod Tests
use vishwakarma.Prelude.{
  ℕ, zero, suc, ◌+◌, ◌*◌, String, Bool, true, false, not, ◌&&◌, ◌||◌, Option, none, some, List, [],
  ◌∷◌, ◌++◌, map, ltb, leb, if◌then◌else◌, length, keep, take,
}
use vishwakarma.Core.Correlation.{is_in}
use vishwakarma.Core.ToolSelection.{occurs, is_empty}

-- group 1 of `_CONF_RE`, and "" where nothing matches
pub data Confidence : Type 0 where
  high medium low unstated : Confidence

abbrev pub same_level : Confidence → Confidence → Bool
same_level high high = true
same_level medium medium = true
same_level low low = true
same_level unstated unstated = true
same_level _ _ = false

pub record Case : Type 0 where
  pub title : String
  pub known_root_cause : String
  pub must_include : List String

pub record CaseResult : Type 0 where
  pub title : String
  pub correct : Bool
  pub confidence : Confidence
  pub matched_terms : List String
  pub missing_terms : List String

-- `EvalReport` is the list of its cases
abbrev pub EvalReport : Type 0
EvalReport = List CaseResult

abbrev pub correct_in : EvalReport → ℕ
correct_in cases = length (keep (λ c. c.correct) cases)

abbrev pub at_level : Confidence → EvalReport → EvalReport
at_level level cases = keep (λ c. same_level c.confidence level) cases

-- 0 of 1 where there is no case
abbrev pub ratio : ℕ → ℕ → ℕ × ℕ
ratio n zero = (0, 1)
ratio n (suc d) = (n, suc d)

unfoldable pub precision : EvalReport → ℕ × ℕ
precision cases = ratio (correct_in cases) (length cases)

unfoldable pub calibration : Confidence → EvalReport → ℕ × ℕ
calibration level cases = ratio (correct_in (at_level level cases)) (length (at_level level cases))

pub record Counts : Type 0 where
  pub highs : ℕ
  pub mediums : ℕ
  pub lows : ℕ
  pub others : ℕ

abbrev pub count_one : Confidence → Counts → Counts
count_one high out = record out { highs = out.highs + 1 }
count_one medium out = record out { mediums = out.mediums + 1 }
count_one low out = record out { lows = out.lows + 1 }
count_one unstated out = record out { others = out.others + 1 }

abbrev pub count_cases : EvalReport → Counts → Counts
count_cases [] out = out
count_cases (c ∷ cases) out = count_cases cases (count_one c.confidence out)

unfoldable pub confidence_counts : EvalReport → Counts
confidence_counts cases =
    count_cases cases (record { highs = 0; mediums = 0; lows = 0; others = 0 })

abbrev pub stop_words : List String
stop_words =
    "the" ∷ "a" ∷ "an" ∷ "of" ∷ "on" ∷ "in" ∷ "to" ∷ "is" ∷ "was" ∷ "due" ∷ "by" ∷ "and" ∷ "or"
    ∷ "for" ∷ "with" ∷ "at" ∷ "from" ∷ "this" ∷ "that" ∷ "it" ∷ "its" ∷ "caused" ∷ "because"
    ∷ "root" ∷ "cause" ∷ []

-- the words that are no stop words, each once
abbrev pub gather : List String → List String → List String
gather [] seen = seen
gather (w ∷ ws) seen =
    gather ws (if is_in stop_words w || is_in seen w then seen else seen ++ (w ∷ []))

module _ (lower : String → String) (words : String → List String)
    (find_confidence : String → Option Confidence) where
  unfoldable pub content_terms : String → List String
  content_terms text = take 8 (gather (words (lower text)) [])

  unfoldable pub extract_confidence : String → Confidence
  extract_confidence rca_text = elim (find_confidence rca_text) [ none ↦ unstated | some c ↦ c ]

  -- `correct` of the branch with required terms, and of the other, whose terms must be half found
  unfoldable pub is_correct : String → List String → List String → Bool
  is_correct text [] terms =
      let matched = keep (λ t. occurs t text) terms in
      ltb 0 (length terms) && leb (length terms) (length matched * 2)
  is_correct text (m ∷ must) terms = is_empty (keep (λ t. not (occurs t text)) (m ∷ must))

  abbrev pub looked_for : List String → List String → List String
  looked_for [] terms = terms
  looked_for (m ∷ must) terms = m ∷ must

  unfoldable pub score_case : Case → String → CaseResult
  score_case c rca_text =
      let text = lower rca_text in
      let must = map lower c.must_include in
      let terms = looked_for must (content_terms c.known_root_cause) in
      record {
        title = c.title;
        correct = is_correct text must (content_terms c.known_root_cause);
        confidence = extract_confidence rca_text;
        matched_terms = keep (λ t. occurs t text) terms;
        missing_terms = keep (λ t. not (occurs t text)) terms;
      }

  -- an investigation that raises is scored with an empty text
  unfoldable pub run_eval :
      {W : Type 0} → List Case → (Case → W → Option String × W) → W → EvalReport × W
  run_eval [] investigate_fn w = ([], w)
  run_eval (c ∷ golden) investigate_fn w =
      let (rca, w') = investigate_fn c w in
      let (cases, w'') = run_eval golden investigate_fn w' in
      (score_case c (elim rca [ none ↦ "" | some text ↦ text ]) ∷ cases, w'')
