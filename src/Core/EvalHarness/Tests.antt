-- ===== src/Core/EvalHarness/Tests.antt =====
-- Runs of the scoring of core/eval_harness.py.
use vishwakarma.Prelude.{
  ℕ, ◌+◌, String, ◌≡◌, refl, true, false, Option, none, some, List, [], ◌∷◌, map, str_eq,
  if◌then◌else◌,
}
use vishwakarma.Core.EvalHarness.{
  Case, Confidence, EvalReport, precision, calibration, confidence_counts, content_terms,
  extract_confidence, is_correct, score_case, run_eval, high,
}

program : Unit {0}
unfolding run_eval score_case is_correct content_terms extract_confidence confidence_counts
    precision calibration
program = tt

-- texts in lower case, one word for each of the texts that is known here
abbrev lower : String → String
lower t = t

abbrev words : String → List String
words t = if str_eq t "missing index" then "missing" ∷ "the" ∷ "index" ∷ "missing" ∷ [] else []

abbrev find_confidence : String → Option Confidence
find_confidence t = if str_eq t "slow index" then some high else none

abbrev with_terms : Case
with_terms = record {
  title = "db";
  known_root_cause = "";
  must_include = "seqscan" ∷ "drivers" ∷ [];
}

abbrev with_cause : Case
with_cause = record { title = "index"; known_root_cause = "missing index"; must_include = [] }

-- the second case is answered, the first raises; the number of the calls is the world
abbrev investigate_fn : Case → ℕ → Option String × ℕ
investigate_fn c n = (if str_eq c.title "index" then some "slow index" else none, n + 1)

terms_are_gathered :
    content_terms lower words find_confidence "missing index" ≡ "missing" ∷ "index" ∷ []
unfolding program
terms_are_gathered = refl

abbrev report : EvalReport
report = (run_eval lower words find_confidence (with_terms ∷ with_cause ∷ []) investigate_fn 0).0

half_is_enough : map (λ c. c.correct) report ≡ false ∷ true ∷ []
unfolding program
half_is_enough = refl

half_are_right : precision report ≡ (1, 2)
unfolding program
half_are_right = refl

levels_are_counted :
    confidence_counts report ≡ record { highs = 1; mediums = 0; lows = 0; others = 1 }
unfolding program
levels_are_counted = refl

high_is_right : calibration high report ≡ (1, 1)
unfolding program
high_is_right = refl
