-- ===== src/Core/EvalHarness/Levels.antt =====
-- What the numbers of a report of core/eval_harness.py add up to.
use vishwakarma.Prelude.{ℕ, ◌+◌, ◌≡◌, refl, [], ◌∷◌, arith, length}
use vishwakarma.Core.EvalHarness.{
  Case, Counts, Confidence, EvalReport, correct_in, at_level, ratio, precision, calibration,
  count_one, count_cases, confidence_counts, run_eval, high, medium, low, unstated, String, List,
  Option,
}

abbrev total : Counts → ℕ
total n = n.highs + n.mediums + n.lows + n.others

-- each count is what it was and the number of the cases of its level
abbrev Counted : EvalReport → Counts → Counts → Type 0
Counted cases out n =
    (n.highs ≡ out.highs + length (at_level high cases))
    × (n.mediums ≡ out.mediums + length (at_level medium cases))
    × (n.lows ≡ out.lows + length (at_level low cases))
    × (n.others ≡ out.others + length (at_level unstated cases))

count_cases-Counted :
    (cases : EvalReport) (out : Counts) → Counted cases out (count_cases cases out)
count_cases-Counted [] out = ground arith
count_cases-Counted (c ∷ cases) out =
    ground (arith, count_cases-Counted cases (count_one c.confidence out))

correct_in-levels :
    (cases : EvalReport)
    → correct_in (at_level high cases)
        + correct_in (at_level medium cases)
        + correct_in (at_level low cases)
        + correct_in (at_level unstated cases)
      ≡ correct_in cases
correct_in-levels [] = refl
correct_in-levels (c ∷ cases) = ground (arith, correct_in-levels cases)

length-levels :
    (cases : EvalReport)
    → length (at_level high cases)
        + length (at_level medium cases)
        + length (at_level low cases)
        + length (at_level unstated cases)
      ≡ length cases
length-levels [] = refl
length-levels (c ∷ cases) = ground (arith, length-levels cases)

module _ (lower : String → String) (words : String → List String)
    (find_confidence : String → Option Confidence) {W : Type 0}
    (investigate_fn : Case → W → Option String × W) where
  length-run_eval :
      (golden : List Case) (w : W)
      → length (run_eval lower words find_confidence golden investigate_fn w).0 ≡ length golden
  unfolding run_eval
  length-run_eval [] w = refl
  length-run_eval (c ∷ golden) w = omega (arith, length-run_eval golden (investigate_fn c w).1)

  -- Whatever the investigations answer and whichever of them raise, the counts of the report by
  -- confidence add up to the cases that were given, each is the number of the cases that the
  -- calibration of its level divides by, and the correct cases of the levels add up to those that the
  -- precision counts.
  confidence_counts-run_eval :
      (golden : List Case) (w : W)
      → (let cases = (run_eval lower words find_confidence golden investigate_fn w).0 in
          let n = confidence_counts cases in
          (n.highs + n.mediums + n.lows + n.others ≡ length golden)
          × (calibration high cases ≡ ratio (correct_in (at_level high cases)) n.highs)
          × (calibration medium cases ≡ ratio (correct_in (at_level medium cases)) n.mediums)
          × (precision cases
              ≡ ratio
                  (correct_in (at_level high cases)
                    + correct_in (at_level medium cases)
                    + correct_in (at_level low cases)
                    + correct_in (at_level unstated cases))
                  (length golden)))
  unfolding confidence_counts calibration precision
  confidence_counts-run_eval golden w =
      let cases = (run_eval lower words find_confidence golden investigate_fn w).0 in
      let counted =
        count_cases-Counted cases (record { highs = 0; mediums = 0; lows = 0; others = 0 }) in
      let run = length-run_eval golden w in
      let highs : (confidence_counts cases).highs ≡ length (at_level high cases) =
        omega (arith, counted.0) in
      let mediums : (confidence_counts cases).mediums ≡ length (at_level medium cases) =
        omega (arith, counted.1) in
      (
        omega (arith, counted, length-levels cases, run),
        rw highs refl,
        rw mediums refl,
        rw (correct_in-levels cases, ← run) refl,
      )
