-- ===== src/Storage/Evidence/Comparison.antt =====
-- storage/evidence.py: the comparison of the metrics of an alert with its baselines, and the rule that
-- resolves the alert on it. A number is a natural number of hundredths.
use vishwakarma.Prelude.{
  ℕ, ◌+◌, ◌-◌, ◌*◌, min, String, Bool, true, false, not, ◌&&◌, none, some, List, [], ◌∷◌, ◌++◌, ltb,
  nat_eq, if◌then◌else◌,
}
use vishwakarma.Prelude.Dict
use vishwakarma.Prelude.Dict.{Dict}
use vishwakarma.Storage.Evidence.{Baseline}

-- abs(z_score) > 2.5; with a deviation of 0, any other value than the mean
unfoldable pub is_anomaly : ℕ → Baseline → Bool
is_anomaly value b =
    let distance = (value - b.mean) + (b.mean - value) in
    if ltb 0 b.stddev then ltb (5 * b.stddev) (2 * distance) else not (nat_eq value b.mean)

pub record Comparison : Type 0 where
  pub anomalies : List String
  pub normal : List String
  pub min_samples : ℕ

-- the loop over the metrics that have a baseline
unfoldable pub compare_metrics : Dict Baseline → Dict ℕ → Comparison → Comparison
unfolding is_anomaly
compare_metrics baselines [] c = c
compare_metrics baselines ((k, value) ∷ metrics) c =
    compare_metrics baselines metrics (elim (Dict.get k baselines) [
      | none ↦ c
      | some b ↦
          let fewer = min c.min_samples b.samples in
          if is_anomaly value b
          then record c { anomalies = c.anomalies ++ (k ∷ []); min_samples = fewer }
          else record c { normal = c.normal ++ (k ∷ []); min_samples = fewer }
    ])

abbrev pub is_empty {ℓ} : {A : Type ℓ} → List A → Bool
is_empty [] = true
is_empty (x ∷ xs) = false

-- `min_samples if min_samples < 999 else 0`
abbrev pub sample_count : Comparison → ℕ
sample_count c = if ltb c.min_samples 999 then c.min_samples else 0

unfoldable pub compare_against_baselines : Dict Baseline → Dict ℕ → Comparison
unfolding compare_metrics
compare_against_baselines baselines metrics =
    compare_metrics baselines metrics (record { anomalies = []; normal = []; min_samples = 999 })

unfoldable pub should_auto_resolve : Dict Baseline → Dict ℕ → ℕ → Bool
unfolding compare_against_baselines
should_auto_resolve baselines metrics min_samples =
    let c = compare_against_baselines baselines metrics in
    if is_empty baselines
    then false
    else if ltb (sample_count c) min_samples
    then false
    else is_empty c.anomalies && not (is_empty c.normal)
