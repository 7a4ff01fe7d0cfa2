-- ===== src/Storage/Evidence/Tests.antt =====
-- Tests of the evidence memory, and instances of its theorems.
use vishwakarma.Prelude.{
  ℕ, ◌-◌, ◌/◌, String, ◌≡◌, refl, true, false, List, [], ◌∷◌, length, any, all,
}
use vishwakarma.Prelude.Dict
use vishwakarma.Prelude.Dict.{Dict}
use vishwakarma.Storage.Evidence.{
  Snapshot, Baseline, Memory, cleanup_stale_evidence, store_evidence, sorted, at, robust_values,
  smallest, largest, append_value, add_metrics, collect_metrics, confirmed, baselines_of,
  set_outcome, alert_of, mark_evidence_wrong, baseline_of, put_baselines, update_baselines,
  mark_evidence_correct, pending,
}
use vishwakarma.Storage.Evidence.Comparison.{
  is_anomaly, compare_metrics, compare_against_baselines, should_auto_resolve,
}
use vishwakarma.Storage.Evidence.Baselines.{
  Usable, Op, apply_all, apply_all-Usable, store, cleanup, confirm, reject,
}
use vishwakarma.Storage.Evidence.Resolve.{is_known, is_calm, is_founded, should_auto_resolve-true}

-- the middle of a sorted list stands for its mean, and its span for its deviation
abbrev middle : List ℕ → ℕ
middle vs = at vs (length vs / 2)

abbrev span : List ℕ → ℕ
span vs = largest vs - smallest vs

outlier_dropped :
    robust_values (10 ∷ 900 ∷ 12 ∷ 11 ∷ 13 ∷ 12 ∷ 11 ∷ []) ≡ 10 ∷ 11 ∷ 11 ∷ 12 ∷ 12 ∷ 13 ∷ []
unfolding robust_values sorted
outlier_dropped = refl

abbrev snapshot : String → ℕ → Snapshot
snapshot incident cpu = record {
  alert_name = "HighCpu";
  scenario = "A";
  root_cause_type = "normal_load";
  metrics = ("cpu", cpu) ∷ [];
  outcome = pending;
  incident_id = incident;
  created_at = cpu;
}

abbrev ops : List Op
ops =
    store false "1" (snapshot "i" 20)
    ∷ confirm 30 "i"
    ∷ store false "2" (snapshot "j" 24)
    ∷ confirm 40 "j"
    ∷ reject "k"
    ∷ cleanup 50 7
    ∷ []

abbrev nothing : Memory
nothing = record { snapshots = []; baselines = [] }

-- two confirmed snapshots give a baseline, whose deviation of 0 counts as 0.01
learned :
    baselines_of "HighCpu" (apply_all middle span ops nothing)
    ≡ (
      "cpu",
      record { mean = 20; stddev = 1; min_val = 20; max_val = 24; samples = 2; last_updated = 40 },
    )
      ∷ []
unfolding store_evidence mark_evidence_correct mark_evidence_wrong cleanup_stale_evidence
    update_baselines put_baselines baseline_of confirmed collect_metrics add_metrics append_value
    robust_values sorted set_outcome alert_of Dict.get Dict.put
learned = refl

apply_all-Usable_example : Usable (apply_all middle span ops nothing)
apply_all-Usable_example = apply_all-Usable middle span ops nothing refl

abbrev cpu_baseline : Dict Baseline
cpu_baseline =
    (
      "cpu",
      record { mean = 20; stddev = 4; min_val = 20; max_val = 24; samples = 3; last_updated = 40 },
    )
    ∷ []

resolved : should_auto_resolve cpu_baseline (("cpu", 29) ∷ ("iops", 7) ∷ []) 2 ≡ true
unfolding should_auto_resolve compare_against_baselines compare_metrics is_anomaly Dict.get
resolved = refl

unresolved : should_auto_resolve cpu_baseline (("cpu", 31) ∷ []) 2 ≡ false
unfolding should_auto_resolve compare_against_baselines compare_metrics is_anomaly Dict.get
unresolved = refl

should_auto_resolve-true_example :
    (any (is_known cpu_baseline) (("cpu", 29) ∷ ("iops", 7) ∷ []) ≡ true)
    × ((all (is_calm cpu_baseline) (("cpu", 29) ∷ ("iops", 7) ∷ []) ≡ true)
        × (all (is_founded cpu_baseline 2) (("cpu", 29) ∷ ("iops", 7) ∷ []) ≡ true))
should_auto_resolve-true_example =
    should_auto_resolve-true cpu_baseline (("cpu", 29) ∷ ("iops", 7) ∷ []) 2 resolved
