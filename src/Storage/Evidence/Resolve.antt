-- ===== src/Storage/Evidence/Resolve.antt =====
-- When storage/evidence.py resolves an alert without an investigation.
use Prim.Native.Nat.{min}
use vishwakarma.Prelude.{
  ℕ, String, ◌≡◌, refl, Bool, true, false, not, ◌&&◌, ◌||◌, none, some, List, [], ◌∷◌, ◌++◌, arith,
  leb, any, all, if◌then◌else◌,
}
use vishwakarma.Prelude.Dict
use vishwakarma.Prelude.Dict.{Dict}
use vishwakarma.Storage.Evidence.{Baseline}
use vishwakarma.Storage.Evidence.Comparison.{
  Comparison, is_anomaly, compare_metrics, is_empty, should_auto_resolve, compare_against_baselines,
}

module _ (baselines : Dict Baseline) where
  abbrev pub is_known : String × ℕ → Bool
  is_known (k, value) = elim (Dict.get k baselines) [ none ↦ false | some b ↦ true ]

  -- a metric with a baseline is no anomaly
  abbrev pub is_calm : String × ℕ → Bool
  is_calm (k, value) = elim (Dict.get k baselines) [
    | none ↦ true
    | some b ↦ not (is_anomaly value b)
  ]

  -- a baseline has samples enough
  abbrev pub is_founded : ℕ → String × ℕ → Bool
  is_founded n (k, value) = elim (Dict.get k baselines) [ none ↦ true | some b ↦ leb n b.samples ]

  abbrev is_normal : String × ℕ → Bool
  is_normal m = is_known m && is_calm m

  is_empty-snoc : (xs : List String) (x : String) → is_empty (xs ++ (x ∷ [])) ≡ false
  is_empty-snoc [] x = refl
  is_empty-snoc (y ∷ xs) x = refl

  record Compared (n : ℕ) (ms : Dict ℕ) (c c' : Comparison) : Type 0 where
    calm : is_empty c'.anomalies ≡ is_empty c.anomalies && all is_calm ms
    normal : not (is_empty c'.normal) ≡ not (is_empty c.normal) || any is_normal ms
    founded : leb n c'.min_samples ≡ leb n c.min_samples && all (is_founded n) ms

  compare_metrics-Compared :
      (n : ℕ) (ms : Dict ℕ) (c : Comparison) → Compared n ms c (compare_metrics baselines ms c)
  unfolding compare_metrics
  compare_metrics-Compared n [] c = record {
    calm = ground arith;
    normal = ground arith;
    founded = ground arith;
  }
  compare_metrics-Compared n ((k, value) ∷ ms) c =
      let next : Comparison = elim (Dict.get k baselines) [
        | none ↦ c
        | some b ↦
            let fewer = min c.min_samples b.samples in
            if is_anomaly value b
            then record c { anomalies = c.anomalies ++ (k ∷ []); min_samples = fewer }
            else record c { normal = c.normal ++ (k ∷ []); min_samples = fewer }
      ] in
      let ih = compare_metrics-Compared n ms next in
      record {
        calm = ground (arith, ih.calm, is_empty-snoc c.anomalies k);
        normal = ground (arith, ih.normal, is_empty-snoc c.normal k);
        founded = ground (arith, ih.founded);
      }

  any_known : (ms : Dict ℕ) → any is_normal ms ≡ true → any is_known ms ≡ true
  any_known [] h = h
  any_known (m ∷ ms) h = ground (arith, any_known ms)

  -- An alert is resolved without an investigation only if a metric of it has a baseline, and every
  -- metric that has one is within two and a half standard deviations of its mean, by a baseline of
  -- at least as many confirmed samples as are asked for.
  pub should_auto_resolve-true :
      (metrics : Dict ℕ) (min_samples : ℕ)
      → should_auto_resolve baselines metrics min_samples ≡ true
      → (any is_known metrics ≡ true)
        × ((all is_calm metrics ≡ true) × (all (is_founded min_samples) metrics ≡ true))
  unfolding should_auto_resolve compare_against_baselines
  should_auto_resolve-true metrics n h =
      let start : Comparison = record { anomalies = []; normal = []; min_samples = 999 } in
      let q = compare_metrics-Compared n metrics start in
      let known = any_known metrics in
      (ground (arith, q.normal, known), (ground (arith, q.calm), ground (arith, q.founded)))
