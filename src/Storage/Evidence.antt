-- ===== src/Storage/Evidence.antt =====
-- vishwakarma/storage/evidence.py: the snapshots of metrics, the baselines that confirmed ones give,
-- and, in Comparison, the rule that resolves an alert without an investigation. A number is a natural number of
-- hundredths; mean and standard deviation of a list are parameters. A snapshot has its id as key, a
-- baseline its alert and its metric. The reading of metrics off the texts of checks is left out.
pub mod Comparison
mod Resolve
mod Baselines
mod Tests
use vishwakarma.Prelude.{
  ℕ, ◌+◌, ◌-◌, ◌*◌, ◌/◌, min, max, String, Bool, true, false, not, ◌&&◌, Option, none, some, List,
  [], ◌∷◌, ◌++◌, map, str_eq, ltb, leb, nat_eq, if◌then◌else◌, length, keep, take, get_elem?,
}
use vishwakarma.Prelude.Dict
use vishwakarma.Prelude.Dict.{Dict}

pub data Outcome : Type 0 where
  pending correct wrong : Outcome

pub record Snapshot : Type 0 where
  pub alert_name : String
  pub scenario : String
  pub root_cause_type : String
  pub metrics : Dict ℕ
  pub outcome : Outcome
  pub incident_id : String
  pub created_at : ℕ

pub record Baseline : Type 0 where
  pub mean : ℕ
  pub stddev : ℕ
  pub min_val : ℕ
  pub max_val : ℕ
  pub samples : ℕ
  pub last_updated : ℕ

pub record Memory : Type 0 where
  pub snapshots : Dict Snapshot
  pub baselines : Dict (Dict Baseline)

abbrev pub is_pending : Outcome → Bool
is_pending pending = true
is_pending _ = false

abbrev pub is_correct : Outcome → Bool
is_correct correct = true
is_correct _ = false

-- DELETE ... WHERE outcome = 'pending' AND created_at < cutoff
unfoldable pub cleanup_stale_evidence : ℕ → ℕ → Memory → Memory
cleanup_stale_evidence now max_age_days memory = record memory {
  snapshots =
      keep
        (λ r. not (is_pending (r.1).outcome && ltb ((r.1).created_at + max_age_days * 86400) now))
        memory.snapshots;
}

-- `lucky` is `random.random() < 0.01`
unfoldable pub store_evidence : Bool → String → Snapshot → Memory → Memory
unfolding cleanup_stale_evidence
store_evidence lucky evidence_id snapshot memory =
    let stored = record memory { snapshots = Dict.put evidence_id snapshot memory.snapshots } in
    if lucky then cleanup_stale_evidence snapshot.created_at 7 stored else stored

abbrev pub insert_sorted : ℕ → List ℕ → List ℕ
insert_sorted v [] = v ∷ []
insert_sorted v (w ∷ ws) = if leb v w then v ∷ w ∷ ws else w ∷ insert_sorted v ws

-- sorted(values)
unfoldable pub sorted : List ℕ → List ℕ
sorted [] = []
sorted (v ∷ vs) = insert_sorted v (sorted vs)

abbrev pub at : List ℕ → ℕ → ℕ
at vs i = elim (get_elem? vs i) [ none ↦ 0 | some v ↦ v ]

-- between the quartiles, or out of them by at most one and a half times their distance
abbrev pub is_near : ℕ → ℕ → ℕ → Bool
is_near q1 q3 v =
    let iqr = q3 - q1 in leb (2 * q1) (2 * v + 3 * iqr) && leb (2 * v) (2 * q3 + 3 * iqr)

-- the values that count: without outliers, unless too few are left
unfoldable pub robust_values : List ℕ → List ℕ
unfolding sorted
robust_values values =
    let vs = sorted values in
    let n = length vs in
    let filtered = keep (is_near (at vs (n / 4)) (at vs (3 * n / 4))) vs in
    if ltb n 3 then values else if ltb (length filtered) 2 then vs else filtered

-- min(values, default=0) and max(values, default=0)
abbrev pub smallest : List ℕ → ℕ
smallest [] = 0
smallest (v ∷ []) = v
smallest (v ∷ w ∷ vs) = min v (smallest (w ∷ vs))

abbrev pub largest : List ℕ → ℕ
largest [] = 0
largest (v ∷ vs) = max v (largest vs)

-- all_metrics.setdefault(k, []).append(v)
unfoldable pub append_value : String → ℕ → Dict (List ℕ) → Dict (List ℕ)
append_value k v all_metrics = elim (Dict.get k all_metrics) [
  | none ↦ Dict.put k (v ∷ []) all_metrics
  | some vs ↦ Dict.put k (vs ++ (v ∷ [])) all_metrics
]

unfoldable pub add_metrics : Dict ℕ → Dict (List ℕ) → Dict (List ℕ)
unfolding append_value
add_metrics [] all_metrics = all_metrics
add_metrics ((k, v) ∷ metrics) all_metrics = add_metrics metrics (append_value k v all_metrics)

unfoldable pub collect_metrics : List Snapshot → Dict (List ℕ) → Dict (List ℕ)
unfolding add_metrics
collect_metrics [] all_metrics = all_metrics
collect_metrics (s ∷ snapshots) all_metrics =
    collect_metrics snapshots (add_metrics s.metrics all_metrics)

-- ORDER BY created_at DESC
abbrev pub insert_newest : Snapshot → List Snapshot → List Snapshot
insert_newest s [] = s ∷ []
insert_newest s (t ∷ ts) =
    if ltb s.created_at t.created_at then t ∷ insert_newest s ts else s ∷ t ∷ ts

abbrev pub order_newest : List Snapshot → List Snapshot
order_newest [] = []
order_newest (s ∷ ss) = insert_newest s (order_newest ss)

-- the last 50 confirmed snapshots of an alert
unfoldable pub confirmed : String → Dict Snapshot → List Snapshot
confirmed alert_name snapshots =
    let of_alert =
      keep (λ r. str_eq (r.1).alert_name alert_name && is_correct (r.1).outcome) snapshots in
    take 50 (order_newest (map (λ r. r.1) of_alert))

-- `baselines.get(alert_name, {})`
abbrev pub baselines_of : String → Memory → Dict Baseline
baselines_of alert_name memory = elim (Dict.get alert_name memory.baselines) [
  | none ↦ []
  | some baselines ↦ baselines
]

-- UPDATE evidence_snapshots SET outcome = ... WHERE incident_id = ...
unfoldable pub set_outcome : String → Outcome → Dict Snapshot → Dict Snapshot
set_outcome incident_id outcome [] = []
set_outcome incident_id outcome ((k, s) ∷ snapshots) =
    (k, (if str_eq s.incident_id incident_id then record s { outcome = outcome } else s))
    ∷ set_outcome incident_id outcome snapshots

-- the first row of the incident
unfoldable pub alert_of : String → Dict Snapshot → Option String
alert_of incident_id [] = none
alert_of incident_id ((k, s) ∷ snapshots) =
    if str_eq s.incident_id incident_id then some s.alert_name else alert_of incident_id snapshots

unfoldable pub mark_evidence_wrong : String → Memory → Memory
unfolding set_outcome
mark_evidence_wrong incident_id memory = record memory {
  snapshots = set_outcome incident_id wrong memory.snapshots;
}

module _ (average deviation : List ℕ → ℕ) where
  -- a deviation of 0 counts as 0.01; below three values it is 0
  unfoldable pub baseline_of : ℕ → List ℕ → Baseline
  unfolding robust_values
  baseline_of now values =
      let kept = robust_values values in
      let stddev = if ltb (length values) 3 then 0 else deviation kept in
      record {
        mean = average kept;
        stddev = if nat_eq stddev 0 then 1 else stddev;
        min_val = smallest kept;
        max_val = largest kept;
        samples = length values;
        last_updated = now;
      }

  -- a metric with fewer than two values keeps the baseline that it has
  unfoldable pub put_baselines : ℕ → Dict (List ℕ) → Dict Baseline → Dict Baseline
  unfolding baseline_of
  put_baselines now [] baselines = baselines
  put_baselines now ((k, values) ∷ all_metrics) baselines =
      put_baselines now all_metrics
        (if ltb (length values) 2 then baselines else Dict.put k (baseline_of now values) baselines)

  unfoldable pub update_baselines : ℕ → String → Memory → Memory
  unfolding confirmed collect_metrics put_baselines
  update_baselines now alert_name memory =
      let rows = confirmed alert_name memory.snapshots in
      if ltb (length rows) 2 then memory else record memory {
        baselines =
            Dict.put alert_name
              (put_baselines now (collect_metrics rows []) (baselines_of alert_name memory))
              memory.baselines;
      }

  unfoldable pub mark_evidence_correct : ℕ → String → Memory → Memory
  unfolding update_baselines set_outcome alert_of
  mark_evidence_correct now incident_id memory =
      let marked = record memory { snapshots = set_outcome incident_id correct memory.snapshots } in
      elim (alert_of incident_id marked.snapshots) [
        | none ↦ marked
        | some alert_name ↦ update_baselines now alert_name marked
      ]
