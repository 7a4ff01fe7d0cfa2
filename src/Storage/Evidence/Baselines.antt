-- ===== src/Storage/Evidence/Baselines.antt =====
-- The baselines that storage/evidence.py keeps, whatever is stored and confirmed.
use vishwakarma.Prelude.{
  ℕ, String, ◌≡◌, refl, inl, inr, Bool, true, ◌&&◌, List, [], ◌∷◌, arith, ltb, leb, Option-cases,
  all,
}
use vishwakarma.Prelude.Dict
use vishwakarma.Prelude.Dict.{Dict, all-put, all-get}
use vishwakarma.Storage.Evidence.{
  Snapshot, Baseline, Memory, cleanup_stale_evidence, store_evidence, collect_metrics, confirmed,
  baseline_of, put_baselines, baselines_of, update_baselines, set_outcome, alert_of,
  mark_evidence_correct, mark_evidence_wrong, correct,
}

-- a baseline of at least two values, whose deviation is not 0
abbrev pub is_usable : Baseline → Bool
is_usable b = leb 2 b.samples && ltb 0 b.stddev

abbrev pub all_usable : Dict Baseline → Bool
all_usable = all (λ r. is_usable r.1)

abbrev pub Usable : Memory → Type 0
Usable memory = all (λ r. all_usable r.1) memory.baselines ≡ true

-- a call of the module that writes
pub data Op : Type 0 where
  store : Bool → String → Snapshot → Op
  cleanup : ℕ → ℕ → Op
  confirm : ℕ → String → Op
  reject : String → Op

module _ (average deviation : List ℕ → ℕ) where
  abbrev pub apply : Op → Memory → Memory
  apply (store lucky id s) memory = store_evidence lucky id s memory
  apply (cleanup now days) memory = cleanup_stale_evidence now days memory
  apply (confirm now id) memory = mark_evidence_correct average deviation now id memory
  apply (reject id) memory = mark_evidence_wrong id memory

  abbrev pub apply_all : List Op → Memory → Memory
  apply_all [] memory = memory
  apply_all (op ∷ ops) memory = apply_all ops (apply op memory)

  put_baselines-all_usable :
      (now : ℕ) (metrics : Dict (List ℕ)) (d : Dict Baseline)
      → all_usable d ≡ true
      → all_usable (put_baselines average deviation now metrics d) ≡ true
  unfolding put_baselines baseline_of
  put_baselines-all_usable now [] d h = h
  put_baselines-all_usable now ((k, values) ∷ metrics) d h =
      put_baselines-all_usable now metrics _
        (ground (arith, all-put is_usable k (baseline_of average deviation now values) d))

  baselines_of-all_usable :
      (alert : String) (memory : Memory)
      → Usable memory
      → all_usable (baselines_of alert memory) ≡ true
  baselines_of-all_usable alert memory h = elim (Option-cases (Dict.get alert memory.baselines)) [
    | inl e ↦ rw (e, baselines_of) refl
    | inr (d, e) ↦ rw (e, baselines_of) (all-get all_usable alert d memory.baselines h e)
  ]

  update_baselines-Usable :
      (now : ℕ) (alert : String) (memory : Memory)
      → Usable memory
      → Usable (update_baselines average deviation now alert memory)
  unfolding update_baselines
  update_baselines-Usable now alert memory h =
      let old = baselines_of alert memory in
      let metrics = collect_metrics (confirmed alert memory.snapshots) [] in
      let usable =
        put_baselines-all_usable now metrics old (baselines_of-all_usable alert memory h) in
      let d = put_baselines average deviation now metrics old in
      ground (arith, all-put all_usable alert d memory.baselines usable h)

  confirm-Usable :
      (now : ℕ) (id : String) (memory : Memory)
      → Usable memory
      → Usable (mark_evidence_correct average deviation now id memory)
  unfolding mark_evidence_correct
  confirm-Usable now id memory h =
      let marked = record memory { snapshots = set_outcome id correct memory.snapshots } in
      let alert = alert_of id marked.snapshots in
      elim (Option-cases alert) [
        | inl e ↦ ground (arith, e)
        | inr (a, e) ↦ ground (arith, e, update_baselines-Usable now a marked)
      ]

  apply-Usable : (op : Op) (memory : Memory) → Usable memory → Usable (apply op memory)
  unfolding store_evidence cleanup_stale_evidence mark_evidence_wrong
  apply-Usable (store lucky id s) memory h = ground arith
  apply-Usable (cleanup now days) memory h = h
  apply-Usable (confirm now id) memory h = confirm-Usable now id memory h
  apply-Usable (reject id) memory h = h

  -- From an empty memory, whatever is stored, confirmed, rejected and cleaned up, every baseline
  -- rests on at least two values and has a deviation above 0, so that no score divides by 0.
  pub apply_all-Usable :
      (ops : List Op) (memory : Memory) → memory.baselines ≡ [] → Usable (apply_all ops memory)
  apply_all-Usable ops memory h = from ops memory (rw h refl)
    where
      from : (ops : List Op) (memory : Memory) → Usable memory → Usable (apply_all ops memory)
      from [] memory h = h
      from (op ∷ ops) memory h = from ops (apply op memory) (apply-Usable op memory h)
