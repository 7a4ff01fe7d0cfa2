-- ===== src/Storage/Investigations/Attempts.antt =====
-- The attempt budget of storage/investigations.py, over any sequence of operations.
use vishwakarma.Prelude.{
  ℕ, ◌+◌, ◌≤◌, max, String, ◌≡◌, none, some, List, [], ◌∷◌, arith, str_eq, eq_iff, if◌then◌else◌,
}
use mathlib.Core.Option
use vishwakarma.Prelude.Dict
use vishwakarma.Prelude.Dict.{Dict, get-put}
use vishwakarma.Storage.Investigations.{
  Job, Checkpoint, max_attempts, JobStatus, update, fail_row, claimed_row, beat_row, finish_row,
  aborted_row, new_job, create_investigation, claim_investigation, apply_checkpoint,
  checkpoint_investigation, heartbeat, finish_investigation, abort_investigation,
}

-- what the other parts of the program do to the table
pub data Op (J : Type 0) : Type 0 where
  create : ℕ → String → String → String → Op J
  claim : ℕ → String → String → Op J
  checkpoint : ℕ → String → Checkpoint J → Op J
  beat : ℕ → String → Op J
  finish : ℕ → String → JobStatus → Op J
  abort : ℕ → String → Op J

module _ {J : Type 0} where
  pub get-update :
      (k j : String) (f : Job J → Job J) (table : Dict (Job J))
      → Dict.get j (update k f table)
        ≡ (if str_eq k j then Option.map f (Dict.get j table) else Dict.get j table)
  unfolding update Dict.get
  get-update k j f [] = ground arith
  get-update k j f ((i, job) ∷ table) =
      ground (arith, eq_iff k j, eq_iff i k, eq_iff i j, get-update k j f table)

  -- the new table, and whether the operation was a claim of the job `id` that was granted
  unfoldable pub step : String → Op J → Dict (Job J) → ℕ × Dict (Job J)
  step id (create now k alert cloud) table = (0, create_investigation now k alert cloud table)
  step id (claim now k worker) table =
      let (row, table') = claim_investigation now k worker table in
      (elim row [ none ↦ 0 | some _ ↦ if str_eq k id then 1 else 0 ], table')
  step id (checkpoint now k c) table = (0, checkpoint_investigation now k c table)
  step id (beat now k) table = (0, heartbeat now k table)
  step id (finish now k status) table = (0, finish_investigation now k status table)
  step id (abort now k) table = (0, abort_investigation now k table)

  unfoldable pub claims : String → List (Op J) → Dict (Job J) → ℕ
  claims id [] table = 0
  claims id (op ∷ ops) table = let (n, table') = step id op table in n + claims id ops table'

  -- the attempts that the row of `id` counts
  unfoldable pub attempts : String → Dict (Job J) → ℕ
  attempts id table = elim (Dict.get id table) [ none ↦ 0 | some job ↦ job.attempt ]

  -- a granted claim is counted, and nothing else moves the count; it is granted below the budget
  attempts-step :
      (id : String) (op : Op J) (table : Dict (Job J))
      → (attempts id (step id op table).1 ≡ attempts id table + (step id op table).0)
        × ((step id op table).0 + attempts id table ≤ max (attempts id table) 3)
  unfolding attempts step create_investigation claim_investigation checkpoint_investigation
      heartbeat finish_investigation abort_investigation
  attempts-step id (create now k alert cloud) table =
      ground (arith, get-put k id (new_job now alert cloud) table, eq_iff k id)
  attempts-step id (claim now k worker) table = ground (
    arith,
    eq_iff k id,
    get-update k id (fail_row now) table,
    get-update k id (claimed_row now worker) table,
  )
  attempts-step id (checkpoint now k c) table =
      ground (arith, get-update k id (apply_checkpoint now c) table)
  attempts-step id (beat now k) table = ground (arith, get-update k id (beat_row now) table)
  attempts-step id (finish now k status) table =
      ground (arith, get-update k id (finish_row now status) table)
  attempts-step id (abort now k) table = ground (arith, get-update k id (aborted_row now) table)

  claims-le :
      (id : String) (ops : List (Op J)) (table : Dict (Job J))
      → claims id ops table + attempts id table ≤ max (attempts id table) 3
  unfolding claims
  claims-le id [] table = omega arith
  claims-le id (op ∷ ops) table =
      omega (arith, attempts-step id op table, claims-le id ops (step id op table).1)

  -- From an empty table, whatever the program does in whatever order, a job is claimed at most
  -- three times.
  pub claims-le-max_attempts : (id : String) (ops : List (Op J)) → claims id ops [] ≤ max_attempts
  unfolding attempts Dict.get
  claims-le-max_attempts id ops = omega (arith, claims-le id ops [])
