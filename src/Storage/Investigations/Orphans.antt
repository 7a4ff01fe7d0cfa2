-- ===== src/Storage/Investigations/Orphans.antt =====
-- Which jobs storage/investigations.py offers as orphaned, and to whom.
use vishwakarma.Prelude.{
  ℕ, zero, suc, ◌+◌, ◌≤◌, String, ◌≡◌, refl, Bool, true, false, not, ◌||◌, none, some, List, [],
  ◌∷◌, arith, str_eq, eq_iff, leb, all, keep, take, ◌≢◌, ◌<◌,
}
use vishwakarma.Prelude.Dict
use vishwakarma.Prelude.Dict.{Dict, get-put}
use vishwakarma.Storage.Investigations.{
  Job, max_attempts, is_finished, update, fail_row, claimed_row, beat_row, finish_row, aborted_row,
  new_job, create_investigation, claim_investigation, apply_checkpoint, checkpoint_investigation,
  heartbeat, finish_investigation, abort_investigation,
}
use vishwakarma.Storage.Investigations.Scans.{insert_oldest, order_oldest, is_orphan, find_orphaned}
use vishwakarma.Storage.Investigations.Attempts.{
  Op, get-update, create, claim, checkpoint, beat, finish, abort, step,
}
use vishwakarma.Storage.Investigations.Status.{after}

module _ {J : Type 0} where
  abbrev time : Op J → ℕ
  time (create now k alert cloud) = now
  time (claim now k worker) = now
  time (checkpoint now k c) = now
  time (beat now k) = now
  time (finish now k status) = now
  time (abort now k) = now

  -- no operation comes before the second `t`
  abbrev pub Since : ℕ → List (Op J) → Type 0
  Since t [] = Unit
  Since t (op ∷ ops) = (t ≤ time op) × Since t ops

  -- a row of another job, or one whose heartbeat is not before `t`
  abbrev is_alive : ℕ → String → String × Job J → Bool
  is_alive t id r = not (str_eq r.0 id) || leb t r.1.heartbeat_at

  abbrev is_known : String → Dict (Job J) → Bool
  is_known id table = elim (Dict.get id table) [ none ↦ false | some _ ↦ true ]

  abbrev Beating : ℕ → String → Dict (Job J) → Type 0
  Beating t id table = (is_known id table ≡ true) × (all (is_alive t id) table ≡ true)

  known-update :
      (id k : String) (f : Job J → Job J) (table : Dict (Job J))
      → is_known id table ≡ true
      → is_known id (update k f table) ≡ true
  known-update id k f table h = ground (arith, get-update k id f table)

  -- a change that keeps a late heartbeat late
  alive-update :
      (t : ℕ) (id k : String) (f : Job J → Job J) (table : Dict (Job J))
      → ((job : Job J) → leb t job.heartbeat_at ≡ true → leb t (f job).heartbeat_at ≡ true)
      → all (is_alive t id) table ≡ true
      → all (is_alive t id) (update k f table) ≡ true
  unfolding update
  alive-update t id k f [] keeps h = h
  alive-update t id k f ((j, job) ∷ table) keeps h =
      ground (arith, keeps job, alive-update t id k f table keeps)

  alive-set :
      (t : ℕ) (id : String) (f : Job J → Job J) (table : Dict (Job J))
      → ((job : Job J) → leb t (f job).heartbeat_at ≡ true)
      → all (is_alive t id) (update id f table) ≡ true
  unfolding update
  alive-set t id f [] sets = refl
  alive-set t id f ((j, job) ∷ table) sets =
      ground (arith, eq_iff j id, sets job, alive-set t id f table sets)

  alive-put :
      (t : ℕ) (id k : String) (job : Job J) (table : Dict (Job J))
      → str_eq k id ≡ false
      → all (is_alive t id) table ≡ true
      → all (is_alive t id) (Dict.put k job table) ≡ true
  unfolding Dict.put
  alive-put t id k job [] other h = ground arith
  alive-put t id k job ((j, row) ∷ table) other h =
      ground (arith, other, alive-put t id k job table other)

  -- the rows of the job are gone from a list
  abbrev has_none : String → Dict (Job J) → Bool
  has_none id rows = all (λ r. not (str_eq r.0 id)) rows

  get-has_none :
      (id : String) (rows : Dict (Job J)) → has_none id rows ≡ true → Dict.get id rows ≡ none
  unfolding Dict.get
  get-has_none id [] h = refl
  get-has_none id ((k, job) ∷ rows) h = ground (arith, get-has_none id rows)

  has_none-insert :
      (id : String) (r : String × Job J) (rows : Dict (Job J))
      → str_eq r.0 id ≡ false
      → has_none id rows ≡ true
      → has_none id (insert_oldest r rows) ≡ true
  has_none-insert id r [] other h = ground arith
  has_none-insert id r (q ∷ rows) other h = ground (arith, has_none-insert id r rows other)

  has_none-order :
      (id : String) (rows : Dict (Job J))
      → has_none id rows ≡ true
      → has_none id (order_oldest rows) ≡ true
  has_none-order id [] h = refl
  has_none-order id (r ∷ rows) h =
      has_none-insert id r (order_oldest rows) (ground arith)
        (has_none-order id rows (ground arith))

  has_none-take :
      (id : String) (n : ℕ) (rows : Dict (Job J))
      → has_none id rows ≡ true
      → has_none id (take n rows) ≡ true
  has_none-take id zero rows h = refl
  has_none-take id (suc n) [] h = refl
  has_none-take id (suc n) (r ∷ rows) h = ground (arith, has_none-take id n rows)

  has_none-keep :
      (t stale now : ℕ) (id : String) (table : Dict (Job J))
      → now ≤ t + stale
      → all (is_alive t id) table ≡ true
      → has_none id (keep (λ r. is_orphan stale now r.1) table) ≡ true
  has_none-keep t stale now id [] late h = refl
  has_none-keep t stale now id (r ∷ table) late h =
      ground (arith, has_none-keep t stale now id table late)

  step-Beating :
      (t : ℕ) (id j : String) (op : Op J) (table : Dict (Job J))
      → t ≤ time op
      → Beating t id table
      → Beating t id (step j op table).1
  unfolding step create_investigation claim_investigation checkpoint_investigation heartbeat
      finish_investigation abort_investigation apply_checkpoint
  step-Beating t id j (create now k alert cloud) table late b = ground (
    arith,
    eq_iff k id,
    get-put k id (new_job now alert cloud) table,
    alive-put t id k (new_job now alert cloud) table,
  )
  step-Beating t id j (claim now k worker) table late b =
      let failing = alive-update t id k (fail_row now) table (λ job h. h) b.1 in
      let claiming =
        alive-update t id k (claimed_row now worker) table (λ job h. ground (arith, late)) b.1 in
      ground (
        arith,
        failing,
        claiming,
        known-update id k (fail_row now) table b.0,
        known-update id k (claimed_row now worker) table b.0,
      )
  step-Beating t id j (checkpoint now k c) table late b = (
    known-update id k (apply_checkpoint now c) table b.0,
    alive-update t id k (apply_checkpoint now c) table (λ job h. ground (arith, late)) b.1,
  )
  step-Beating t id j (beat now k) table late b = (
    known-update id k (beat_row now) table b.0,
    alive-update t id k (beat_row now) table (λ job h. ground (arith, late)) b.1,
  )
  step-Beating t id j (finish now k status) table late b = (
    known-update id k (finish_row now status) table b.0,
    alive-update t id k (finish_row now status) table (λ job h. ground (arith, h)) b.1,
  )
  step-Beating t id j (abort now k) table late b =
      let stopped = alive-update t id k (aborted_row now) table (λ job h. h) b.1 in
      ground (arith, stopped, known-update id k (aborted_row now) table b.0)

  after-Beating :
      (t : ℕ) (id j : String) (ops : List (Op J)) (table : Dict (Job J))
      → Since t ops
      → Beating t id table
      → Beating t id (after j ops table)
  unfolding after
  after-Beating t id j [] table since b = b
  after-Beating t id j (op ∷ ops) table since b =
      after-Beating t id j ops (step j op table).1 since.1 (step-Beating t id j op table since.0 b)

  claim-Beating :
      (t : ℕ) (id worker : String) (table : Dict (Job J))
      → (claim_investigation t id worker table).0 ≢ none
      → Beating t id (claim_investigation t id worker table).1
  unfolding claim_investigation
  claim-Beating t id worker table granted =
      let set = alive-set t id (claimed_row t worker) table (λ job. ground arith) in
      ground (arith, eq_iff id id, set, get-update id id (claimed_row t worker) table)

  -- A job whose claim was granted is not among the orphans of any scan until more than
  -- `stale_seconds` after that claim, whatever operations follow it, if none is timed before it.
  pub find_orphaned-claimed :
      (t now stale_seconds limit : ℕ) (id worker : String) (ops : List (Op J))
      (table : Dict (Job J))
      → (claim_investigation t id worker table).0 ≢ none
      → Since t ops
      → now ≤ t + stale_seconds
      → Dict.get id (
          find_orphaned stale_seconds limit now
            (after id ops (claim_investigation t id worker table).1))
        ≡ none
  unfolding find_orphaned
  find_orphaned-claimed t now stale limit id worker ops table granted since late =
      let claimed = (claim_investigation t id worker table).1 in
      let later = after id ops claimed in
      let b = after-Beating t id id ops claimed since (claim-Beating t id worker table granted) in
      get-has_none id _ (
        has_none-take id limit _
          (has_none-order id _ (has_none-keep t stale now id later late b.1)))

  -- Two workers that claim a job one after the other both get it, as long as it is neither done nor
  -- failed and two attempts are left: a claim does not look at who owns the job, nor at its heartbeat.
  pub claim-claim :
      (t u : ℕ) (id worker other : String) (job : Job J) (table : Dict (Job J))
      → Dict.get id table ≡ some job
      → is_finished job.status ≡ false
      → job.attempt + 1 < max_attempts
      → ((claim_investigation t id worker table).0 ≢ none)
        × ((claim_investigation u id other (claim_investigation t id worker table).1).0 ≢ none)
  unfolding claim_investigation
  claim-claim t u id worker other job table found live left =
      ground (arith, eq_iff id id, get-update id id (claimed_row t worker) table)
