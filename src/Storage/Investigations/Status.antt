-- ===== src/Storage/Investigations/Status.antt =====
-- How the status of a job in storage/investigations.py moves: what is final and what is not.
use mathlib.Core.Option
use vishwakarma.Prelude.{
  ℕ, String, ◌≡◌, refl, ◌≢◌, Bool, true, false, not, none, some, List, [], ◌∷◌, arith, str_eq,
  eq_iff, ltb, if◌then◌else◌, is_some,
}
use vishwakarma.Prelude.Dict
use vishwakarma.Prelude.Dict.{Dict, get-put}
use vishwakarma.Storage.Investigations.{
  Job, Checkpoint, failed, max_attempts, JobStatus, or_keep, or_keep_some, is_finished, is_aborted,
  fail_row, claimed_row, beat_row, finish_row, aborted_row, new_job, create_investigation,
  claim_investigation, apply_checkpoint, checkpoint_investigation, heartbeat, finish_investigation,
  get_investigation, abort_investigation,
}
use vishwakarma.Storage.Investigations.Scans.{is_running}
use vishwakarma.Storage.Investigations.Attempts.{
  Op, get-update, step, claims, attempts, create, claim, checkpoint, beat, finish, abort,
}

-- the job is there, and its status passes the test
unfoldable pub status_is : {J : Type 0} → (JobStatus → Bool) → String → Dict (Job J) → Bool
status_is test id table = elim (Dict.get id table) [ none ↦ false | some job ↦ test job.status ]

abbrev pub is_failed : JobStatus → Bool
is_failed failed = true
is_failed _ = false

module _ {J : Type 0} where
  -- every `finish` is one with "done" or "failed"; the program has one other, of a code session that
  -- waits for its review
  abbrev pub Finishes : List (Op J) → Type 0
  Finishes [] = Unit
  Finishes (finish now k status ∷ ops) = (is_finished status ≡ true) × Finishes ops
  Finishes (_ ∷ ops) = Finishes ops

  -- no claim of the job
  abbrev pub Unclaimed : String → List (Op J) → Type 0
  Unclaimed id [] = Unit
  Unclaimed id (claim now k worker ∷ ops) = (k ≢ id) × Unclaimed id ops
  Unclaimed id (_ ∷ ops) = Unclaimed id ops

  unfoldable pub after : String → List (Op J) → Dict (Job J) → Dict (Job J)
  after id [] table = table
  after id (op ∷ ops) table = after id ops (step id op table).1

  finished-step :
      (id : String) (op : Op J) (table : Dict (Job J))
      → Finishes (op ∷ [])
      → status_is is_finished id table ≡ true
      → (status_is is_finished id (step id op table).1 ≡ true) × ((step id op table).0 ≡ 0)
  unfolding status_is step create_investigation claim_investigation checkpoint_investigation
      heartbeat finish_investigation abort_investigation
  finished-step id (create now k alert cloud) table f h =
      ground (arith, get-put k id (new_job now alert cloud) table, eq_iff k id)
  finished-step id (claim now k worker) table f h = ground (
    arith,
    eq_iff k id,
    get-update k id (fail_row now) table,
    get-update k id (claimed_row now worker) table,
  )
  finished-step id (checkpoint now k c) table f h =
      ground (arith, get-update k id (apply_checkpoint now c) table)
  finished-step id (beat now k) table f h = ground (arith, get-update k id (beat_row now) table)
  finished-step id (finish now k status) table f h =
      ground (arith, f.0, get-update k id (finish_row now status) table)
  finished-step id (abort now k) table f h =
      ground (arith, eq_iff k id, get-update k id (aborted_row now) table)

  Finishes-head :
      (op : Op J) (ops : List (Op J)) → Finishes (op ∷ ops) → Finishes (op ∷ []) × Finishes ops
  Finishes-head (finish now k status) ops f = ((f.0, tt), f.1)
  Finishes-head (create now k alert cloud) ops f = (tt, f)
  Finishes-head (claim now k worker) ops f = (tt, f)
  Finishes-head (checkpoint now k c) ops f = (tt, f)
  Finishes-head (beat now k) ops f = (tt, f)
  Finishes-head (abort now k) ops f = (tt, f)

  -- A job that is done or failed stays so and is never claimed again, whatever operations follow,
  -- if each `finish` among them is with "done" or "failed".
  pub finished_is_final :
      (id : String) (ops : List (Op J)) (table : Dict (Job J))
      → Finishes ops
      → status_is is_finished id table ≡ true
      → (status_is is_finished id (after id ops table) ≡ true) × (claims id ops table ≡ 0)
  unfolding after claims
  finished_is_final id [] table f h = (h, refl)
  finished_is_final id (op ∷ ops) table f h =
      let (here, rest) = Finishes-head op ops f in
      let (kept, none_now) = finished-step id op table here h in
      let (final, none_later) = finished_is_final id ops (step id op table).1 rest kept in
      (final, omega arith)

  aborted-step :
      (id : String) (op : Op J) (table : Dict (Job J))
      → Unclaimed id (op ∷ [])
      → status_is is_aborted id table ≡ true
      → status_is is_aborted id (step id op table).1 ≡ true
  unfolding status_is step create_investigation claim_investigation checkpoint_investigation
      heartbeat finish_investigation abort_investigation
  aborted-step id (create now k alert cloud) table f h =
      ground (arith, get-put k id (new_job now alert cloud) table, eq_iff k id)
  aborted-step id (claim now k worker) table f h = ground (
    arith,
    eq_iff k id,
    f.0,
    get-update k id (fail_row now) table,
    get-update k id (claimed_row now worker) table,
  )
  aborted-step id (checkpoint now k c) table f h =
      ground (arith, get-update k id (apply_checkpoint now c) table)
  aborted-step id (beat now k) table f h = ground (arith, get-update k id (beat_row now) table)
  aborted-step id (finish now k status) table f h =
      ground (arith, get-update k id (finish_row now status) table)
  aborted-step id (abort now k) table f h =
      ground (arith, eq_iff k id, get-update k id (aborted_row now) table)

  Unclaimed-head :
      (id : String) (op : Op J) (ops : List (Op J))
      → Unclaimed id (op ∷ ops)
      → Unclaimed id (op ∷ []) × Unclaimed id ops
  Unclaimed-head id (claim now k worker) ops f = ((f.0, tt), f.1)
  Unclaimed-head id (create now k alert cloud) ops f = (tt, f)
  Unclaimed-head id (finish now k status) ops f = (tt, f)
  Unclaimed-head id (checkpoint now k c) ops f = (tt, f)
  Unclaimed-head id (beat now k) ops f = (tt, f)
  Unclaimed-head id (abort now k) ops f = (tt, f)

  -- An aborted job stays aborted through every sequence of operations in which it is not claimed.
  pub aborted_stays :
      (id : String) (ops : List (Op J)) (table : Dict (Job J))
      → Unclaimed id ops
      → status_is is_aborted id table ≡ true
      → status_is is_aborted id (after id ops table) ≡ true
  unfolding after
  aborted_stays id [] table f h = h
  aborted_stays id (op ∷ ops) table f h =
      let (here, rest) = Unclaimed-head id op ops f in
      aborted_stays id ops (step id op table).1 rest (aborted-step id op table here h)

  -- No claim of an aborted job leaves it aborted: with attempts left the claim is granted and the job
  -- is running again, and with none left the claim is refused and the job is failed.
  pub claim-aborted :
      (id worker : String) (now : ℕ) (table : Dict (Job J))
      → status_is is_aborted id table ≡ true
      → (let left = ltb (attempts id table) max_attempts in
          let (row, table') = claim_investigation now id worker table in
          (is_some row ≡ left)
          × (status_is is_running id table' ≡ left)
          × (status_is is_failed id table' ≡ not left))
  unfolding status_is attempts claim_investigation
  claim-aborted id worker now table h = ground (
    arith,
    eq_iff id id,
    get-update id id (claimed_row now worker) table,
    get-update id id (fail_row now) table,
  )

  -- the job with what the checkpoint gives
  abbrev pub updated_by : ℕ → Checkpoint J → Job J → Job J
  updated_by now c job = record job {
    phase = or_keep_some c.phase job.phase;
    step = or_keep c.step job.step;
    messages = or_keep_some c.messages job.messages;
    findings = or_keep_some c.findings job.findings;
    code_session = or_keep_some c.code_session job.code_session;
    heartbeat_at = now;
    updated_at = now;
  }

  -- A checkpoint of a stored job replaces exactly the fields that it gives, and the two times; the
  -- status, worker and attempts stay, and so does every other job.
  pub get-checkpoint :
      (now : ℕ) (id j : String) (c : Checkpoint J) (table : Dict (Job J))
      → get_investigation j (checkpoint_investigation now id c table) ≡ (
          if str_eq id j
          then Option.map (updated_by now c) (get_investigation j table)
          else get_investigation j table)
  unfolding get_investigation checkpoint_investigation
  get-checkpoint now id j c table = get-update id j (apply_checkpoint now c) table
