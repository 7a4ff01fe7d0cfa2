-- ===== src/Storage/Investigations.antt =====
-- vishwakarma/storage/investigations.py: the durable jobs and their checkpoints. The table is the
-- list of its rows, of which at most one has an id; `J` is the type of the JSON values that it
-- keeps, whose encoding and decoding are left out. Clock readings are natural numbers of seconds.
pub mod Attempts
pub mod Scans
mod Orphans
pub mod Status
mod Tests
use vishwakarma.Prelude.{
  ℕ, ◌+◌, String, Bool, true, false, Option, none, some, [], ◌∷◌, str_eq, leb, if◌then◌else◌,
}
use vishwakarma.Prelude.Dict
use vishwakarma.Prelude.Dict.{Dict}

abbrev pub max_attempts : ℕ
max_attempts = 3

-- VALID_STATUSES
pub data JobStatus : Type 0 where
  queued running awaiting_fix_review done failed aborting aborted : JobStatus

pub record Job (J : Type 0) : Type 0 where
  pub alert_key : String
  pub cloud : String
  pub status : JobStatus
  pub phase : Option String
  pub step : ℕ
  pub messages : Option J
  pub findings : Option J
  pub code_session : Option J
  pub worker_id : Option String
  pub attempt : ℕ
  pub heartbeat_at : ℕ
  pub created_at : ℕ
  pub updated_at : ℕ

-- the fields that a checkpoint may give
pub record Checkpoint (J : Type 0) : Type 0 where
  pub messages : Option J
  pub phase : Option String
  pub step : Option ℕ
  pub findings : Option J
  pub code_session : Option J

-- `if x is not None: sets.append("x=?")`
abbrev pub or_keep {ℓ} : {A : Type ℓ} → Option A → A → A
or_keep none a = a
or_keep (some b) a = b

abbrev pub or_keep_some {ℓ} : {A : Type ℓ} → Option A → Option A → Option A
or_keep_some none a = a
or_keep_some (some b) a = some b

-- `status in ("done", "failed")`
abbrev pub is_finished : JobStatus → Bool
is_finished done = true
is_finished failed = true
is_finished _ = false

abbrev pub is_aborted : JobStatus → Bool
is_aborted aborted = true
is_aborted _ = false

module _ {J : Type 0} where
  -- UPDATE investigations SET ... WHERE id=?
  unfoldable pub update : String → (Job J → Job J) → Dict (Job J) → Dict (Job J)
  update incident_id f [] = []
  update incident_id f ((k, job) ∷ table) =
      (k, (if str_eq k incident_id then f job else job)) ∷ update incident_id f table

  -- the SET lists of the statements below
  abbrev pub fail_row : ℕ → Job J → Job J
  fail_row now job = record job { status = failed; updated_at = now }

  abbrev pub claimed_row : ℕ → String → Job J → Job J
  claimed_row now worker_id job = record job {
    status = running;
    worker_id = some worker_id;
    attempt = job.attempt + 1;
    heartbeat_at = now;
    updated_at = now;
  }

  abbrev pub beat_row : ℕ → Job J → Job J
  beat_row now job = record job { heartbeat_at = now; updated_at = now }

  abbrev pub finish_row : ℕ → JobStatus → Job J → Job J
  finish_row now status job =
      if is_aborted job.status then job else record job { status = status; updated_at = now }

  abbrev pub aborted_row : ℕ → Job J → Job J
  aborted_row now job = record job { status = aborted; updated_at = now }

  unfoldable pub new_job : ℕ → String → String → Job J
  new_job now alert_key cloud = record {
    alert_key = alert_key;
    cloud = cloud;
    status = queued;
    phase = none;
    step = 0;
    messages = none;
    findings = none;
    code_session = none;
    worker_id = none;
    attempt = 0;
    heartbeat_at = 0;
    created_at = now;
    updated_at = now;
  }

  -- ON CONFLICT(id) DO NOTHING
  unfoldable pub create_investigation : ℕ → String → String → String → Dict (Job J) → Dict (Job J)
  unfolding new_job
  create_investigation now incident_id alert_key cloud table = elim (Dict.get incident_id table) [
    | some _ ↦ table
    | none ↦ Dict.put incident_id (new_job now alert_key cloud) table
  ]

  -- One step, as the lock of the process makes it; of several processes on one Postgres server two
  -- may read a row before either updates it. What `claim_investigation` does with the row that it read; the row that it returns has the new
  -- attempt and worker, and the status and times that were read
  unfoldable pub claim_row :
      ℕ → String → String → Option (Job J) → Dict (Job J) → Option (Job J) × Dict (Job J)
  claim_row now incident_id worker_id none table = (none, table)
  claim_row now incident_id worker_id (some d) table =
      if is_finished d.status
      then (none, table)
      else if leb max_attempts d.attempt
      then (none, update incident_id (fail_row now) table)
      else (
        some (record d { attempt = d.attempt + 1; worker_id = some worker_id }),
        update incident_id (claimed_row now worker_id) table,
      )

  unfoldable pub claim_investigation :
      ℕ → String → String → Dict (Job J) → Option (Job J) × Dict (Job J)
  unfolding claim_row
  claim_investigation now incident_id worker_id table =
      claim_row now incident_id worker_id (Dict.get incident_id table) table

  unfoldable pub apply_checkpoint : ℕ → Checkpoint J → Job J → Job J
  apply_checkpoint now c job = record job {
    phase = or_keep_some c.phase job.phase;
    step = or_keep c.step job.step;
    messages = or_keep_some c.messages job.messages;
    findings = or_keep_some c.findings job.findings;
    code_session = or_keep_some c.code_session job.code_session;
    heartbeat_at = now;
    updated_at = now;
  }

  unfoldable pub checkpoint_investigation : ℕ → String → Checkpoint J → Dict (Job J) → Dict (Job J)
  unfolding apply_checkpoint
  checkpoint_investigation now incident_id c table =
      update incident_id (apply_checkpoint now c) table

  unfoldable pub heartbeat : ℕ → String → Dict (Job J) → Dict (Job J)
  heartbeat now incident_id table = update incident_id (beat_row now) table

  -- `AND status != 'aborted'`; the type of a status leaves no invalid one to refuse
  unfoldable pub finish_investigation : ℕ → String → JobStatus → Dict (Job J) → Dict (Job J)
  finish_investigation now incident_id status table =
      update incident_id (finish_row now status) table

  unfoldable pub get_investigation : String → Dict (Job J) → Option (Job J)
  get_investigation incident_id table = Dict.get incident_id table

  -- the UPDATE of `abort_investigation` in ui/console_api.py, which first asks for the status
  unfoldable pub abort_row : ℕ → String → Option (Job J) → Dict (Job J) → Dict (Job J)
  abort_row now incident_id none table = table
  abort_row now incident_id (some inv) table = elim inv.status [
    | running ↦ update incident_id (aborted_row now) table
    | queued ↦ update incident_id (aborted_row now) table
    | _ ↦ table
  ]

  unfoldable pub abort_investigation : ℕ → String → Dict (Job J) → Dict (Job J)
  unfolding abort_row
  abort_investigation now incident_id table =
      abort_row now incident_id (Dict.get incident_id table) table
