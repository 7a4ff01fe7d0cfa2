-- ===== src/Executor.antt =====
-- vishwakarma/executor.py, the worker of one cloud, and core/jobstream.py. A call of the servers
-- raises or not as the record `Reach` says; `investigate` stands for `_do_investigation` of server.py, a
-- function of the table of investigations that says whether it raised.
mod Jobs
mod Tests
use vishwakarma.Prelude.{
  ℕ, ◌+◌, String, Bool, true, false, ◌&&◌, Option, none, some, List, [], ◌∷◌, str_eq, ltb,
  if◌then◌else◌, str_append,
}
use vishwakarma.Prelude.Dict.{Dict}
use vishwakarma.Storage.Investigations.{
  Job, is_finished, finish_investigation, get_investigation, failed,
}

abbrev pub reap_interval : ℕ
reap_interval = 60

-- `issue` is none where the payload has none that validates
pub record Payload (I : Type 0) : Type 0 where
  pub incident_id : String
  pub fingerprint : String
  pub cloud : String
  pub issue : Option I

-- whether a call of Redis and of the database returns
pub record Reach : Type 0 where
  pub acks : Bool
  pub reads : Bool
  pub writes : Bool

-- the table of investigations, and the messages that were acknowledged, the latest first
pub record Pool (J : Type 0) : Type 0 where
  pub table : Dict (Job J)
  pub acked : List String

-- what is left when `_run_job` ends, and whether it raised
abbrev pub Ended : Type 0 → Type 0
Ended J = Bool × Pool J

unfoldable pub is_both : {I : Type 0} → Payload I → Bool
is_both payload = str_eq payload.cloud "both"

-- the two halves of a job for both clouds are told apart by the cloud
unfoldable pub job_id : {I : Type 0} → String → Payload I → String
unfolding is_both
job_id cloud payload =
    if is_both payload
    then str_append payload.incident_id (str_append ":" cloud)
    else payload.incident_id

module _ {J : Type 0} where
  -- jobstream.ack
  unfoldable pub ack : Reach → String → Pool J → Ended J
  ack reach msg_id pool =
      if reach.acks then (false, record pool { acked = msg_id ∷ pool.acked }) else (true, pool)

  -- `existing and existing.get("status") in ("done", "failed")`
  unfoldable pub is_terminal : Reach → String → Pool J → Bool
  is_terminal reach incident_id pool =
      if reach.reads
      then elim (get_investigation incident_id pool.table) [
        | none ↦ false
        | some job ↦ is_finished job.status
      ]
      else false

  -- the `except` branch: the job is marked as failed, if that can be written
  unfoldable pub mark_failed : Reach → ℕ → String → Pool J → Pool J
  mark_failed reach now incident_id pool =
      if reach.writes
      then record pool { table = finish_investigation now incident_id failed pool.table }
      else pool

  module _ {I : Type 0} (investigate : I → String → String → Dict (Job J) → Bool × Dict (Job J))
      (reach : Reach) (cloud : String) (now : ℕ) where
    -- the investigation and the `finally`, in which a failing ack is swallowed
    unfoldable pub work : String → I → String → String → Pool J → Pool J
    unfolding ack mark_failed
    work msg_id issue incident_id fingerprint pool =
        let (crashed, table) = investigate issue incident_id fingerprint pool.table in
        let worked = record pool { table = table } in
        (ack reach msg_id (if crashed then mark_failed reach now incident_id worked else worked)).1

    -- a terminal job is only acknowledged; where that raises, the exception is swallowed and the job
    -- runs
    unfoldable pub run_valid : String → I → String → String → Pool J → Pool J
    unfolding work is_terminal
    run_valid msg_id issue incident_id fingerprint pool =
        if is_terminal reach incident_id pool && reach.acks
        then (ack reach msg_id pool).1
        else work msg_id issue incident_id fingerprint pool

    unfoldable pub run_job : String → Payload I → Pool J → Ended J
    unfolding run_valid
    run_job msg_id payload pool = elim payload.issue [
      | none ↦ ack reach msg_id pool
      | some issue ↦ (false, run_valid msg_id issue (job_id cloud payload) payload.fingerprint pool)
    ]

    -- the reclaimed jobs; the first that raises ends the round
    unfoldable pub run_stale : List (String × Payload I) → Pool J → Ended J
    unfolding run_job
    run_stale [] pool = (false, pool)
    run_stale ((msg_id, payload) ∷ jobs) pool =
        let (failed_ack, pool') = run_job msg_id payload pool in
        let rest = run_stale jobs pool' in if failed_ack then (true, pool') else rest

    -- one turn of `_loop`: `stale` is what `claim_stale` returns, and `got` what `consume` does, none
    -- where it raises or times out; the result is the time of the last reap and whether the loop goes on
    unfoldable pub turn :
        ℕ → List (String × Payload I) → Option (String × Payload I) → Pool J → ℕ × Ended J
    unfolding run_stale
    turn last_reap stale got pool =
        let due = ltb (last_reap + reap_interval) now in
        let reaped = if due then (run_stale stale pool).1 else pool in
        (
          (if due then now else last_reap),
          elim got [
            | none ↦ (false, reaped)
            | some (msg_id, payload) ↦ run_job msg_id payload reaped
          ],
        )
