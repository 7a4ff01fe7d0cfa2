-- ===== src/Executor/Tests.antt =====
-- Runs of the worker of executor.py.
use vishwakarma.Prelude.{ℕ, String, ◌≡◌, refl, Bool, true, false, some, [], ◌∷◌}
use vishwakarma.Prelude.Dict
use vishwakarma.Prelude.Dict.{Dict}
use vishwakarma.Storage.Investigations.{
  Job, update, new_job, finish_investigation, get_investigation, running, done,
}
use vishwakarma.Executor.{
  Payload, Reach, Pool, is_both, job_id, ack, is_terminal, mark_failed, work, run_valid, run_job,
  run_stale, turn,
}
use vishwakarma.Executor.Jobs.{
  run_job-acks, Finished, redeliver, redeliver-Finished, run_job-unacked,
}

program : Unit {0}
unfolding Dict.get Dict.put new_job update finish_investigation get_investigation is_both job_id ack
    is_terminal mark_failed work run_valid run_job run_stale turn redeliver
program = tt

abbrev up : Reach
up = record { acks = true; reads = true; writes = true }

abbrev no_redis : Reach
no_redis = record { acks = false; reads = true; writes = true }

abbrev payload : Payload ℕ
payload = record { incident_id = "i"; fingerprint = "f"; cloud = "both"; issue = some 1 }

abbrev finished : Job ℕ
finished = record (new_job 1 "a" "aws") { status = done }

abbrev started : Job ℕ
started = record (new_job 1 "a" "aws") { status = running }

-- an investigation that finishes every job, and one that crashes
abbrev finishes : ℕ → String → String → Dict (Job ℕ) → Bool × Dict (Job ℕ)
finishes issue id f table = (false, finish_investigation 5 id done table)

abbrev crashes : ℕ → String → String → Dict (Job ℕ) → Bool × Dict (Job ℕ)
crashes issue id f table = (true, table)

abbrev idle : Pool ℕ
idle = record { table = ("i:aws", started) ∷ []; acked = [] }

abbrev served : Pool ℕ
served = record { table = ("i:aws", finished) ∷ []; acked = [] }

halves : job_id "gcp" payload ≡ "i:gcp"
unfolding program
halves = refl

-- a reclaimed job and a new one in one turn
turned :
    (turn finishes up "aws" 100 0 (("m", payload) ∷ []) (some ("n", payload)) idle).1.1.acked
    ≡ "n" ∷ "m" ∷ []
unfolding program
turned = refl

run_job-acks_example :
    ((run_job crashes up "aws" 7 "m" payload idle).0 ≡ false)
    × ((run_job crashes up "aws" 7 "m" payload idle).1.acked ≡ "m" ∷ [])
run_job-acks_example = run_job-acks crashes "aws" up 7 "m" payload idle refl

served-Finished : Finished (job_id "aws" payload) served.table
unfolding program
served-Finished = (finished, refl, refl)

redeliver-Finished_example :
    (redeliver finishes "aws" up payload ((8, "m") ∷ (9, "n") ∷ []) served).table ≡ served.table
redeliver-Finished_example =
    redeliver-Finished finishes "aws" up payload ((8, "m") ∷ (9, "n") ∷ []) served refl refl
      served-Finished

idle-running : is_terminal up (job_id "aws" payload) idle ≡ false
unfolding program
idle-running = refl

idle-started : Dict.get (job_id "aws" payload) idle.table ≡ some started
unfolding program
idle-started = refl

run_job-unacked_example :
    (run_job finishes no_redis "aws" 7 "m" payload served).1.table
    ≡ finish_investigation 5 (job_id "aws" payload) done served.table
run_job-unacked_example =
    run_job-unacked finishes "aws" no_redis 7 "m" payload 1 served
      (finish_investigation 5 (job_id "aws" payload) done served.table) refl served-Finished refl
      refl
