-- ===== src/Executor/Jobs.antt =====
-- What the worker of executor.py does with a job that is delivered, once or more than once.
use vishwakarma.Prelude.{
  ℕ, String, ◌≡◌, refl, sym, ap, subst, ◌∙◌, inl, inr, Bool, true, false, some, List, [], ◌∷◌,
  arith, eq_iff, if◌then◌else◌, Bool-cases, Option-cases,
}
use vishwakarma.Prelude.Dict
use vishwakarma.Prelude.Dict.{Dict}
use vishwakarma.Storage.Investigations.{
  Job, is_finished, is_aborted, finish_row, finish_investigation, get_investigation, failed,
}
use vishwakarma.Storage.Investigations.Attempts.{get-update}
use vishwakarma.Executor.{
  Payload, Reach, Pool, job_id, ack, is_terminal, mark_failed, work, run_valid, run_job,
}

-- the job is done or failed
abbrev pub Finished : {J : Type 0} → String → Dict (Job J) → Type 0
Finished {J} incident_id table =
    (job : Job J) × (get_investigation incident_id table ≡ some job)
    × (is_finished job.status ≡ true)

module _ {I J : Type 0} (investigate : I → String → String → Dict (Job J) → Bool × Dict (Job J))
    (cloud : String) where
  -- While Redis answers, each delivery is acknowledged once and nothing is raised, whether the
  -- payload is bad, the job is a duplicate, or the investigation returns or crashes.
  pub run_job-acks :
      (reach : Reach) (now : ℕ) (msg_id : String) (payload : Payload I) (pool : Pool J)
      → reach.acks ≡ true
      → ((run_job investigate reach cloud now msg_id payload pool).0 ≡ false)
        × ((run_job investigate reach cloud now msg_id payload pool).1.acked ≡ msg_id ∷ pool.acked)
  unfolding run_job run_valid work ack mark_failed
  run_job-acks reach now msg_id payload pool h = elim (Option-cases payload.issue) [
    | inl bad ↦ ground (arith, bad)
    | inr (issue, e) ↦
        let crashed = (investigate issue (job_id cloud payload) payload.fingerprint pool.table).0 in
        elim (Bool-cases crashed) [ inl c ↦ ground (arith, e, c) | inr c ↦ ground (arith, e, c) ]
  ]

  run_job-Finished :
      (reach : Reach) (now : ℕ) (msg_id : String) (payload : Payload I) (pool : Pool J)
      → reach.acks ≡ true
      → reach.reads ≡ true
      → Finished (job_id cloud payload) pool.table
      → (run_job investigate reach cloud now msg_id payload pool).1.table ≡ pool.table
  unfolding run_job run_valid is_terminal ack
  run_job-Finished reach now msg_id payload pool a r (job, at, fin) =
      elim (Option-cases payload.issue) [
        | inl bad ↦ ground (arith, bad)
        | inr (issue, e) ↦ ground (arith, e, at, fin)
      ]

  -- the deliveries of one payload, each with its time and message id
  unfoldable pub redeliver : Reach → Payload I → List (ℕ × String) → Pool J → Pool J
  redeliver reach payload [] pool = pool
  redeliver reach payload ((now, msg_id) ∷ more) pool =
      redeliver reach payload more (run_job investigate reach cloud now msg_id payload pool).1

  -- Once a job is done or failed, further deliveries of it change nothing in the table, while the
  -- servers answer.
  pub redeliver-Finished :
      (reach : Reach) (payload : Payload I) (deliveries : List (ℕ × String)) (pool : Pool J)
      → reach.acks ≡ true
      → reach.reads ≡ true
      → Finished (job_id cloud payload) pool.table
      → (redeliver reach payload deliveries pool).table ≡ pool.table
  unfolding redeliver
  redeliver-Finished reach payload [] pool a r f = refl
  redeliver-Finished reach payload ((now, msg_id) ∷ more) pool a r f =
      let after = (run_job investigate reach cloud now msg_id payload pool).1 in
      let same = run_job-Finished reach now msg_id payload pool a r f in
      redeliver-Finished reach payload more after a r
        (subst (Finished (job_id cloud payload)) (sym same) f)
      ∙ same

  -- A job that crashes is marked as failed, unless it was aborted meanwhile: then it stays so.
  pub run_job-crashed :
      (reach : Reach) (now : ℕ) (msg_id : String) (payload : Payload I) (issue : I) (pool : Pool J)
      (table : Dict (Job J)) (job : Job J)
      → reach.writes ≡ true
      → is_terminal reach (job_id cloud payload) pool ≡ false
      → payload.issue ≡ some issue
      → investigate issue (job_id cloud payload) payload.fingerprint pool.table ≡ (true, table)
      → Dict.get (job_id cloud payload) table ≡ some job
      → Dict.get
          (job_id cloud payload)
          (run_job investigate reach cloud now msg_id payload pool).1.table
        ≡ some (
            if is_aborted job.status then job else record job { status = failed; updated_at = now })
  unfolding run_job run_valid work ack mark_failed finish_investigation
  run_job-crashed reach now msg_id payload issue pool table job w t i c g =
      let id = job_id cloud payload in
      ground (
        arith,
        i,
        ap (λ r. r.0) c,
        ap (λ r. r.1) c,
        get-update id id (finish_row now failed) table,
        eq_iff id id,
      )

  -- A job that is done or failed is investigated again where its acknowledgement raises.
  pub run_job-unacked :
      (reach : Reach) (now : ℕ) (msg_id : String) (payload : Payload I) (issue : I) (pool : Pool J)
      (table : Dict (Job J))
      → reach.acks ≡ false
      → Finished (job_id cloud payload) pool.table
      → payload.issue ≡ some issue
      → investigate issue (job_id cloud payload) payload.fingerprint pool.table ≡ (false, table)
      → (run_job investigate reach cloud now msg_id payload pool).1.table ≡ table
  unfolding run_job run_valid work ack
  run_job-unacked reach now msg_id payload issue pool table a f i c =
      ground (arith, i, ap (λ r. r.0) c, ap (λ r. r.1) c)
