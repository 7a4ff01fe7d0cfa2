-- ===== src/Server/Reaper/Exhausted.antt =====
-- What the reaper of server.py does with a job that has no attempt left.
use vishwakarma.Prelude.{
  ℕ, ◌≤◌, String, ◌≡◌, refl, Bool, true, false, Option, none, some, List, arith, str_eq, eq_iff,
  if◌then◌else◌,
}
use vishwakarma.Prelude.Dict
use vishwakarma.Prelude.Dict.{Dict}
use vishwakarma.Storage.Investigations.{
  Job, max_attempts, JobStatus, is_finished, fail_row, finish_row, claim_investigation,
  finish_investigation, done,
}
use vishwakarma.Storage.Investigations.Attempts.{Op, get-update}
use vishwakarma.Storage.Investigations.Status.{
  status_is, is_failed, Finishes, after, finished_is_final,
}
use vishwakarma.Server.Reaper.{World, max_steps, resume_investigation}

abbrev pub is_done : JobStatus → Bool
is_done done = true
is_done _ = false

module _ {J W : Type 0} (is_list : J → Bool)
    (stream : String → J → ℕ → Dict (Job J) → Option String × Dict (Job J))
    (post : String → String → W → W) where
  finish-done :
      (now : ℕ) (id : String) (table : Dict (Job J))
      → status_is is_finished id table ≡ true
      → status_is is_done id (finish_investigation now id done table) ≡ true
  unfolding status_is finish_investigation
  finish-done now id table h =
      ground (arith, eq_iff id id, get-update id id (finish_row now done) table)

  claim-exhausted :
      (now : ℕ) (id host : String) (job : Job J) (table : Dict (Job J))
      → Dict.get id table ≡ some job
      → is_finished job.status ≡ false
      → max_attempts ≤ job.attempt
      → ((claim_investigation now id host table).0 ≡ none)
        × (status_is is_failed id (claim_investigation now id host table).1 ≡ true)
  unfolding claim_investigation status_is
  claim-exhausted now id host job table found live used =
      ground (arith, eq_iff id id, get-update id id (fail_row now) table)

  failed-finished :
      (id : String) (table : Dict (Job J))
      → status_is is_failed id table ≡ true
      → status_is is_finished id table ≡ true
  unfolding status_is
  failed-finished id table h = ground (arith, h)

  -- A job that is neither done nor failed and has used its attempts is refused by the claim that the
  -- reaper makes, which marks it as failed. If the engine, asked to go on from the checkpoint after
  -- that claim, returns an answer, the reaper posts this answer, unless it is empty, and the job ends
  -- as done, whatever operations come between, if each `finish` among them is with "done" or
  -- "failed".
  pub resume_investigation-exhausted :
      (now ended : ℕ) (id host final : String) (messages : J) (inv job : Job J) (world : World J W)
      (ops : List (Op J))
      → inv.messages ≡ some messages
      → is_list messages ≡ true
      → Dict.get id world.table ≡ some job
      → is_finished job.status ≡ false
      → max_attempts ≤ job.attempt
      → Finishes ops
      → stream id messages (max_steps inv.step) (claim_investigation now id host world.table).1
        ≡ (some final, after id ops (claim_investigation now id host world.table).1)
      → (let claimed = claim_investigation now id host world.table in
          let world' = resume_investigation is_list stream post now ended host (id, inv) world in
          (claimed.0 ≡ none)
          × (status_is is_failed id claimed.1 ≡ true)
          × (world'.outside
              ≡ (if str_eq final "" then world.outside else post id final world.outside))
          × (status_is is_done id world'.table ≡ true))
  unfolding resume_investigation
  resume_investigation-exhausted now ended id host final messages inv job world ops has listed found
        live used f ran =
      let (refused, marked) = claim-exhausted now id host job world.table found live used in
      let claimed = (claim_investigation now id host world.table).1 in
      let (still, _) = finished_is_final id ops claimed f (failed-finished id claimed marked) in
      (
        refused,
        marked,
        rw (has, listed, ran) refl,
        rw (has, listed, ran) (finish-done ended id (after id ops claimed) still),
      )
