-- ===== src/Server/Reaper.antt =====
-- vishwakarma/server.py: the reaper, which resumes the jobs whose worker stopped beating. `stream`
-- stands for `stream_investigate` of the engine from a checkpoint, which returns the last answer, or
-- none where it raises, and moves the table; `post` saves and posts an answer, and what raises there
-- is caught. `is_list` tells a checkpoint that is a list with messages.
mod Exhausted
mod Tests
use vishwakarma.Prelude.{
  ℕ, ◌+◌, String, Bool, false, not, Option, none, some, [], str_eq, ltb, if◌then◌else◌, keep,
}
use vishwakarma.Prelude.Dict.{Dict}
use vishwakarma.Storage.Investigations.{
  Job, claim_investigation, finish_investigation, done, failed,
}
use vishwakarma.Storage.Investigations.Scans.{find_orphaned}

-- the table of the jobs and all else that the reaper changes
pub record World (J W : Type 0) : Type 0 where
  pub table : Dict (Job J)
  pub outside : W

-- max(int(inv.get("step") or 0) + 25, 30)
abbrev pub max_steps : ℕ → ℕ
max_steps step = if ltb (step + 25) 30 then 30 else step + 25

module _ {J W : Type 0} (is_list : J → Bool)
    (stream : String → J → ℕ → Dict (Job J) → Option String × Dict (Job J))
    (post : String → String → W → W) where
  -- the end of a resumed job: a failure, or an answer that may be empty
  abbrev pub resumed : ℕ → String → Option String → Dict (Job J) → W → World J W
  resumed now incident_id none table outside = record {
    table = finish_investigation now incident_id failed table;
    outside = outside;
  }
  resumed now incident_id (some final) table outside = record {
    table = finish_investigation now incident_id done table;
    outside = if str_eq final "" then outside else post incident_id final outside;
  }

  -- the claim, whose answer is not looked at, and the engine from the messages of the checkpoint;
  -- `ended` is the clock when the job ends
  abbrev pub resume_from : ℕ → ℕ → String → String → J → ℕ → World J W → World J W
  resume_from now ended host incident_id messages step world =
      let claimed = (claim_investigation now incident_id host world.table).1 in
      let (final, table) = stream incident_id messages (max_steps step) claimed in
      resumed ended incident_id final table world.outside

  abbrev pub fail : ℕ → String → World J W → World J W
  fail now incident_id world = record world {
    table = finish_investigation now incident_id failed world.table;
  }

  -- `inv` is the row that the scan returned
  unfoldable pub resume_investigation : ℕ → ℕ → String → String × Job J → World J W → World J W
  resume_investigation now ended host (incident_id, inv) world = elim inv.messages [
    | none ↦ fail now incident_id world
    | some messages ↦
        if is_list messages
        then resume_from now ended host incident_id messages inv.step world
        else fail now incident_id world
  ]

-- `inv.get("worker_id") == me`
abbrev pub is_mine : {J : Type 0} → String → Job J → Bool
is_mine me inv = elim inv.worker_id [ none ↦ false | some worker ↦ str_eq worker me ]

-- the rows that a sweep resumes, each in a thread of its own; none where the scan raises
unfoldable pub reap_orphans : {J : Type 0} → ℕ → ℕ → String → Option (Dict (Job J)) → Dict (Job J)
reap_orphans stale_seconds now me none = []
reap_orphans stale_seconds now me (some table) =
    keep (λ r. not (is_mine me r.1)) (find_orphaned stale_seconds 10 now table)
