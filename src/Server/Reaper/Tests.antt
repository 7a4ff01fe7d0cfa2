-- ===== src/Server/Reaper/Tests.antt =====
-- Runs of the reaper of server.py.
use vishwakarma.Prelude.{
  ℕ, String, ◌≡◌, refl, Bool, true, Option, none, some, List, [], ◌∷◌, arith, ltb,
}
use vishwakarma.Prelude.Dict
use vishwakarma.Prelude.Dict.{Dict}
use vishwakarma.Storage.Investigations.{
  Job, update, create_investigation, claim_investigation, apply_checkpoint,
  checkpoint_investigation, heartbeat, finish_investigation, running,
}
use vishwakarma.Storage.Investigations.Attempts.{step, attempts, beat}
use vishwakarma.Storage.Investigations.Status.{status_is, is_failed, after}
use vishwakarma.Storage.Investigations.Scans.{find_orphaned, list_active}
use vishwakarma.Server.Reaper.{World, resume_investigation, reap_orphans}
use vishwakarma.Server.Reaper.Exhausted.{is_done, resume_investigation-exhausted}

program : Unit {0}
unfolding resume_investigation reap_orphans find_orphaned list_active create_investigation
    claim_investigation checkpoint_investigation apply_checkpoint heartbeat finish_investigation
    update status_is after step Dict.get Dict.put
program = tt

abbrev row : ℕ → Job ℕ
row attempts = record {
  alert_key = "alert";
  cloud = "aws";
  status = running;
  phase = none;
  step = 4;
  messages = some 7;
  findings = none;
  code_session = none;
  worker_id = some "pod1";
  attempt = attempts;
  heartbeat_at = 100;
  created_at = 0;
  updated_at = 100;
}

abbrev idle : World ℕ (List String)
idle = record { table = ("j", row 3) ∷ []; outside = [] }

abbrev positive : ℕ → Bool
positive n = ltb 0 n

-- an engine that beats once and answers
abbrev stream : String → ℕ → ℕ → Dict (Job ℕ) → Option String × Dict (Job ℕ)
stream id messages steps table = (some "cause", heartbeat 310 id table)

abbrev post : String → String → List String → List String
post id final posted = final ∷ posted

others_are_reaped : reap_orphans 120 300 "pod2" (some idle.table) ≡ idle.table
unfolding program
others_are_reaped = refl

own_is_left : reap_orphans 120 300 "pod1" (some idle.table) ≡ []
unfolding program
own_is_left = refl

live_is_left : reap_orphans 120 220 "pod2" (some idle.table) ≡ []
unfolding program
live_is_left = refl

answer_is_posted :
    (resume_investigation positive stream post 300 320 "pod2" ("j", row 1) idle).outside
    ≡ "cause" ∷ []
unfolding program
answer_is_posted = refl

resume_investigation-exhausted_example :
    (let claimed = claim_investigation 300 "j" "pod2" idle.table in
      let world' = resume_investigation positive stream post 300 320 "pod2" ("j", row 3) idle in
      (claimed.0 ≡ none)
      × (status_is is_failed "j" claimed.1 ≡ true)
      × (world'.outside ≡ post "j" "cause" [])
      × (status_is is_done "j" world'.table ≡ true))
unfolding program
resume_investigation-exhausted_example =
    resume_investigation-exhausted positive stream post 300 320 "j" "pod2" "cause" 7 (row 3) (row 3)
      idle (beat 310 "j" ∷ []) refl refl refl refl (omega arith) tt refl
