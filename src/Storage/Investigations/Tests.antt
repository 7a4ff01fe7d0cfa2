-- ===== src/Storage/Investigations/Tests.antt =====
-- Runs of the jobs of storage/investigations.py.
use vishwakarma.Prelude.{
  ℕ, ◌≤◌, ◌≡◌, refl, true, not, none, some, List, [], ◌∷◌, arith, ltb, is_some,
}
use vishwakarma.Prelude.Dict
use vishwakarma.Storage.Investigations.{
  Checkpoint, is_finished, update, create_investigation, claim_investigation,
  checkpoint_investigation, heartbeat, finish_investigation, abort_investigation, done,
}
use vishwakarma.Storage.Investigations.Attempts.{
  Op, step, claims, attempts, claims-le-max_attempts, create, claim, finish, abort, beat,
}
use vishwakarma.Storage.Investigations.Scans.{is_running, find_orphaned, list_active}
use vishwakarma.Storage.Investigations.Orphans.{find_orphaned-claimed}
use vishwakarma.Storage.Investigations.Status.{
  status_is, after, finished_is_final, claim-aborted, is_failed,
}

program : Unit {0}
unfolding find_orphaned list_active create_investigation claim_investigation
    checkpoint_investigation heartbeat finish_investigation abort_investigation update step attempts
    status_is after claims Dict.get Dict.put
program = tt

abbrev ops : List (Op ℕ)
ops =
    create 1 "j" "alert" "aws"
    ∷ claim 2 "j" "w"
    ∷ claim 3 "j" "w"
    ∷ claim 4 "j" "w"
    ∷ claim 5 "j" "w"
    ∷ finish 6 "j" done
    ∷ []

claims_in_ops : claims "j" ops [] ≡ 3
unfolding program
claims_in_ops = refl

claims-le-max_attempts_example : claims "j" ops [] ≤ 3
claims-le-max_attempts_example = claims-le-max_attempts "j" ops

finished_is_final_example :
    (status_is is_finished "j" (after "j" ops (after "j" ops [])) ≡ true)
    × (claims "j" ops (after "j" ops []) ≡ 0)
unfolding program
finished_is_final_example = finished_is_final "j" ops (after "j" ops []) (refl, tt) refl

abbrev begun : List (Op ℕ)
begun = create 1 "j" "alert" "aws" ∷ create 2 "k" "alert" "aws" ∷ []

abbrev stopped : List (Op ℕ)
stopped = create 1 "j" "alert" "aws" ∷ claim 2 "j" "w" ∷ abort 3 "j" ∷ []

claim-aborted_example :
    (is_some (claim_investigation 4 "j" "v" (after "j" stopped [])).0
      ≡ ltb (attempts "j" (after "j" stopped [])) 3)
    × (status_is is_running "j" (claim_investigation 4 "j" "v" (after "j" stopped [])).1
        ≡ ltb (attempts "j" (after "j" stopped [])) 3)
    × (status_is is_failed "j" (claim_investigation 4 "j" "v" (after "j" stopped [])).1
        ≡ not (ltb (attempts "j" (after "j" stopped [])) 3))
unfolding program
claim-aborted_example = claim-aborted "j" "v" 4 (after "j" stopped []) refl

abbrev saved : Checkpoint ℕ
saved = record {
  messages = some 9;
  phase = none;
  step = some 2;
  findings = none;
  code_session = none;
}

stopped_is_left_out : list_active 5 (after "j" stopped []) ≡ []
unfolding program
stopped_is_left_out = refl

find_orphaned-claimed_example :
    Dict.get "j" (
      find_orphaned 180 20 190
        (after "j" (beat 20 "k" ∷ []) (claim_investigation 10 "j" "w" (after "j" begun [])).1))
    ≡ none
unfolding program
find_orphaned-claimed_example =
    find_orphaned-claimed 10 190 180 20 "j" "w" (beat 20 "k" ∷ []) (after "j" begun [])
      (ground arith) (omega arith, tt) (omega arith)
