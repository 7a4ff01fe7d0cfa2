-- ===== src/Core/Aborts/Tests.antt =====
-- Runs of the aborts of core/aborts.py.
use vishwakarma.Prelude.{ℕ, ◌≡◌, refl, true, false, none, some, [], ◌∷◌}
use vishwakarma.Prelude.Dict
use vishwakarma.Core.Aborts.{request_abort, clear_abort, is_aborted}
use vishwakarma.Storage.Investigations.{
  update, create_investigation, get_investigation, abort_investigation,
}
use vishwakarma.Prelude.Dict.{Dict}
use vishwakarma.Storage.Investigations.{Job}

program : Unit {0}
unfolding request_abort clear_abort is_aborted create_investigation abort_investigation
    get_investigation update Dict.get Dict.put
program = tt

abbrev queued_job : Dict (Job ℕ)
queued_job = create_investigation 1 "j" "alert" "aws" []

abbrev aborted_job : Dict (Job ℕ)
aborted_job = abort_investigation 2 "j" queued_job

queued_goes_on : is_aborted "j" (some queued_job) [] ≡ (false, [])
unfolding program
queued_goes_on = refl

aborted_is_remembered : is_aborted "j" (some aborted_job) [] ≡ (true, "j" ∷ [])
unfolding program
aborted_is_remembered = refl

cleared_goes_on : is_aborted {J = ℕ} "j" none (clear_abort "j" (request_abort "j" [])) ≡ (false, [])
unfolding program
cleared_goes_on = refl
