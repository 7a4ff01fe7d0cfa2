-- ===== src/Core/Aborts.antt =====
-- vishwakarma/core/aborts.py: the investigations that a user has aborted. The set of ids is a list
-- that is only asked what it holds; the table of the jobs may be out of reach, which is `none`.
mod Sticky
mod Tests
use vishwakarma.Prelude.{
  String, Bool, true, false, not, Option, none, some, List, ◌∷◌, str_eq, if◌then◌else◌, keep,
}
use vishwakarma.Prelude.Dict
use vishwakarma.Prelude.Dict.{Dict}
use vishwakarma.Core.Correlation.{is_in}
use vishwakarma.Storage.Investigations.{Job, JobStatus, aborting, aborted, get_investigation}

abbrev pub Marked : Type 0
Marked = List String

unfoldable pub request_abort : String → Marked → Marked
request_abort incident_id marked = incident_id ∷ marked

unfoldable pub clear_abort : String → Marked → Marked
clear_abort incident_id marked = keep (λ k. not (str_eq k incident_id)) marked

-- inv.get("status") in ("aborting", "aborted")
abbrev pub says_abort : JobStatus → Bool
says_abort aborting = true
says_abort aborted = true
says_abort _ = false

module _ {J : Type 0} where
  abbrev pub table_says : String → Option (Dict (Job J)) → Bool
  table_says incident_id none = false
  table_says incident_id (some table) = elim (get_investigation incident_id table) [
    | none ↦ false
    | some inv ↦ says_abort inv.status
  ]

  -- an abort that the table shows is remembered
  unfoldable pub is_aborted : String → Option (Dict (Job J)) → Marked → Bool × Marked
  is_aborted incident_id table marked =
      if str_eq incident_id ""
      then (false, marked)
      else if is_in marked incident_id
      then (true, marked)
      else if table_says incident_id table
      then (true, incident_id ∷ marked)
      else (false, marked)
