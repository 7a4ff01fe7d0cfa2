-- ===== src/Storage/Investigations/Scans.antt =====
-- The two scans of storage/investigations.py, for the reaper and for the console. A row is returned
-- with its id; a job that has never beaten has the heartbeat 0 here and none there, but is not running.
use vishwakarma.Prelude.{
  ℕ, ◌+◌, String, Bool, true, false, ◌&&◌, [], ◌∷◌, ltb, if◌then◌else◌, keep, take,
}
use vishwakarma.Prelude.Dict.{Dict}
use vishwakarma.Storage.Investigations.{Job, JobStatus, queued, running, awaiting_fix_review}

abbrev pub is_running : JobStatus → Bool
is_running running = true
is_running _ = false

-- status IN ('queued','running','awaiting_fix_review')
abbrev pub is_active : JobStatus → Bool
is_active queued = true
is_active running = true
is_active awaiting_fix_review = true
is_active _ = false

module _ {J : Type 0} where
  -- ORDER BY heartbeat_at ASC and ORDER BY updated_at DESC, ties in the order of the table
  abbrev pub insert_oldest : String × Job J → Dict (Job J) → Dict (Job J)
  insert_oldest r [] = r ∷ []
  insert_oldest r (q ∷ rows) =
      if ltb (q.1).heartbeat_at (r.1).heartbeat_at then q ∷ insert_oldest r rows else r ∷ q ∷ rows

  abbrev pub order_oldest : Dict (Job J) → Dict (Job J)
  order_oldest [] = []
  order_oldest (r ∷ rows) = insert_oldest r (order_oldest rows)

  abbrev pub insert_latest : String × Job J → Dict (Job J) → Dict (Job J)
  insert_latest r [] = r ∷ []
  insert_latest r (q ∷ rows) =
      if ltb (r.1).updated_at (q.1).updated_at then q ∷ insert_latest r rows else r ∷ q ∷ rows

  abbrev pub order_latest : Dict (Job J) → Dict (Job J)
  order_latest [] = []
  order_latest (r ∷ rows) = insert_latest r (order_latest rows)

  -- status='running' AND heartbeat_at < time.time() - stale_seconds
  abbrev pub is_orphan : ℕ → ℕ → Job J → Bool
  is_orphan stale_seconds now job =
      is_running job.status && ltb (job.heartbeat_at + stale_seconds) now

  unfoldable pub find_orphaned : ℕ → ℕ → ℕ → Dict (Job J) → Dict (Job J)
  find_orphaned stale_seconds limit now table =
      take limit (order_oldest (keep (λ r. is_orphan stale_seconds now r.1) table))

  unfoldable pub list_active : ℕ → Dict (Job J) → Dict (Job J)
  list_active limit table = take limit (order_latest (keep (λ r. is_active r.1.status) table))
