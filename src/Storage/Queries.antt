-- ===== src/Storage/Queries.antt =====
-- vishwakarma/storage/queries.py: the incidents, the windows in which an alert is a duplicate, and
-- the chat sessions. Each table is a dict on its primary key; `J` is the type of the JSON values,
-- whose encoding is left out. Clock readings are natural numbers of seconds.
mod Resolved
mod Windows
mod Tests
use vishwakarma.Prelude.{
  ℕ, zero, suc, ◌+◌, String, Bool, true, false, ◌&&◌, ◌||◌, Option, none, some, [], ◌∷◌, str_eq,
  ltb, leb, if◌then◌else◌, str_append, keep, take,
}
use vishwakarma.Prelude.Dict
use vishwakarma.Prelude.Dict.{Dict}
use vishwakarma.Core.Correlation.{label}

pub record Incident (J : Type 0) : Type 0 where
  pub title : String
  pub source : String
  pub severity : String
  pub status : String
  pub question : String
  pub analysis : String
  pub tool_outputs : J
  pub meta : J
  pub labels : Dict String
  pub slack_ts : Option String
  pub pdf_path : Option String
  pub created_at : ℕ
  pub updated_at : ℕ
  pub resolved_at : Option ℕ

-- COALESCE(new, old)
abbrev pub coalesce {ℓ} : {A : Type ℓ} → Option A → Option A → Option A
coalesce none old = old
coalesce (some new) old = some new

-- `L.get(k) == v`
abbrev pub has_label : String → String → Dict String → Bool
has_label k v labels = elim (Dict.get k labels) [ none ↦ false | some w ↦ str_eq w v ]

-- the alert name is the same, and the namespace and the service where the alert has them
unfoldable pub is_of_alert : Dict String → Dict String → Bool
is_of_alert alert labels =
    let ns = label "namespace" alert in
    let svc = label "service" alert in
    has_label "alertname" (label "alertname" alert) labels
    && ((str_eq ns "" || has_label "namespace" ns labels)
        && (str_eq svc "" || has_label "service" svc labels))

-- a filter that is None or "" is left out
abbrev pub selects : Option String → String → Bool
selects none column = true
selects (some v) column = str_eq v "" || str_eq column v

module _ {J : Type 0} where
  -- the columns of a conflict that DO UPDATE SET writes
  abbrev pub merge : Incident J → Incident J → Incident J
  merge excluded old = record old {
    analysis = excluded.analysis;
    tool_outputs = excluded.tool_outputs;
    meta = excluded.meta;
    updated_at = excluded.updated_at;
    slack_ts = coalesce excluded.slack_ts old.slack_ts;
    pdf_path = coalesce excluded.pdf_path old.pdf_path;
  }

  -- `new` has the arguments, status "open" and the clock in both times
  unfoldable pub save_incident : String → Incident J → Dict (Incident J) → Dict (Incident J)
  save_incident id new table = elim (Dict.get id table) [
    | none ↦ Dict.put id new table
    | some old ↦ Dict.put id (merge new old) table
  ]

  abbrev pub with_status : ℕ → String → Incident J → Incident J
  with_status now status inc = record inc {
    status = status;
    updated_at = now;
    resolved_at = if str_eq status "resolved" then some now else none;
  }

  -- with whether a row was updated
  unfoldable pub update_incident_status :
      ℕ → String → String → Dict (Incident J) → Bool × Dict (Incident J)
  update_incident_status now id status table = elim (Dict.get id table) [
    | none ↦ (false, table)
    | some inc ↦ (true, Dict.put id (with_status now status inc) table)
  ]

  abbrev pub is_open : Incident J → Bool
  is_open inc = str_eq inc.status "open"

  -- the loop over the open rows that were read; `now` is the same for all updates
  unfoldable pub resolve_rows :
      ℕ → Dict String → Dict (Incident J) → ℕ → Dict (Incident J) → ℕ × Dict (Incident J)
  unfolding update_incident_status is_of_alert
  resolve_rows now alert [] resolved table = (resolved, table)
  resolve_rows now alert ((id, inc) ∷ rows) resolved table =
      let (updated, table') = update_incident_status now id "resolved" table in
      if is_open inc && is_of_alert alert inc.labels
      then resolve_rows now alert rows (if updated then resolved + 1 else resolved) table'
      else resolve_rows now alert rows resolved table

  unfoldable pub resolve_incidents_by_labels :
      ℕ → Dict String → Dict (Incident J) → ℕ × Dict (Incident J)
  unfolding resolve_rows
  resolve_incidents_by_labels now alert table =
      if str_eq (label "alertname" alert) ""
      then (0, table)
      else resolve_rows now alert table 0 table

  unfoldable pub get_incident : String → Dict (Incident J) → Option (Incident J)
  get_incident id table = Dict.get id table

  -- ORDER BY created_at DESC
  abbrev pub insert_newest : String × Incident J → Dict (Incident J) → Dict (Incident J)
  insert_newest r [] = r ∷ []
  insert_newest r (q ∷ rows) =
      if ltb (r.1).created_at (q.1).created_at then q ∷ insert_newest r rows else r ∷ q ∷ rows

  abbrev pub order_newest : Dict (Incident J) → Dict (Incident J)
  order_newest [] = []
  order_newest (r ∷ rows) = insert_newest r (order_newest rows)

  abbrev pub drop : ℕ → Dict (Incident J) → Dict (Incident J)
  drop zero rows = rows
  drop (suc n) [] = []
  drop (suc n) (r ∷ rows) = drop n rows

  unfoldable pub list_incidents :
      Option String → Option String → ℕ → ℕ → Dict (Incident J) → Dict (Incident J)
  list_incidents source status limit offset table =
      let chosen = keep (λ r. selects source (r.1).source && selects status (r.1).status) table in
      take limit (drop offset (order_newest chosen))

-- dedup_state
pub record Window : Type 0 where
  pub incident_id : String
  pub expires_at : ℕ

unfoldable pub check_dedup : ℕ → String → Dict Window → Option String
check_dedup now fingerprint table = elim (Dict.get fingerprint table) [
  | none ↦ none
  | some w ↦ if ltb now w.expires_at then some w.incident_id else none
]

unfoldable pub set_dedup : ℕ → String → String → ℕ → Dict Window → Dict Window
set_dedup now fingerprint incident_id window_seconds table =
    Dict.put fingerprint (record { incident_id = incident_id; expires_at = now + window_seconds })
      table

-- DELETE FROM dedup_state WHERE expires_at <= now
unfoldable pub clear_expired_dedup : ℕ → Dict Window → Dict Window
clear_expired_dedup now [] = []
clear_expired_dedup now ((k, w) ∷ table) =
    let rest = clear_expired_dedup now table in if leb w.expires_at now then rest else (k, w) ∷ rest

-- a + ":" + b
abbrev colon : String → String → String
colon a b = str_append a (str_append ":" b)

-- the text that is hashed
unfoldable pub alert_fingerprint : (String → String) → Dict String → String
alert_fingerprint md5 labels = md5 (
    colon (label "alertname" labels) (
      colon (label "namespace" labels)
        (colon (label "service" labels) (colon (label "job" labels) (label "instance" labels)))))
