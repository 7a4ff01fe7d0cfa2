-- ===== src/Storage/Queries/Resolved.antt =====
-- Which incidents storage/queries.py resolves when an alert has cleared.
use vishwakarma.Prelude.{
  ℕ, ◌+◌, String, ◌≡◌, refl, inl, inr, Bool, false, ◌&&◌, Option, none, some, [], ◌∷◌, arith,
  str_eq, eq_iff, if◌then◌else◌, Bool-cases, Option-cases, any,
}
use vishwakarma.Prelude.Dict
use vishwakarma.Prelude.Dict.{Dict, get-put, get-empty}
use vishwakarma.Core.Correlation.{label}
use vishwakarma.Storage.Queries.{
  Incident, is_of_alert, with_status, update_incident_status, is_open, resolve_rows,
  resolve_incidents_by_labels, get_incident,
}

module _ {J : Type 0} (now : ℕ) (alert : Dict String) where
  -- open, and of the alert
  abbrev pub clears : Incident J → Bool
  clears inc = is_open inc && is_of_alert alert inc.labels

  abbrev pub resolved_as : Option (Incident J) → Option (Incident J)
  resolved_as none = none
  resolved_as (some inc) = some (with_status now "resolved" inc)

  -- a row of the list has the id and is cleared
  abbrev chosen : Dict (Incident J) → String → Bool
  chosen rows k = any (λ r. str_eq r.0 k && clears r.1) rows

  update-get :
      (id k : String) (table : Dict (Incident J))
      → Dict.get k (update_incident_status now id "resolved" table).1
        ≡ (if str_eq id k then resolved_as (Dict.get k table) else Dict.get k table)
  unfolding update_incident_status
  update-get id k table = elim (Option-cases (Dict.get id table)) [
    | inl e ↦ ground (arith, e, eq_iff id k)
    | inr (inc, e) ↦
        ground (arith, e, eq_iff id k, get-put id k (with_status now "resolved" inc) table)
  ]

  resolved_as-twice : (o : Option (Incident J)) → resolved_as (resolved_as o) ≡ resolved_as o
  resolved_as-twice none = refl
  resolved_as-twice (some inc) = refl

  resolve_rows-get :
      (rows : Dict (Incident J)) (n : ℕ) (table : Dict (Incident J)) (k : String)
      → Dict.get k (resolve_rows now alert rows n table).1
        ≡ (if chosen rows k then resolved_as (Dict.get k table) else Dict.get k table)
  unfolding resolve_rows
  resolve_rows-get [] n table k = refl
  resolve_rows-get ((id, inc) ∷ rows) n table k =
      let (updated, table') = update_incident_status now id "resolved" table in
      elim (Bool-cases (clears inc)) [
        | inl e ↦ ground (
          arith,
          e,
          update-get id k table,
          resolved_as-twice (Dict.get k table),
          resolve_rows-get rows (if updated then n + 1 else n) table' k,
        )
        | inr e ↦ ground (arith, e, resolve_rows-get rows n table k)
      ]

  -- of the rows of a table at most one has the id
  chosen-none :
      (k : String) (rows : Dict (Incident J)) → Dict.get k rows ≡ none → chosen rows k ≡ false
  unfolding Dict.get
  chosen-none k [] h = refl
  chosen-none k ((id, inc) ∷ rows) h = ground (arith, chosen-none k rows)

  abbrev clears_one : Option (Incident J) → Bool
  clears_one none = false
  clears_one (some inc) = clears inc

  chosen-get :
      (k : String) (rows : Dict (Incident J))
      → Dict.Unique rows
      → chosen rows k ≡ clears_one (Dict.get k rows)
  unfolding Dict.get
  chosen-get k [] u = refl
  chosen-get k ((id, inc) ∷ rows) u =
      ground (arith, chosen-get k rows u.1, chosen-none id rows u.0, eq_iff id k)

  -- an incident after the alert has cleared
  abbrev pub after_clearing : Option (Incident J) → Option (Incident J)
  after_clearing none = none
  after_clearing (some inc) = some (if clears inc then with_status now "resolved" inc else inc)

  -- When an alert with a name has cleared, exactly the open incidents of its name, and of its
  -- namespace and service where it has them, are resolved now, and every other incident stays.
  pub resolve_incidents-get :
      (table : Dict (Incident J)) (k : String)
      → str_eq (label "alertname" alert) "" ≡ false
      → Dict.Unique table
      → get_incident k (resolve_incidents_by_labels now alert table).1
        ≡ after_clearing (get_incident k table)
  unfolding get_incident resolve_incidents_by_labels
  resolve_incidents-get table k named u = elim (Option-cases (Dict.get k table)) [
    | inl e ↦ ground (arith, e, resolve_rows-get table 0 table k, chosen-get k table u)
    | inr (inc, e) ↦ ground (arith, e, resolve_rows-get table 0 table k, chosen-get k table u)
  ]
