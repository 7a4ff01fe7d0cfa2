-- ===== src/Storage/Patterns.antt =====
-- vishwakarma/storage/patterns.py: the table of confirmed patterns and the verdict of a replay. An
-- UPDATE goes through the rows. The word-boundary match of a keyword is a parameter.
mod Ops
mod Active
mod Retired
mod Verdicts
mod Tests
use vishwakarma.Prelude.{
  ℕ, ◌+◌, ◌-◌, ◌*◌, max, String, Bool, true, false, not, ◌&&◌, Option, none, some, List, [], ◌∷◌,
  ◌++◌, map, str_eq, ltb, leb, if◌then◌else◌, length, any, keep, take,
}

pub data PatternStatus : Type 0 where
  active expired wrong : PatternStatus

-- a step of an investigation, with the JSON of its parameters
pub record PatternStep (P : Type 0) : Type 0 where
  pub tool : String
  pub params : P
  pub what_to_check : String

pub record Pattern (P : Type 0) : Type 0 where
  pub id : String
  pub alert_name : String
  pub root_cause_type : String
  pub root_cause_detail : String
  pub investigation_steps : List (PatternStep P)
  pub verification_keywords : List String
  pub verification_anti_keywords : List String
  pub fix : String
  pub confidence : String
  pub hit_count : ℕ
  pub miss_count : ℕ
  pub first_seen : ℕ
  pub last_seen : ℕ
  pub last_incident_id : Option String
  pub status : PatternStatus

abbrev pub is_active : PatternStatus → Bool
is_active active = true
is_active _ = false

-- WHERE alert_name = ? AND root_cause_type = ? AND status = 'active'
abbrev pub is_of : {P : Type 0} → String → String → Pattern P → Bool
is_of alert_name root_cause_type p =
    str_eq p.alert_name alert_name
    && (str_eq p.root_cause_type root_cause_type && is_active p.status)

-- an equation in SQL, which NULL never satisfies
abbrev pub is_incident : Option String → String → Bool
is_incident none incident_id = false
is_incident (some i) incident_id = str_eq i incident_id

-- what `save_pattern` is given
pub record Found (P : Type 0) : Type 0 where
  pub root_cause_detail : String
  pub investigation_steps : List (PatternStep P)
  pub verification_keywords : List String
  pub verification_anti_keywords : List String
  pub fix : String
  pub confidence : String
  pub incident_id : Option String

module _ {P : Type 0} where
  unfoldable pub existing_pattern : String → String → List (Pattern P) → Option String
  existing_pattern alert_name root_cause_type [] = none
  existing_pattern alert_name root_cause_type (p ∷ table) =
      if is_of alert_name root_cause_type p
      then some p.id
      else existing_pattern alert_name root_cause_type table

  unfoldable pub seen_again : ℕ → Found P → Pattern P → Pattern P
  seen_again now found p = record p {
    hit_count = p.hit_count + 1;
    last_seen = now;
    last_incident_id = found.incident_id;
    root_cause_detail = found.root_cause_detail;
    investigation_steps = found.investigation_steps;
    verification_keywords = found.verification_keywords;
    verification_anti_keywords = found.verification_anti_keywords;
    fix = found.fix;
  }

  unfoldable pub new_pattern : ℕ → String → String → String → Found P → Pattern P
  new_pattern now pattern_id alert_name root_cause_type found = record {
    id = pattern_id;
    alert_name = alert_name;
    root_cause_type = root_cause_type;
    root_cause_detail = found.root_cause_detail;
    investigation_steps = found.investigation_steps;
    verification_keywords = found.verification_keywords;
    verification_anti_keywords = found.verification_anti_keywords;
    fix = found.fix;
    confidence = found.confidence;
    hit_count = 1;
    miss_count = 0;
    first_seen = now;
    last_seen = now;
    last_incident_id = found.incident_id;
    status = active;
  }

  -- UPDATE ... WHERE id = ?
  unfoldable pub update_by_id :
      String → (Pattern P → Pattern P) → List (Pattern P) → List (Pattern P)
  update_by_id pattern_id change = map (λ p. if str_eq p.id pattern_id then change p else p)

  -- the table has no room for a second row of an id: there the INSERT raises
  unfoldable pub insert : Pattern P → List (Pattern P) → Option (List (Pattern P))
  insert p table = if any (λ q. str_eq q.id p.id) table then none else some (table ++ (p ∷ []))

  -- the id of the pattern, and the table; `none` where the INSERT raises. One step, as the lock of the
  -- process makes it.
  unfoldable pub save_pattern :
      ℕ → String → String → String → Found P → List (Pattern P) → Option (String × List (Pattern P))
  unfolding seen_again new_pattern
  save_pattern now pattern_id alert_name root_cause_type found table =
      elim (existing_pattern alert_name root_cause_type table) [
        | some old ↦ some (old, update_by_id old (seen_again now found) table)
        | none ↦ elim (insert (new_pattern now pattern_id alert_name root_cause_type found) table) [
          | none ↦ none
          | some table' ↦ some (pattern_id, table')
        ]
      ]

  unfoldable pub mark_pattern_hit : ℕ → String → Option String → List (Pattern P) → List (Pattern P)
  mark_pattern_hit now pattern_id incident_id = update_by_id pattern_id (λ p. record p {
    hit_count = p.hit_count + 1;
    last_seen = now;
    last_incident_id = incident_id;
  })

  -- the second UPDATE
  unfoldable pub expire_worn : Pattern P → Pattern P
  expire_worn p = if ltb (p.hit_count * 2) p.miss_count then record p { status = expired } else p

  unfoldable pub mark_pattern_miss : String → List (Pattern P) → List (Pattern P)
  unfolding expire_worn
  mark_pattern_miss pattern_id table =
      update_by_id pattern_id expire_worn
        (update_by_id pattern_id (λ p. record p { miss_count = p.miss_count + 1 }) table)

  unfoldable pub mark_pattern_wrong : String → String → List (Pattern P) → List (Pattern P)
  mark_pattern_wrong alert_name root_cause_type =
      map (λ p. if is_of alert_name root_cause_type p then record p { status = wrong } else p)

  -- the table and the number of rows that changed
  unfoldable pub invalidate_patterns_for_incident : String → List (Pattern P) → List (Pattern P) × ℕ
  invalidate_patterns_for_incident incident_id [] = ([], 0)
  invalidate_patterns_for_incident incident_id (p ∷ table) =
      let (rest, n) = invalidate_patterns_for_incident incident_id table in
      if is_incident p.last_incident_id incident_id && is_active p.status
      then (record p { status = wrong } ∷ rest, n + 1)
      else (p ∷ rest, n)

  -- ORDER BY hit_count DESC: a row goes before those with fewer hits
  unfoldable pub insert_by_hits : Pattern P → List (Pattern P) → List (Pattern P)
  insert_by_hits p [] = p ∷ []
  insert_by_hits p (q ∷ qs) =
      if leb q.hit_count p.hit_count then p ∷ q ∷ qs else q ∷ insert_by_hits p qs

  unfoldable pub order_by_hits : List (Pattern P) → List (Pattern P)
  unfolding insert_by_hits
  order_by_hits [] = []
  order_by_hits (p ∷ ps) = insert_by_hits p (order_by_hits ps)

  -- `last_seen > now - max_age_days * 86400`
  abbrev pub is_fresh : ℕ → ℕ → String → Pattern P → Bool
  is_fresh now max_age_days alert_name p =
      str_eq p.alert_name alert_name
      && (is_active p.status && ltb now (p.last_seen + max_age_days * 86400))

  unfoldable pub get_patterns_for_alert : ℕ → String → ℕ → List (Pattern P) → List (Pattern P)
  unfolding order_by_hits
  get_patterns_for_alert now alert_name max_age_days table =
      take 5 (order_by_hits (keep (is_fresh now max_age_days alert_name) table))

-- what a replay says; the texts of its evidence are made of the keywords that were found
pub data Replay : Type 0 where
  different : List String → List String → Replay
  matched : Bool → List String → List String → Replay
  insufficient : List String → List String → Replay

-- the decision on the outputs of the steps: `matches` tells whether a keyword is found in them, and
-- `matched` whether the confidence is high
unfoldable pub validate : {P : Type 0} → (String → Bool) → Pattern P → Replay
validate matches pattern =
    let found = keep matches pattern.verification_keywords in
    let missing = keep (λ k. not (matches k)) pattern.verification_keywords in
    let anti_found = keep matches pattern.verification_anti_keywords in
    let n = max (length pattern.verification_keywords) 1 in
    if ltb 0 (length anti_found)
    then different anti_found found
    else if leb (3 * n) (5 * length found)
    then matched (leb (4 * n) (5 * length found)) found missing
    else insufficient found missing

-- the steps that are run
unfoldable pub run_steps : {P O : Type 0} → (PatternStep P → O) → List (PatternStep P) → List O
run_steps run steps = map run (take 5 steps)

-- `none` without steps; else the first five are run and their outputs validated
unfoldable pub replay_pattern :
    {P O : Type 0} → (PatternStep P → O) → (List O → String → Bool) → Pattern P → Option Replay
unfolding run_steps validate
replay_pattern run keyword_matches pattern = elim pattern.investigation_steps [
  | [] ↦ none
  | s ∷ steps ↦ some (validate (keyword_matches (run_steps run (s ∷ steps))) pattern)
]
