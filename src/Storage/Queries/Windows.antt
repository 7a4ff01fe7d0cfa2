-- ===== src/Storage/Queries/Windows.antt =====
-- The dedup windows of storage/queries.py against a map from fingerprints to windows, in which
-- nothing is ever cleared.
use mathlib.Core.Bool.{true}
use vishwakarma.Prelude.{
  ℕ, ◌+◌, ◌≤◌, String, ◌≡◌, refl, ◌∙◌, inl, inr, Bool, true, Option, none, some, List, [], ◌∷◌,
  arith, str_eq, eq_iff, ltb, leb, if◌then◌else◌, Bool-cases, Option-cases, all,
}
use vishwakarma.Prelude.Dict
use vishwakarma.Prelude.Dict.{Dict, get-put, get-empty}
use vishwakarma.Storage.Queries.{Window, check_dedup, set_dedup, clear_expired_dedup}

-- a call that writes, with its clock reading
pub data Op : Type 0 where
  set : ℕ → String → String → ℕ → Op
  clear : ℕ → Op

abbrev pub apply : Op → Dict Window → Dict Window
apply (set now fp id w) table = set_dedup now fp id w table
apply (clear now) table = clear_expired_dedup now table

abbrev pub apply_all : List Op → Dict Window → Dict Window
apply_all [] table = table
apply_all (op ∷ ops) table = apply_all ops (apply op table)

-- the specification
abbrev pub Spec : Type 0
Spec = String → Option Window

abbrev pub spec_op : Op → Spec → Spec
spec_op (set now fp id w) spec k =
    if str_eq fp k then some (record { incident_id = id; expires_at = now + w }) else spec k
spec_op (clear now) spec k = spec k

abbrev pub spec_ops : List Op → Spec → Spec
spec_ops [] spec = spec
spec_ops (op ∷ ops) spec = spec_ops ops (spec_op op spec)

abbrev pub spec_check : ℕ → Option Window → Option String
spec_check now none = none
spec_check now (some w) = if ltb now w.expires_at then some w.incident_id else none

-- no call is made later than `now`
abbrev pub made_by : ℕ → Op → Bool
made_by now (set at fp id w) = leb at now
made_by now (clear at) = leb at now

check_dedup-spec_check :
    (now : ℕ) (k : String) (table : Dict Window)
    → check_dedup now k table ≡ spec_check now (Dict.get k table)
unfolding check_dedup
check_dedup-spec_check now k table = elim (Option-cases (Dict.get k table)) [
  | inl e ↦ ground (arith, e)
  | inr (w, e) ↦ ground (arith, e)
]

get-clear_expired_dedup :
    (at now : ℕ) (k : String) (table : Dict Window)
    → at ≤ now
    → Dict.Unique table
    → check_dedup now k (clear_expired_dedup at table) ≡ check_dedup now k table
unfolding clear_expired_dedup check_dedup Dict.get
get-clear_expired_dedup at now k [] h u = refl
get-clear_expired_dedup at now k ((j, w) ∷ table) h u = ground (
  arith,
  eq_iff j k,
  get-clear_expired_dedup at now k table h u.1,
  check_dedup-spec_check now k table,
)

clear-fresh :
    (at : ℕ) (k : String) (table : Dict Window)
    → Dict.get k table ≡ none
    → Dict.get k (clear_expired_dedup at table) ≡ none
unfolding clear_expired_dedup Dict.get
clear-fresh at k [] h = refl
clear-fresh at k ((j, w) ∷ table) h = ground (arith, clear-fresh at k table)

clear-Unique :
    (at : ℕ) (table : Dict Window) → Dict.Unique table → Dict.Unique (clear_expired_dedup at table)
unfolding clear_expired_dedup
clear-Unique at [] u = tt
clear-Unique at ((j, w) ∷ table) u = elim (Bool-cases (leb w.expires_at at)) [
  | inl e ↦ rw e (clear-Unique at table u.1)
  | inr e ↦ rw e (clear-fresh at j table u.0, clear-Unique at table u.1)
]

apply-Unique : (op : Op) (table : Dict Window) → Dict.Unique table → Dict.Unique (apply op table)
unfolding set_dedup
apply-Unique (set at fp id w) table u = Dict.put-Unique fp _ table u
apply-Unique (clear at) table u = clear-Unique at table u

-- one call, seen by a later look
check_dedup-apply :
    (now : ℕ) (op : Op) (k : String) (table : Dict Window) (spec : Spec)
    → made_by now op ≡ true
    → Dict.Unique table
    → check_dedup now k table ≡ spec_check now (spec k)
    → check_dedup now k (apply op table) ≡ spec_check now (spec_op op spec k)
unfolding set_dedup check_dedup
check_dedup-apply now (set at fp id w) k table spec m u h =
    ground (arith, get-put fp k (record { incident_id = id; expires_at = at + w }) table)
check_dedup-apply now (clear at) k table spec m u h =
    get-clear_expired_dedup at now k table (ground arith) u ∙ h

check_dedup-apply_from :
    (now : ℕ) (ops : List Op) (k : String) (table : Dict Window) (spec : Spec)
    → all (made_by now) ops ≡ true
    → Dict.Unique table
    → ((j : String) → check_dedup now j table ≡ spec_check now (spec j))
    → check_dedup now k (apply_all ops table) ≡ spec_check now (spec_ops ops spec k)
check_dedup-apply_from now [] k table spec m u h = h k
check_dedup-apply_from now (op ∷ ops) k table spec m u h =
    let here : made_by now op ≡ true = ground arith in
    check_dedup-apply_from now ops k (apply op table) (spec_op op spec) (ground arith)
      (apply-Unique op table u) (λ j. check_dedup-apply now op j table spec here u (h j))

-- The table of the dedup windows behaves as a map from fingerprints to windows: from an empty table,
-- after any windows that were set and any clearings of expired ones, a look that comes no earlier
-- than they do finds what the last window that was set for the fingerprint says.
pub check_dedup-apply_all :
    (now : ℕ) (ops : List Op) (k : String)
    → all (made_by now) ops ≡ true
    → check_dedup now k (apply_all ops []) ≡ spec_check now (spec_ops ops (λ j. none) k)
unfolding check_dedup Dict.get
check_dedup-apply_all now ops k m = check_dedup-apply_from now ops k [] (λ j. none) m tt (λ j. refl)
