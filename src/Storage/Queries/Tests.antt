-- ===== src/Storage/Queries/Tests.antt =====
-- Tests of the tables of storage/queries.py, and instances of their theorems.
use vishwakarma.Prelude.{ℕ, String, ◌≡◌, refl, none, some, List, [], ◌∷◌}
use vishwakarma.Prelude.Dict
use vishwakarma.Prelude.Dict.{Dict}
use vishwakarma.Storage.Queries.{Incident, check_dedup, set_dedup, clear_expired_dedup}
use vishwakarma.Storage.Queries.Windows.{
  Op, apply_all, spec_ops, spec_check, check_dedup-apply_all, set, clear,
}

abbrev calls : List Op
calls = set 0 "f" "one" 300 ∷ clear 200 ∷ set 250 "g" "two" 300 ∷ clear 301 ∷ []

found_windows : check_dedup 400 "g" (apply_all calls []) ≡ some "two"
unfolding check_dedup set_dedup clear_expired_dedup Dict.get Dict.put
found_windows = refl

check_dedup-apply_all_example :
    check_dedup 400 "f" (apply_all calls []) ≡ spec_check 400 (spec_ops calls (λ j. none) "f")
check_dedup-apply_all_example = check_dedup-apply_all 400 calls "f" refl

abbrev incident : String → Dict String → Incident ℕ
incident status labels = record {
  title = "t";
  source = "alertmanager";
  severity = "info";
  status = status;
  question = "q";
  analysis = "a";
  tool_outputs = 0;
  meta = 0;
  labels = labels;
  slack_ts = none;
  pdf_path = none;
  created_at = 1;
  updated_at = 1;
  resolved_at = none;
}

abbrev incidents : Dict (Incident ℕ)
incidents =
    ("a", incident "open" (("alertname", "Lag") ∷ ("namespace", "atlas") ∷ []))
    ∷ ("b", incident "open" (("alertname", "Lag") ∷ ("namespace", "beta") ∷ []))
    ∷ []

abbrev cleared_alert : Dict String
cleared_alert = ("alertname", "Lag") ∷ ("namespace", "atlas") ∷ []
