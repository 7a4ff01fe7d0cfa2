-- ===== src/Core/RunbookMatch/Tests.antt =====
-- Tests of the search for runbooks, and an instance of its theorem.
use vishwakarma.Prelude.{◌≤◌, String, ◌≡◌, refl, true, none, some, List, [], ◌∷◌, map, length, all}
use vishwakarma.Prelude.Dict
use vishwakarma.Prelude.Dict.{Dict}
use vishwakarma.Storage.Runbooks.{Runbook, Library, list_runbooks, mapped_runbook_ids}
use vishwakarma.Core.RunbookMatch.{
  keyword_scores, add_score, add_leg, merge_legs, rerank, match_runbooks,
}
use vishwakarma.Core.RunbookMatch.Eligible.{is_eligible, match_runbooks-eligible}

abbrev book : String → String → List String → Runbook
book cloud status keywords = record {
  title = "t";
  content_md = "c";
  cloud_type = cloud;
  keywords = keywords;
  services = [];
  author = "";
  version = 1;
  status = status;
  hit_count = 0;
  miss_count = 0;
  created_at = 1;
  updated_at = 1;
}

abbrev lib : Library
lib = record {
  runbooks =
      ("cpu", book "aws" "active" ("cpu" ∷ []))
      ∷ ("lag", book "gcp" "active" ("lag" ∷ []))
      ∷ ("old", book "aws" "demoted" ("cpu" ∷ []))
      ∷ ("any", book "any" "active" ("lag" ∷ []))
      ∷ [];
  alert_map = (record { alert_pattern = "k"; runbook_id = "cpu"; priority = 10 }) ∷ [];
}

found :
    map (λ r. r.0) (match_runbooks (λ t. t) none ("any" ∷ []) 3 "lag of cpu" "k" "aws" lib)
    ≡ "cpu" ∷ "any" ∷ []
unfolding match_runbooks list_runbooks mapped_runbook_ids keyword_scores merge_legs add_leg
    add_score rerank Dict.get Dict.put
found = refl

-- the model names a runbook twice, and it is returned twice
abbrev five : Library
five = record {
  runbooks =
      ("a", book "aws" "active" ("cpu" ∷ []))
      ∷ ("b", book "aws" "active" ("cpu" ∷ []))
      ∷ ("c", book "aws" "active" ("cpu" ∷ []))
      ∷ ("d", book "aws" "active" ("cpu" ∷ []))
      ∷ [];
  alert_map = [];
}

twice :
    map
      (λ r. r.0)
      (match_runbooks (λ t. t) (some (λ ids. some ("a" ∷ "a" ∷ []))) [] 3 "cpu" "" "aws" five)
    ≡ "a" ∷ "a" ∷ []
unfolding match_runbooks list_runbooks mapped_runbook_ids keyword_scores merge_legs add_leg
    add_score rerank Dict.get Dict.put
twice = refl

match_runbooks-eligible_example :
    let found = match_runbooks (λ t. t) none ("any" ∷ []) 3 "lag of cpu" "k" "aws" lib in
    (length found ≤ 3) × (all (λ r. is_eligible "aws" r.1) found ≡ true)
match_runbooks-eligible_example =
    match_runbooks-eligible (λ t. t) none ("any" ∷ []) 3 "lag of cpu" "k" "aws" lib
