-- ===== src/Storage/Patterns/Tests.antt =====
-- Runs of storage/patterns.py on a small table.
use vishwakarma.Prelude.{
  ℕ, ◌≤◌, String, ◌≡◌, refl, Bool, false, some, List, [], ◌∷◌, map, str_eq, any,
}
use vishwakarma.Storage.Patterns.{
  PatternStep, Pattern, Found, existing_pattern, seen_again, new_pattern, update_by_id, insert,
  save_pattern, mark_pattern_hit, expire_worn, mark_pattern_miss, mark_pattern_wrong,
  invalidate_patterns_for_incident, insert_by_hits, order_by_hits, get_patterns_for_alert, validate,
  run_steps, replay_pattern, wrong, insufficient,
}
use vishwakarma.Storage.Patterns.Ops.{Op, apply, apply_all, save, miss}
use vishwakarma.Storage.Patterns.Active.{live, live-le-one}
use vishwakarma.Storage.Patterns.Retired.{Retired, has, Retired-is_final}

program : Unit {0}
unfolding existing_pattern seen_again new_pattern update_by_id insert save_pattern mark_pattern_hit
    mark_pattern_miss expire_worn mark_pattern_wrong invalidate_patterns_for_incident insert_by_hits
    order_by_hits get_patterns_for_alert validate run_steps replay_pattern apply apply_all
program = tt

abbrev look : PatternStep ℕ
look = record { tool = "bash"; params = 1; what_to_check = "" }

abbrev cause : Found ℕ
cause = record {
  root_cause_detail = "slow";
  investigation_steps = look ∷ [];
  verification_keywords = "seq_scan" ∷ "lock" ∷ [];
  verification_anti_keywords = "OOM" ∷ [];
  fix = "index";
  confidence = "high";
  incident_id = some "i";
}

abbrev calls : List (Op ℕ)
calls = save 1 "p" "HighLatency" "db" cause ∷ save 2 "q" "HighLatency" "db" cause ∷ miss "p" ∷ []

abbrev saved : Pattern ℕ
saved = new_pattern 1 "p" "HighLatency" "db" cause

saved_once : map {B = String × ℕ} (λ p. (p.id, p.hit_count)) (apply_all calls []) ≡ ("p", 2) ∷ []
unfolding program
saved_once = refl

live-le-one_example : live "HighLatency" "db" (apply_all calls []) ≤ 1
live-le-one_example = live-le-one "HighLatency" "db" calls

abbrev discarded : List (Pattern ℕ)
discarded = record saved { status = wrong } ∷ []

discarded-Retired : Retired "p" discarded
unfolding new_pattern
discarded-Retired = record { there = refl; idle = refl }

Retired-is_final_example :
    any (has "p") (get_patterns_for_alert 9 "HighLatency" 30 (apply_all calls discarded)) ≡ false
Retired-is_final_example = Retired-is_final "p" "HighLatency" 9 30 calls discarded discarded-Retired

abbrev reads : List ℕ → String → Bool
reads outputs k = str_eq k "seq_scan"

-- one keyword of two is not enough
replayed :
    replay_pattern (λ s. s.params) reads saved ≡ some (insufficient ("seq_scan" ∷ []) ("lock" ∷ []))
unfolding program
replayed = refl
