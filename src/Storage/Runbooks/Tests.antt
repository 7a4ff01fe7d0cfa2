-- ===== src/Storage/Runbooks/Tests.antt =====
-- Tests of the runbooks, and an instance of their theorem.
use vishwakarma.Prelude.{◌≡◌, refl, List, [], ◌∷◌, map}
use vishwakarma.Prelude.Dict
use vishwakarma.Prelude.Dict.{Dict}
use vishwakarma.Storage.Runbooks.{
  Library, Draft, save_runbook, upsert_map, map_alert, update_runbook, mark_runbook_hit,
  mark_runbook_miss,
}
use vishwakarma.Storage.Runbooks.Worn.{Kept, Op, apply_all, apply_all-Kept, save, map_to, hit, miss}

abbrev draft : Draft
draft = record {
  title = "t";
  content_md = "c";
  cloud_type = "aws";
  keywords = "lag" ∷ [];
  services = [];
  author = "";
  status = "active";
}

abbrev ops : List Op
ops =
    save 1 "a" draft
    ∷ map_to "lag" "a" 10
    ∷ hit 2 "a" "lag"
    ∷ miss 3 "a"
    ∷ miss 4 "a"
    ∷ miss 5 "a"
    ∷ []

abbrev nothing : Library
nothing = record { runbooks = []; alert_map = [] }

-- three misses of four uses
demoted : map (λ r. (r.1).status) (apply_all ops nothing).runbooks ≡ "demoted" ∷ []
unfolding save_runbook map_alert upsert_map mark_runbook_hit mark_runbook_miss update_runbook
    Dict.get Dict.put
demoted = refl

apply_all-Kept_example : Kept (apply_all ops nothing)
apply_all-Kept_example = apply_all-Kept ops nothing refl
