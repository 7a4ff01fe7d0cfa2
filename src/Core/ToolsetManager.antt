-- ===== src/Core/ToolsetManager.antt =====
-- vishwakarma/core/toolset_manager.py: the health check of the loaded toolsets and its cache, with
-- `run_prerequisites` of core/tools.py. How the toolsets are found and loaded is left out. A check of
-- prerequisites is what the toolset answers, given by its name: it asks a service.
pub mod Window
mod Tests
use vishwakarma.Prelude.{
  ℕ, String, Bool, true, false, Option, none, some, List, [], ◌∷◌, str_eq, if◌then◌else◌, keep,
}
use vishwakarma.Prelude.Dict
use vishwakarma.Prelude.Dict.{Dict}
use vishwakarma.Utils.Cache
use vishwakarma.Utils.Cache.{TtlCache}

pub data ToolsetHealth : Type 0 where
  ready failed disabled unchecked : ToolsetHealth

pub record Toolset : Type 0 where
  pub name : String
  pub enabled : Bool
  pub health : ToolsetHealth
  pub error : String

-- what the toolset's `check_prerequisites` answers: whether it is fine, and the message if not
abbrev pub Prerequisites : Type 0
Prerequisites = String → Bool × String

abbrev pub Checked : Type 0
Checked = Dict ToolsetHealth × (List Toolset × TtlCache ToolsetHealth)

abbrev pub judged : Bool × String → Toolset → Toolset
judged (true, err) ts = record ts { health = ready; error = "" }
judged (false, err) ts = record ts { health = failed; error = err }

unfoldable pub run_prerequisites : Prerequisites → Toolset → Toolset
run_prerequisites check_prerequisites ts = judged (check_prerequisites ts.name) ts

-- `_status_cache`
unfoldable pub status_cache : TtlCache ToolsetHealth
status_cache = Cache.new_cache 300

abbrev pub active_toolsets : List Toolset → List Toolset
active_toolsets loaded = keep (λ ts. ts.enabled) loaded

-- the health that the cache holds, unless it is not to be asked
unfoldable pub cached_health :
    Bool → ℕ → String → TtlCache ToolsetHealth → Option ToolsetHealth × TtlCache ToolsetHealth
cached_health true now name cache = (none, cache)
cached_health false now name cache = Cache.get now name cache

-- a toolset after its round of the loop, and the cache
unfoldable pub check_one :
    Prerequisites
    → ℕ
    → Toolset
    → Option ToolsetHealth × TtlCache ToolsetHealth
    → Toolset × TtlCache ToolsetHealth
check_one prerequisites now ts (some cached, cache) = (record ts { health = cached }, cache)
check_one prerequisites now ts (none, cache) =
    let checked = run_prerequisites prerequisites ts in
    (checked, Cache.set now ts.name checked.health none cache)

-- the loop over the toolsets, with the results so far
unfoldable pub check_each :
    Prerequisites → Bool → ℕ → List Toolset → TtlCache ToolsetHealth → Dict ToolsetHealth → Checked
check_each prerequisites force now [] cache results = (results, ([], cache))
check_each prerequisites force now (ts ∷ loaded) cache results =
    let (checked, cache') =
      check_one prerequisites now ts (cached_health force now ts.name cache) in
    let (results', (rest, last)) =
      check_each prerequisites force now loaded cache' (Dict.put ts.name checked.health results) in
    (results', (checked ∷ rest, last))

unfoldable pub check_all :
    Prerequisites → Bool → ℕ → List Toolset → TtlCache ToolsetHealth → Checked
check_all prerequisites force now loaded cache = check_each prerequisites force now loaded cache []

unfoldable pub get : String → List Toolset → Option Toolset
get name [] = none
get name (ts ∷ loaded) = if str_eq ts.name name then some ts else get name loaded
