-- ===== src/Core/ToolsetManager/Tests.antt =====
-- Runs of the health check of core/toolset_manager.py.
use vishwakarma.Prelude.{
  ◌≡◌, refl, Bool, true, false, List, [], ◌∷◌, String, some, str_eq, if◌then◌else◌,
}
use vishwakarma.Prelude.Dict
use vishwakarma.Utils.Cache
use vishwakarma.Core.ToolsetManager.{
  ready, failed, unchecked, Toolset, Prerequisites, Checked, run_prerequisites, status_cache,
  cached_health, check_one, check_each, check_all, active_toolsets, get,
}

program : Unit {0}
unfolding check_all check_each check_one cached_health run_prerequisites status_cache get
    Cache.new_cache Cache.get Cache.get_entry Cache.set Cache.delete Dict.get Dict.put Dict.pop
program = tt

abbrev toolset : String → Bool → Toolset
toolset name enabled = record { name = name; enabled = enabled; health = unchecked; error = "" }

abbrev two_toolsets : List Toolset
two_toolsets = toolset "aws" true ∷ toolset "kafka" false ∷ []

abbrev kafka_down : Prerequisites
kafka_down name = if str_eq name "kafka" then (false, "refused") else (true, "")

abbrev all_up : Prerequisites
all_up name = (true, "")

abbrev first_check : Checked
first_check = check_all kafka_down true 10 two_toolsets status_cache

first_results : first_check.0 ≡ ("aws", ready) ∷ ("kafka", failed) ∷ []
unfolding program
first_results = refl

-- the entries last to the second 310, and not to the next
next_window :
    (check_all all_up false 311 first_check.1.0 first_check.1.1).0
    ≡ ("aws", ready) ∷ ("kafka", ready) ∷ []
unfolding program
next_window = refl

enabled_stay : active_toolsets first_check.1.0 ≡ record (toolset "aws" true) { health = ready } ∷ []
unfolding program
enabled_stay = refl

get-found : get "kafka" two_toolsets ≡ some (toolset "kafka" false)
unfolding program
get-found = refl
