-- ===== src/Core/ToolsetManager/Window.antt =====
-- What the cached health of core/toolset_manager.py stands for while it lasts.
use vishwakarma.Prelude.{ℕ, String, Bool, true, false, none, List, [], ◌∷◌, str_eq, if◌then◌else◌}
use vishwakarma.Prelude.Dict
use vishwakarma.Prelude.Dict.{Dict}
use vishwakarma.Utils.Cache
use vishwakarma.Utils.Cache.{TtlCache}
use vishwakarma.Core.ToolsetManager.{ToolsetHealth, ready, failed, Toolset, Prerequisites, judged}

abbrev told : Bool × String → ToolsetHealth
told (true, err) = ready
told (false, err) = failed

module _ (prerequisites : Prerequisites) where
  -- the toolsets after their checks, and the results of them all
  abbrev checked : List Toolset → List Toolset
  checked [] = []
  checked (ts ∷ loaded) = judged (prerequisites ts.name) ts ∷ checked loaded

  abbrev recorded : List Toolset → Dict ToolsetHealth → Dict ToolsetHealth
  recorded [] results = results
  recorded (ts ∷ loaded) results =
      recorded loaded (Dict.put ts.name (told (prerequisites ts.name)) results)

  abbrev stored : ℕ → List Toolset → TtlCache ToolsetHealth → TtlCache ToolsetHealth
  stored now [] cache = cache
  stored now (ts ∷ loaded) cache =
      stored now loaded (Cache.set now ts.name (told (prerequisites ts.name)) none cache)

abbrev named : String → List Toolset → Bool
named k [] = false
named k (ts ∷ loaded) = if str_eq ts.name k then true else named k loaded
