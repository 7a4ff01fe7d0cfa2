-- ===== src/Storage/ToolEffectiveness/Tests.antt =====
-- Tests of the learned routing, and an instance of its theorem.
use vishwakarma.Prelude.{◌≡◌, refl, List, [], ◌∷◌}
use vishwakarma.Storage.ToolEffectiveness.{Row, credit, credit_all, record_effective, top_toolsets}

abbrev twice : List Row
twice =
    record_effective 9 "cpu" ("aws" ∷ "database" ∷ "aws" ∷ [])
      (record_effective 5 "cpu" ("aws" ∷ []) [])

top_twice : top_toolsets "cpu" 2 6 twice ≡ "aws" ∷ []
unfolding top_toolsets record_effective credit_all credit
top_twice = refl
