-- ===== src/Core/ToolSelection/Tests.antt =====
-- Tests of the selection of toolsets, and an instance of its theorem.
use vishwakarma.Prelude.{String, ◌≡◌, refl, List, [], ◌∷◌}
use vishwakarma.Prelude.Dict
use vishwakarma.Prelude.Dict.{Dict}
use vishwakarma.Core.ToolSelection.{match_domains, is_empty, select_toolset_names}
use vishwakarma.Core.ToolSelection.Subset.{Fits, select_toolset_names-Fits}

abbrev enabled : List String
enabled = "bash" ∷ "kafka" ∷ "aws" ∷ "database" ∷ []

selected_kafka :
    select_toolset_names (λ t. t) "consumer lag on orders" enabled [] ≡ "bash" ∷ "kafka" ∷ []
unfolding select_toolset_names match_domains Dict.get
selected_kafka = refl

selected_all : select_toolset_names (λ t. t) "something odd" enabled [] ≡ enabled
unfolding select_toolset_names match_domains Dict.get
selected_all = refl

select_toolset_names-Fits_example :
    ((k : String)
      → Fits enabled
          ("database" ∷ [])
          (select_toolset_names (λ t. t) "consumer lag on orders" enabled ("database" ∷ []))
          k)
    × (is_empty (select_toolset_names (λ t. t) "consumer lag on orders" enabled ("database" ∷ []))
        ≡ is_empty enabled)
select_toolset_names-Fits_example =
    select_toolset_names-Fits (λ t. t) "consumer lag on orders" enabled ("database" ∷ [])
