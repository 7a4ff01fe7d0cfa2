-- ===== src/Core/CrossCloud/Tests.antt =====
-- Runs of core/cross_cloud.py.
use vishwakarma.Prelude.{ℕ, String, ◌≡◌, refl, true, false, Option, none, [], ◌∷◌}
use vishwakarma.Prelude.Dict
use vishwakarma.Core.CrossCloud.{
  Tables, upsert, write_finding, insert_by_cloud, order_by_cloud, get_findings, both_present,
  claim_synthesis, halves, synthesize,
}
use vishwakarma.Core.CrossCloud.Claims.{claims_granted, claims_granted-one, claim}

program : Unit {0}
unfolding Dict.get Dict.put upsert write_finding insert_by_cloud order_by_cloud get_findings
    both_present claim_synthesis halves synthesize
program = tt

abbrev empty_tables : Tables
empty_tables = record { findings = []; synthesis = [] }

abbrev halved : Tables
halved = write_finding 2 "i" "gcp" "B" (write_finding 1 "i" "aws" "A" empty_tables)

present : both_present "i" halved ≡ true
unfolding program
present = refl

abbrev fails : String → String → ℕ → Option String × ℕ
fails title halves w = (none, w)

merged :
    (synthesize (λ s. s) fails "t" (get_findings "i" halved) 0).0
    ≡ "# Cross-cloud RCA (auto-merged)\n\n### aws findings\nA\n\n### gcp findings\nB"
unfolding program
merged = refl

nobody : Dict.get "i" halved.synthesis ≡ none
unfolding program
nobody = refl

claims_granted-one_example :
    claims_granted "i"
      (claim false "i" "w" ∷ claim true "j" "w" ∷ claim true "i" "v" ∷ claim true "i" "w" ∷ [])
      halved
    ≡ 1
claims_granted-one_example =
    claims_granted-one "i"
      (claim false "i" "w" ∷ claim true "j" "w" ∷ claim true "i" "v" ∷ claim true "i" "w" ∷ [])
      halved nobody
