-- ===== src/Core/Correlation/Tests.antt =====
-- Runs of core/correlation.py.
use vishwakarma.Prelude.{String, ◌≡◌, refl, none, List, [], ◌∷◌}
use vishwakarma.Prelude.Dict
use vishwakarma.Prelude.Dict.{Dict}
use vishwakarma.Core.Correlation.{
  CorrRedis, Links, dedup, significant, alertname_stem, correlation_key,
}

-- a server that always raises
abbrev dead : CorrRedis
dead = record {
  Server = Unit {0};
  get = λ now k s. (none, s);
  set_ex = λ now k i ttl s. (none, s);
  delete = λ now k s. (none, s);
}

abbrev nothing : Links dead
nothing = record { server = none; linked = [] }

-- the tokens of an alert name, without the noise
abbrev tokens : String → List String
tokens name = "driver" ∷ "drainer" ∷ "not" ∷ "processing" ∷ "driver" ∷ []

abbrev joined : List String → String
joined ts = elim ts [ [] ↦ "" | t ∷ more ↦ t ]

keyed :
    correlation_key (λ s. s) (λ s. s) tokens joined (("alertname", "DriverDrainer") ∷ [])
    ≡ "alert:driver"
unfolding Dict.get dedup significant alertname_stem correlation_key
keyed = refl

by_service :
    correlation_key (λ s. s) (λ s. s) tokens joined (("app", "api") ∷ ("namespace", "prod") ∷ [])
    ≡ "svc:api/prod"
unfolding Dict.get dedup significant alertname_stem correlation_key
by_service = refl
