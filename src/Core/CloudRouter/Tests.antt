-- ===== src/Core/CloudRouter/Tests.antt =====
-- Runs of core/cloud_router.py and core/jobstream.py.
use vishwakarma.Prelude.{
  String, ◌≡◌, refl, ◌≢◌, Option, none, some, List, [], ◌∷◌, str_eq, if◌then◌else◌,
}
use vishwakarma.Prelude.Dict
use vishwakarma.Prelude.Dict.{Dict}
use vishwakarma.Core.CloudRouter.{join_words, hints, haystack, by_signals, route_issue}
use vishwakarma.Core.JobStream.{enqueue}
use vishwakarma.Core.CloudRouter.Accepted.{sent, enqueue-route_issue}

abbrev adds : String → List String → Option String × List String
adds c w = (some c, c ∷ w)

adds-answers : (c : String) (w : List String) → (adds c w).0 ≢ none
adds-answers c w h = cc

-- signals of both clouds
abbrev labels : Dict String
labels = ("region", "asia-south1") ∷ ("aws_account", "7") ∷ []

routed : route_issue (λ s. s) (λ s. s) "grafana" labels "aws" ≡ "both"
unfolding Dict.get join_words hints haystack by_signals route_issue
routed = refl

enqueue-route_issue_example :
    sent (enqueue adds (route_issue (λ s. s) (λ s. s) "grafana" labels "aws") [])
    ≡ some (if str_eq (route_issue (λ s. s) (λ s. s) "grafana" labels "aws") "both" then 2 else 1)
enqueue-route_issue_example =
    enqueue-route_issue (λ s. s) (λ s. s) adds "grafana" labels "aws" [] adds-answers
