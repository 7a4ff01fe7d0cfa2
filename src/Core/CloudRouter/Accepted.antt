-- ===== src/Core/CloudRouter/Accepted.antt =====
-- The routes of core/cloud_router.py against the streams of core/jobstream.py.
use vishwakarma.Prelude.{
  ℕ, String, ◌≡◌, refl, ◌≢◌, inl, inr, Bool, true, false, ◌&&◌, ◌||◌, Option, none, some, List, [],
  ◌∷◌, arith, str_eq, eq_iff, if◌then◌else◌, Bool-cases, Option-cases, length, any,
}
use vishwakarma.Prelude.Dict.{Dict}
use vishwakarma.Core.CloudRouter.{
  aws_signals, gcp_signals, occurs, is_cloud, haystack, by_signals, route_issue,
}
use vishwakarma.Core.JobStream.{clouds_of, enqueue_all, enqueue}
use vishwakarma.Core.Correlation.{or_text}

chosen-cloud :
    (a g : Bool) (cloud : String)
    → is_cloud (
        if a && g
        then "both"
        else if a
        then "aws"
        else if g
        then "gcp"
        else if is_cloud cloud
        then cloud
        else "aws")
      ≡ true
chosen-cloud true true cloud = refl
chosen-cloud true false cloud = refl
chosen-cloud false true cloud = refl
chosen-cloud false false cloud = elim (Bool-cases (is_cloud cloud)) [
  | inl valid ↦ rw valid valid
  | inr other ↦ rw other refl
]

by_signals-cloud :
    (lower strip : String → String) (t default_cloud : String)
    → is_cloud (by_signals lower strip t default_cloud) ≡ true
unfolding by_signals
by_signals-cloud lower strip t default_cloud =
    chosen-cloud (any (λ x. occurs x t) aws_signals) (any (λ x. occurs x t) gcp_signals)
      (lower (or_text default_cloud "aws"))

route_issue-cloud :
    (lower strip : String → String) (source : String) (labels : Dict String)
    (default_cloud : String)
    → is_cloud (route_issue lower strip source labels default_cloud) ≡ true
unfolding route_issue
route_issue-cloud lower strip source labels default_cloud =
    ground (arith, by_signals-cloud lower strip (haystack lower strip source labels) default_cloud)

-- the number of ids, if none was refused
abbrev pub sent : {W : Type 0} → Option (List String) × W → Option ℕ
sent (none, w) = none
sent (some ids, w) = some (length ids)

-- one stream of a cloud
enqueue_one :
    {W : Type 0}
    → (xadd : String → W → Option String × W) (c : String) (w : W)
    → ((d : String) (v : W) → (xadd d v).0 ≢ none)
    → str_eq c "aws" || str_eq c "gcp" ≡ true
    → sent (enqueue_all xadd (c ∷ []) w) ≡ some 1
unfolding enqueue_all
enqueue_one xadd c w up valid = elim (Option-cases (xadd c w).0) [
  | inl fails ↦ absurd (up c w fails)
  | inr (i, e) ↦ ground (arith, valid, e)
]

enqueue_two :
    {W : Type 0}
    → (xadd : String → W → Option String × W) (w : W) → ((d : String) (v : W) → (xadd d v).0 ≢ none)
    → sent (enqueue_all xadd ("aws" ∷ "gcp" ∷ []) w) ≡ some 2
unfolding enqueue_all
enqueue_two xadd w up =
    let (id, w') = xadd "aws" w in
    elim (Option-cases id) [
      | inl fails ↦ absurd (up "aws" w fails)
      | inr (i, e) ↦ elim (Option-cases (xadd "gcp" w').0) [
        | inl fails ↦ absurd (up "gcp" w' fails)
        | inr (j, e') ↦ ground (arith, e, e')
      ]
    ]

enqueue-cloud :
    {W : Type 0}
    → (xadd : String → W → Option String × W) (cloud : String) (w : W)
    → ((c : String) (v : W) → (xadd c v).0 ≢ none)
    → is_cloud cloud ≡ true
    → sent (enqueue xadd cloud w) ≡ some (if str_eq cloud "both" then 2 else 1)
unfolding enqueue clouds_of
enqueue-cloud xadd cloud w up h = elim (Bool-cases (str_eq cloud "both")) [
  | inl both ↦ rw both (enqueue_two xadd w up)
  | inr one ↦ rw one (
      enqueue_one xadd cloud w up (
        ground (
          arith,
          eq_iff cloud "aws",
          eq_iff "aws" cloud,
          eq_iff cloud "gcp",
          eq_iff "gcp" cloud,
          eq_iff "both" cloud,
          eq_iff cloud "both",
        )))
]

-- Whatever the labels, source and default of an alert, its route is accepted by the job stream: one
-- message is sent, or two for both clouds, if Redis answers.
pub enqueue-route_issue :
    {W : Type 0}
    → (lower strip : String → String) (xadd : String → W → Option String × W) (source : String)
      (labels : Dict String) (default_cloud : String) (w : W)
    → ((c : String) (v : W) → (xadd c v).0 ≢ none)
    → let route = route_issue lower strip source labels default_cloud in
      sent (enqueue xadd route w) ≡ some (if str_eq route "both" then 2 else 1)
enqueue-route_issue lower strip xadd source labels default_cloud w up =
    enqueue-cloud xadd (route_issue lower strip source labels default_cloud) w up
      (route_issue-cloud lower strip source labels default_cloud)
