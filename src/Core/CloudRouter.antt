-- ===== src/Core/CloudRouter.antt =====
-- vishwakarma/core/cloud_router.py: the cloud whose worker investigates an alert. `lower` and
-- `strip` are Python's, as parameters.
mod Accepted
mod Tests
use package.text.Mathlib.Text.{find?}
use vishwakarma.Prelude.{
  String, Bool, true, false, not, ◌&&◌, ◌||◌, none, some, List, [], ◌∷◌, ◌++◌, str_eq,
  if◌then◌else◌, str_append, any,
}
use vishwakarma.Prelude.Dict.{Dict}
use vishwakarma.Core.Correlation.{label, or_text, is_in}

abbrev pub aws_signals : List String
aws_signals = "ap-south-1" ∷ "eks-" ∷ "aws" ∷ "cloudwatch" ∷ "amazonaws" ∷ "rds" ∷ "ec2" ∷ []

abbrev pub gcp_signals : List String
gcp_signals =
    "asia-south1" ∷ "gke-" ∷ "gcp" ∷ "google" ∷ "alloydb" ∷ "cloudsql" ∷ "prod-project" ∷ []

abbrev pub hint_labels : List String
hint_labels =
    "cloud" ∷ "region" ∷ "aws_account" ∷ "aws_region" ∷ "project_id" ∷ "cluster" ∷ "cluster_name"
    ∷ "source" ∷ "aws_namespace" ∷ "zone" ∷ []

-- `s in text`
abbrev pub occurs : String → String → Bool
occurs s text = elim (find? text s) [ none ↦ false | some i ↦ true ]

abbrev pub is_cloud : String → Bool
is_cloud c = is_in ("aws" ∷ "gcp" ∷ "both" ∷ []) c

abbrev pub present : String → Bool
present v = not (str_eq v "")

-- " ".join(hay)
unfoldable pub join_words : List String → String
join_words [] = ""
join_words (w ∷ []) = w
join_words (w ∷ v ∷ ws) = str_append w (str_append " " (join_words (v ∷ ws)))

module _ (lower strip : String → String) where
  unfoldable pub hints : List String → Dict String → List String
  hints [] labels = []
  hints (k ∷ ks) labels =
      let rest = hints ks labels in
      if present (label k labels) then lower (label k labels) ∷ rest else rest

  unfoldable pub haystack : String → Dict String → String
  unfolding hints join_words
  haystack source labels = join_words (
      lower source
      ∷ (hints hint_labels labels
          ++ ((if present (label "aws_account" labels) || present (label "aws_region" labels)
                then "aws" ∷ []
                else [])
              ++ (if present (label "project_id" labels) then "gcp" ∷ [] else []))))

  -- by the signals, and else the default
  unfoldable pub by_signals : String → String → String
  by_signals text default_cloud =
      let aws_hit = any (λ s. occurs s text) aws_signals in
      let gcp_hit = any (λ s. occurs s text) gcp_signals in
      let cloud = lower (or_text default_cloud "aws") in
      if aws_hit && gcp_hit
      then "both"
      else if aws_hit
      then "aws"
      else if gcp_hit
      then "gcp"
      else if is_cloud cloud
      then cloud
      else "aws"

  unfoldable pub route_issue : String → Dict String → String → String
  unfolding haystack by_signals
  route_issue source labels default_cloud =
      let explicit = strip (lower (label "cloud" labels)) in
      if is_cloud explicit then explicit else by_signals (haystack source labels) default_cloud
