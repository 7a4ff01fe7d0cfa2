-- ===== src/Core/CrossCloud.antt =====
-- vishwakarma/core/cross_cloud.py: the two halves of an investigation in both clouds, and who puts
-- them together. A statement of the database raises or not as its caller says; the JSON of `meta`
-- is left out, and the language model is a parameter.
mod Claims
mod Tests
use Prim.Native.String.{compare}
use text.Mathlib.Text.{is_lt}
use vishwakarma.Prelude.{
  ℕ, String, Bool, true, false, ◌&&◌, Option, none, some, List, [], ◌∷◌, str_eq, if◌then◌else◌,
  str_append, any, keep,
}
use vishwakarma.Prelude.Dict
use vishwakarma.Prelude.Dict.{Dict}

pub record Finding : Type 0 where
  pub incident_id : String
  pub cloud : String
  pub rca : String
  pub created_at : ℕ

-- the tables cross_cloud_findings and cross_cloud_synthesis, the second from an incident to the
-- worker that claimed it
pub record Tables : Type 0 where
  pub findings : List Finding
  pub synthesis : Dict String

-- ON CONFLICT(incident_id, cloud) DO UPDATE
unfoldable pub upsert : Finding → List Finding → List Finding
upsert f [] = f ∷ []
upsert f (g ∷ findings) =
    if str_eq g.incident_id f.incident_id && str_eq g.cloud f.cloud
    then f ∷ findings
    else g ∷ upsert f findings

unfoldable pub write_finding : ℕ → String → String → String → Tables → Tables
unfolding upsert
write_finding now incident_id cloud rca t =
    let f : Finding = record {
      incident_id = incident_id;
      cloud = cloud;
      rca = rca;
      created_at = now;
    } in
    record t { findings = upsert f t.findings }

-- ORDER BY cloud
unfoldable pub insert_by_cloud : Finding → List Finding → List Finding
insert_by_cloud f [] = f ∷ []
insert_by_cloud f (g ∷ fs) =
    if is_lt (compare g.cloud f.cloud) then g ∷ insert_by_cloud f fs else f ∷ g ∷ fs

unfoldable pub order_by_cloud : List Finding → List Finding
unfolding insert_by_cloud
order_by_cloud [] = []
order_by_cloud (f ∷ fs) = insert_by_cloud f (order_by_cloud fs)

unfoldable pub get_findings : String → Tables → List Finding
unfolding order_by_cloud
get_findings incident_id t =
    order_by_cloud (keep (λ f. str_eq f.incident_id incident_id) t.findings)

unfoldable pub both_present : String → Tables → Bool
unfolding get_findings
both_present incident_id t =
    let fs = get_findings incident_id t in
    any (λ f. str_eq f.cloud "aws") fs && any (λ f. str_eq f.cloud "gcp") fs

-- the INSERT raises for an incident that has a row, and where the database cannot be reached
unfoldable pub claim_synthesis : Bool → String → String → Tables → Bool × Tables
claim_synthesis reachable incident_id worker_id t = elim (Dict.get incident_id t.synthesis) [
  | some w ↦ (false, t)
  | none ↦
      if reachable
      then (true, record t { synthesis = Dict.put incident_id worker_id t.synthesis })
      else (false, t)
]

module _ {W : Type 0} (upper : String → String)
    (summarize : String → String → W → Option String × W) where
  -- "\n\n".join of the halves, each under its cloud
  unfoldable pub halves : List Finding → String
  halves [] = ""
  halves (f ∷ []) = str_append "### " (str_append (upper f.cloud) (str_append " findings\n" f.rca))
  halves (f ∷ g ∷ fs) = str_append "### " (
      str_append (upper f.cloud)
        (str_append " findings\n" (str_append f.rca (str_append "\n\n" (halves (g ∷ fs))))))

  -- the model's text, and where it raises the halves one after the other
  unfoldable pub synthesize : String → List Finding → W → String × W
  unfolding halves
  synthesize incident_title findings w =
      let (written, w') = summarize incident_title (halves findings) w in
      (
        elim written [
          | some rca ↦ rca
          | none ↦ str_append "# Cross-cloud RCA (auto-merged)\n\n" (halves findings)
        ],
        w',
      )
