-- ===== src/Core/JobStream.antt =====
-- vishwakarma/core/jobstream.py: how a job is put on the streams of its clouds. `xadd` of Redis is a
-- parameter, which returns the id of the message or raises.
use vishwakarma.Prelude.{
  String, not, ◌||◌, Option, none, some, List, [], ◌∷◌, str_eq, if◌then◌else◌,
}

-- the streams of a cloud
unfoldable pub clouds_of : String → List String
clouds_of cloud = if str_eq cloud "both" then "aws" ∷ "gcp" ∷ [] else cloud ∷ []

module _ {W : Type 0} (xadd : String → W → Option String × W) where
  -- the ids of the messages, or none where the cloud is invalid or Redis raises
  unfoldable pub enqueue_all : List String → W → Option (List String) × W
  enqueue_all [] w = (some [], w)
  enqueue_all (c ∷ clouds) w =
      let (id, w') = xadd c w in
      let (ids, w'') = enqueue_all clouds w' in
      if not (str_eq c "aws" || str_eq c "gcp") then (none, w) else elim id [
        | none ↦ (none, w')
        | some i ↦ (elim ids [ none ↦ none | some is ↦ some (i ∷ is) ], w'')
      ]

  unfoldable pub enqueue : String → W → Option (List String) × W
  unfolding clouds_of enqueue_all
  enqueue cloud w = enqueue_all (clouds_of cloud) w
