-- ===== src/Core/Correlation.antt =====
-- vishwakarma/core/correlation.py: one investigation for the alerts of one entity. The Redis server
-- is a parameter, as in storage/dedup.py; `lower`, `strip`, the regular expression that splits an
-- alert name and the joining of sorted tokens are parameters. The table of grouped alerts is only written for the
-- console and is left out.
mod Window
mod Tests
use Prim.Native.String.{len}
use vishwakarma.Prelude.{
  ℕ, ◌+◌, ◌/◌, String, Bool, not, ◌&&◌, Option, none, some, List, [], ◌∷◌, ◌++◌, map, str_eq, ltb,
  leb, if◌then◌else◌, str_append, length, any, keep,
}
use vishwakarma.Prelude.Dict
use vishwakarma.Prelude.Dict.{Dict}

abbrev pub window_seconds : ℕ
window_seconds = 900

abbrev pub corr_prefix : String
corr_prefix = "vk:corr:"

-- the commands that the module sends to Redis; `none` where one raises
pub record CorrRedis : Type 1 where
  pub Server : Type 0
  pub get : ℕ → String → Server → Option (Option String) × Server
  pub set_ex : ℕ → String → String → ℕ → Server → Option (Unit {0}) × Server
  pub delete : ℕ → String → Server → Option (Unit {0}) × Server

-- `_redis` and `_local`
pub record Links (redis : CorrRedis) : Type 0 where
  pub server : Option redis.Server
  pub linked : Dict (String × ℕ)

-- `v and v[1] > now`
unfoldable pub find_local : ℕ → String → Dict (String × ℕ) → Option String
find_local now key linked = elim (Dict.get key linked) [
  | none ↦ none
  | some (incident_id, expires_at) ↦ if ltb now expires_at then some incident_id else none
]

module _ {redis : CorrRedis} where
  unfoldable pub find_on :
      ℕ → String → Option redis.Server → Links redis → Option String × Links redis
  unfolding find_local
  find_on now key none s = (find_local now key s.linked, s)
  find_on now key (some server) s =
      let (answer, server') = redis.get now (str_append corr_prefix key) server in
      (
        elim answer [ some found ↦ found | none ↦ find_local now key s.linked ],
        record s { server = some server' },
      )

  unfoldable pub find_correlated : ℕ → String → Links redis → Option String × Links redis
  unfolding find_on
  find_correlated now key s = if str_eq key "" then (none, s) else find_on now key s.server s

  unfoldable pub link_local : ℕ → String → String → ℕ → Links redis → Links redis
  link_local now key incident_id ttl s = record s {
    linked = Dict.put key (incident_id, now + ttl) s.linked;
  }

  unfoldable pub link_on : ℕ → String → String → ℕ → Option redis.Server → Links redis → Links redis
  unfolding link_local
  link_on now key incident_id ttl none s = link_local now key incident_id ttl s
  link_on now key incident_id ttl (some server) s =
      let (answer, server') =
        redis.set_ex now (str_append corr_prefix key) incident_id ttl server in
      let s' = record s { server = some server' } in
      elim answer [ some _ ↦ s' | none ↦ link_local now key incident_id ttl s' ]

  unfoldable pub link : ℕ → String → String → ℕ → Links redis → Links redis
  unfolding link_on
  link now key incident_id ttl s =
      if str_eq key "" then s else link_on now key incident_id ttl s.server s

  -- the local link goes whether or not Redis answered
  unfoldable pub unlink_on : ℕ → String → Option redis.Server → Links redis → Links redis
  unlink_on now key none s = record s { linked = Dict.pop key s.linked }
  unlink_on now key (some server) s =
      let (_, server') = redis.delete now (str_append corr_prefix key) server in
      record s { server = some server'; linked = Dict.pop key s.linked }

  unfoldable pub unlink : ℕ → String → Links redis → Links redis
  unfolding unlink_on
  unlink now key s = if str_eq key "" then s else unlink_on now key s.server s

abbrev pub label : String → Dict String → String
label k labels = elim (Dict.get k labels) [ none ↦ "" | some v ↦ v ]

-- `a or b` on texts
abbrev pub or_text : String → String → String
or_text a b = if str_eq a "" then b else a

-- the words of `_STEM_NOISE`
abbrev pub stem_noise : List String
stem_noise =
    "gcp" ∷ "aws" ∷ "prod" ∷ "production" ∷ "staging" ∷ "no" ∷ "not" ∷ "is" ∷ "are" ∷ "the" ∷ "a"
    ∷ "high" ∷ "low" ∷ "critical" ∷ "warning" ∷ "sev1" ∷ "sev2" ∷ "sev3" ∷ "increasing"
    ∷ "decreasing" ∷ "rising" ∷ "dropped" ∷ "drop" ∷ "down" ∷ "up" ∷ "running" ∷ "processing"
    ∷ "dead" ∷ "alive" ∷ "failing" ∷ "failed" ∷ "failure" ∷ "error" ∷ "errors" ∷ "alert" ∷ "alerts"
    ∷ "issue" ∷ "problem" ∷ "pod" ∷ "pods" ∷ "count" ∷ "rate" ∷ "ratio" ∷ "percent" ∷ "usage"
    ∷ "exceeded" ∷ "threshold" ∷ []

abbrev pub is_in : List String → String → Bool
is_in words w = any (λ v. str_eq v w) words

-- `seen`: each token once, in the order of the first occurrences
unfoldable pub dedup : List String → List String → List String
dedup seen [] = seen
dedup seen (t ∷ toks) = dedup (if is_in seen t then seen else seen ++ (t ∷ [])) toks

module _ (lower strip : String → String) (parts : String → List String)
    (join_sorted : List String → String) where
  unfoldable pub significant : String → List String
  significant alertname =
      keep (λ t. not (is_in stem_noise t) && ltb 1 (len t)) (map lower (parts alertname))

  unfoldable pub alertname_stem : String → String
  unfolding significant dedup
  alertname_stem alertname =
      if str_eq alertname ""
      then ""
      else let seen = dedup [] (significant alertname) in
        if leb 2 (length seen) then join_sorted seen else ""

  abbrev norm : String → String
  norm v = strip (lower v)

  unfoldable pub correlation_key : Dict String → String
  unfolding alertname_stem
  correlation_key labels =
      let svc =
        norm
          (or_text (label "service" labels) (or_text (label "app" labels) (label "job" labels))) in
      let ns = norm (label "namespace" labels) in
      let cluster = norm (or_text (label "cluster" labels) (label "cluster_name" labels)) in
      let stem = alertname_stem (label "alertname" labels) in
      if not (str_eq svc "") && not (str_eq ns "")
      then str_append "svc:" (str_append svc (str_append "/" ns))
      else if not (str_eq svc "")
      then str_append "svc:" svc
      else if not (str_eq cluster "")
      then str_append "cluster:" cluster
      else if not (str_eq stem "")
      then str_append "alert:" stem
      else ""
