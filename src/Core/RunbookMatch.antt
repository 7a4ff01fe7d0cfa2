-- ===== src/Core/RunbookMatch.antt =====
-- vishwakarma/core/runbook_match.py: three searches over the active runbooks, merged by reciprocal
-- ranks. A score is an exact fraction where the source adds floats. `lower`, the vector search and
-- the model that reranks, which may fail, are parameters.
mod Eligible
mod Tests
use package.text.Mathlib.Text.{find?}
use vishwakarma.Prelude.{
  ℕ, ◌+◌, ◌*◌, String, Bool, true, false, not, ◌&&◌, Option, none, some, List, [], ◌∷◌, map, str_eq,
  ltb, nat_eq, if◌then◌else◌, length, keep, take,
}
use vishwakarma.Prelude.Dict
use vishwakarma.Prelude.Dict.{Dict}
use vishwakarma.Storage.Runbooks.{Runbook, Library, list_runbooks, mapped_runbook_ids}

abbrev pub rrf_k : ℕ
rrf_k = 60

abbrev pub top_k_per_leg : ℕ
top_k_per_leg = 8

abbrev pub rerank_threshold : ℕ
rerank_threshold = 3

-- num / den, with den above 0
pub record Score : Type 0 where
  pub num : ℕ
  pub den : ℕ

abbrev pub add : Score → Score → Score
add a b = record { num = a.num * b.den + b.num * a.den; den = a.den * b.den }

abbrev pub lower_than : Score → Score → Bool
lower_than a b = ltb (a.num * b.den) (b.num * a.den)

abbrev pub occurs : String → String → Bool
occurs s t = elim (find? t s) [ none ↦ false | some i ↦ true ]

-- `rid in candidates`
abbrev pub is_candidate : Dict Runbook → String → Bool
is_candidate candidates id = elim (Dict.get id candidates) [ none ↦ false | some r ↦ true ]

-- the number of keywords that occur
abbrev pub hits_in : String → List String → ℕ
hits_in t [] = 0
hits_in t (kw ∷ kws) = (if not (str_eq kw "") && occurs kw t then 1 else 0) + hits_in t kws

abbrev pub insert_by_hits : String × ℕ → List (String × ℕ) → List (String × ℕ)
insert_by_hits r [] = r ∷ []
insert_by_hits r (q ∷ rows) = if ltb r.1 q.1 then q ∷ insert_by_hits r rows else r ∷ q ∷ rows

-- `kw_scored`, sorted
unfoldable pub keyword_scores : String → Dict Runbook → List (String × ℕ)
keyword_scores t [] = []
keyword_scores t ((id, r) ∷ rows) =
    let rest = keyword_scores t rows in
    let hits = hits_in t r.keywords in
    if nat_eq hits 0 then rest else insert_by_hits (id, hits) rest

-- scores[rid] = scores.get(rid, 0.0) + share
unfoldable pub add_score : String → Score → Dict Score → Dict Score
add_score id share scores = elim (Dict.get id scores) [
  | none ↦ Dict.put id share scores
  | some old ↦ Dict.put id (add old share) scores
]

-- the leg from rank `rank` on
unfoldable pub add_leg : ℕ → ℕ → List String → Dict Score → Dict Score
unfolding add_score
add_leg weight rank [] scores = scores
add_leg weight rank (id ∷ ids) scores =
    add_leg weight (rank + 1) ids
      (add_score id (record { num = weight; den = rrf_k + rank + 1 }) scores)

abbrev pub insert_by_score : String × Score → Dict Score → Dict Score
insert_by_score r [] = r ∷ []
insert_by_score r (q ∷ rows) =
    if lower_than r.1 q.1 then q ∷ insert_by_score r rows else r ∷ q ∷ rows

abbrev pub order_by_score : Dict Score → Dict Score
order_by_score [] = []
order_by_score (r ∷ rows) = insert_by_score r (order_by_score rows)

-- the exact leg counts twice
unfoldable pub merge_legs : List String → List String → List String → List String
unfolding add_leg
merge_legs exact keyword vector =
    map (λ r. r.0)
      (order_by_score (add_leg 1 0 vector (add_leg 1 0 keyword (add_leg 2 0 exact []))))

-- `_llm_rerank(...) or merged`; `llm` is none without a model, and its answer none if it failed
unfoldable pub rerank :
    Option (List String → Option (List String)) → Dict Runbook → List String → List String
rerank none candidates merged = merged
rerank (some ask) candidates merged =
    if ltb rerank_threshold (length merged)
    then elim (ask (take 12 merged)) [
      | none ↦ merged
      | some ids ↦ elim (keep (is_candidate candidates) ids) [
        | [] ↦ merged
        | id ∷ valid ↦ id ∷ valid
      ]
    ]
    else merged

-- [candidates[rid] for rid in ids]
abbrev pub pick : Dict Runbook → List String → Dict Runbook
pick candidates [] = []
pick candidates (id ∷ ids) = elim (Dict.get id candidates) [
  | none ↦ pick candidates ids
  | some r ↦ (id, r) ∷ pick candidates ids
]

-- `key` is the normal form of the alert's text, `vector` what the vector search found
unfoldable pub match_runbooks :
    (String → String)
    → Option (List String → Option (List String))
    → List String
    → ℕ
    → String
    → String
    → String
    → Library
    → Dict Runbook
unfolding merge_legs rerank keyword_scores
match_runbooks lower llm vector top_k alert_text key cloud lib =
    let candidates = list_runbooks (some "active") (some cloud) lib in
    let exact = keep (is_candidate candidates) (mapped_runbook_ids key lib) in
    let keyword =
      map (λ x. x.0) (take top_k_per_leg (keyword_scores (lower alert_text) candidates)) in
    let merged = merge_legs exact keyword (keep (is_candidate candidates) vector) in
    pick candidates (take top_k (rerank llm candidates merged))
