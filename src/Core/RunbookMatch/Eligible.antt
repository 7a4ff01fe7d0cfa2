-- ===== src/Core/RunbookMatch/Eligible.antt =====
-- What core/runbook_match.py returns.
use vishwakarma.Prelude.{
  ℕ, zero, suc, ◌≤◌, String, ◌≡◌, refl, ◌∙◌, inl, inr, Bool, true, ◌&&◌, Option, some, List, [],
  ◌∷◌, arith, Option-cases, length, all, keep, take,
}
use vishwakarma.Prelude.Dict
use vishwakarma.Prelude.Dict.{Dict, all-get}
use vishwakarma.Storage.Runbooks.{
  Runbook, Library, has_status, serves, insert_ranked, order_ranked, list_runbooks,
}
use vishwakarma.Core.RunbookMatch.{pick, match_runbooks}

-- active, and of the cloud, of both or of any
abbrev pub is_eligible : String → Runbook → Bool
is_eligible cloud r = has_status (some "active") r && serves (some cloud) r

insert_ranked-all :
    (p : Runbook → Bool) (r : String × Runbook) (rows : Dict Runbook)
    → all (λ q. p q.1) (insert_ranked r rows) ≡ p r.1 && all (λ q. p q.1) rows
insert_ranked-all p r [] = refl
insert_ranked-all p r (q ∷ rows) = ground (arith, insert_ranked-all p r rows)

order_ranked-all :
    (p : Runbook → Bool) (rows : Dict Runbook)
    → all (λ q. p q.1) (order_ranked rows) ≡ all (λ q. p q.1) rows
order_ranked-all p [] = refl
order_ranked-all p (r ∷ rows) =
    ground (arith, insert_ranked-all p r (order_ranked rows), order_ranked-all p rows)

keep-all :
    (p : Runbook → Bool) (rows : Dict Runbook) → all (λ q. p q.1) (keep (λ q. p q.1) rows) ≡ true
keep-all p [] = refl
keep-all p (r ∷ rows) = ground (arith, keep-all p rows)

pick-all :
    (p : Runbook → Bool) (candidates : Dict Runbook) (ids : List String)
    → all (λ q. p q.1) candidates ≡ true
    → all (λ q. p q.1) (pick candidates ids) ≡ true
pick-all p candidates [] a = refl
pick-all p candidates (id ∷ ids) a = elim (Option-cases (Dict.get id candidates)) [
  | inl e ↦ ground (arith, e, pick-all p candidates ids a)
  | inr (r, e) ↦ ground (arith, e, all-get p id r candidates a e, pick-all p candidates ids a)
]

length-pick-le :
    (candidates : Dict Runbook) (n : ℕ) (ids : List String)
    → length (pick candidates (take n ids)) ≤ n
length-pick-le candidates zero ids = omega arith
length-pick-le candidates (suc n) [] = omega arith
length-pick-le candidates (suc n) (id ∷ ids) = ground (arith, length-pick-le candidates n ids)

-- Whatever the alert, the map, the vector search and the model say, at most as many runbooks are
-- returned as were asked for, and each is active and serves the cloud.
pub match_runbooks-eligible :
    (lower : String → String) (llm : Option (List String → Option (List String)))
    (vector : List String) (top_k : ℕ) (alert_text key cloud : String) (lib : Library)
    → let found = match_runbooks lower llm vector top_k alert_text key cloud lib in
      (length found ≤ top_k) × (all (λ r. is_eligible cloud r.1) found ≡ true)
unfolding match_runbooks list_runbooks
match_runbooks-eligible lower llm vector top_k alert_text key cloud lib =
    let candidates = list_runbooks (some "active") (some cloud) lib in
    let eligible : all (λ r. is_eligible cloud r.1) candidates ≡ true =
      order_ranked-all (is_eligible cloud) (keep (λ q. is_eligible cloud q.1) lib.runbooks)
      ∙ keep-all (is_eligible cloud) lib.runbooks in
    (length-pick-le candidates top_k _, pick-all (is_eligible cloud) candidates _ eligible)
