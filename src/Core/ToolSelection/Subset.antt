-- ===== src/Core/ToolSelection/Subset.antt =====
-- What core/tool_selection.py keeps of the enabled toolsets.
use mathlib.Core.Bool.{false}
use vishwakarma.Prelude.{
  String, ◌≡◌, refl, Bool, true, false, not, ◌&&◌, ◌||◌, List, [], ◌∷◌, ◌++◌, arith, eq_iff,
  if◌then◌else◌, keep,
}
use vishwakarma.Prelude.Dict.{Dict}
use vishwakarma.Core.Correlation.{is_in}
use vishwakarma.Core.ToolSelection.{
  core_toolsets, domain_keywords, toolsets_of, match_domains, is_empty, select_toolset_names,
}

is_in-append : (xs ys : List String) (k : String) → is_in (xs ++ ys) k ≡ is_in xs k || is_in ys k
is_in-append [] ys k = refl
is_in-append (x ∷ xs) ys k = ground (arith, is_in-append xs ys k)

is_in-keep :
    (available xs : List String) (k : String)
    → is_in (keep (is_in available) xs) k ≡ is_in available k && is_in xs k
is_in-keep available [] k = ground arith
is_in-keep available (x ∷ xs) k = ground (arith, is_in-keep available xs k, eq_iff x k)

match_domains-keeps :
    (t : String) (domains : Dict (List String)) (found : List String × Bool) (k : String)
    → is_in found.0 k ≡ true
    → is_in (match_domains t domains found).0 k ≡ true
unfolding match_domains
match_domains-keeps t [] found k h = h
match_domains-keeps t ((domain, keywords) ∷ domains) (selected, matched) k h =
    match_domains-keeps t domains _ k (ground (arith, is_in-append selected (toolsets_of domain) k))

is_in-cons : (x : String) (xs : List String) → is_in (x ∷ xs) x ≡ true
is_in-cons x xs = ground (arith, eq_iff x x)

-- `k` is selected only if it is enabled, and it is selected if it is enabled and a core toolset or
-- a learned one
abbrev pub Fits : List String → List String → List String → String → Type 0
Fits available learned selected k =
    (is_in selected k ≡ true → is_in available k ≡ true)
    × (is_in available k && (is_in core_toolsets k || is_in learned k) ≡ true
        → is_in selected k ≡ true)

keep_none : (xs : List String) → keep (is_in []) xs ≡ []
keep_none [] = refl
keep_none (x ∷ xs) = keep_none xs

-- what is chosen of the wished names
abbrev pick : Bool → List String → List String → List String
pick uncertain available wished =
    let selected = keep (is_in available) wished in
    if uncertain then available else if is_empty selected then available else selected

pick-Fits :
    (uncertain : Bool) (available learned wished : List String) (k : String)
    → (is_in core_toolsets k || is_in learned k ≡ true → is_in wished k ≡ true)
    → Fits available learned (pick uncertain available wished) k
pick-Fits true available learned wished k h = (λ m. m, λ m. ground arith)
pick-Fits false available learned wished k h = if-fits (is_empty (keep (is_in available) wished))
  where
    if-fits :
        (b : Bool)
        → Fits available learned (if b then available else keep (is_in available) wished) k
    if-fits true = (λ m. m, λ m. ground arith)
    if-fits false = (
      λ m. ground (arith, is_in-keep available wished k),
      λ m. ground (arith, is_in-keep available wished k, h),
    )

pick-is_empty :
    (uncertain : Bool) (available wished : List String)
    → is_empty (pick uncertain available wished) ≡ is_empty available
pick-is_empty true available wished = refl
pick-is_empty false [] wished = rw keep_none refl
pick-is_empty false (a ∷ available) wished = ground arith

-- Of the toolsets of an investigation each is enabled, and every core or learned toolset that is
-- enabled is among them, whatever the alert says; there is one, if any is enabled.
pub select_toolset_names-Fits :
    (lower : String → String) (alert_text : String) (available learned : List String)
    → ((k : String)
        → Fits available learned (select_toolset_names lower alert_text available learned) k)
      × (is_empty (select_toolset_names lower alert_text available learned) ≡ is_empty available)
unfolding select_toolset_names
select_toolset_names-Fits lower alert_text available learned =
    let (wished, matched) =
      match_domains (lower alert_text) domain_keywords (core_toolsets ++ learned, false) in
    let uncertain = not matched && is_empty (keep (is_in available) learned) in
    (
      λ k. pick-Fits uncertain available learned wished k (λ m.
          match_domains-keeps (lower alert_text) domain_keywords (core_toolsets ++ learned, false) k
            (ground (arith, is_in-append core_toolsets learned k))),
      pick-is_empty uncertain available wished,
    )
