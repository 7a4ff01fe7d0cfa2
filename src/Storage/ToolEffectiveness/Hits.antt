-- ===== src/Storage/ToolEffectiveness/Hits.antt =====
-- The counts of storage/tool_effectiveness.py, and what comes out of them.
use vishwakarma.Prelude.{
  ℕ, ◌+◌, String, ◌≡◌, refl, not, ◌&&◌, List, [], ◌∷◌, arith, str_eq, eq_iff, if◌then◌else◌,
}
use vishwakarma.Core.Correlation.{is_in}
use vishwakarma.Storage.ToolEffectiveness.{
  Row, is_row, credit, credit_all, as_set, record_effective,
}

-- the hits of a toolset for a class of alerts, 0 without a row
abbrev pub hits_of : String → String → List Row → ℕ
hits_of alert_key toolset [] = 0
hits_of alert_key toolset (row ∷ rows) =
    if is_row alert_key toolset row then row.hits else hits_of alert_key toolset rows

hits_of-credit :
    (now : ℕ) (a t b u : String) (rows : List Row)
    → hits_of b u (credit now a t rows)
      ≡ hits_of b u rows + (if str_eq a b && str_eq t u then 1 else 0)
unfolding credit
hits_of-credit now a t b u [] = ground arith
hits_of-credit now a t b u (row ∷ rows) = ground (
  arith,
  hits_of-credit now a t b u rows,
  eq_iff a b,
  eq_iff t u,
  eq_iff row.alert_key a,
  eq_iff row.alert_key b,
  eq_iff row.toolset t,
  eq_iff row.toolset u,
)

-- one for each time that it stands in the list
abbrev times : String → List String → ℕ
times t [] = 0
times t (u ∷ us) = (if str_eq u t then 1 else 0) + times t us

hits_of-credit_all :
    (now : ℕ) (a : String) (ts : List String) (b u : String) (rows : List Row)
    → hits_of b u (credit_all now a ts rows)
      ≡ hits_of b u rows + (if str_eq a b then times u ts else 0)
unfolding credit_all
hits_of-credit_all now a [] b u rows = ground arith
hits_of-credit_all now a (t ∷ ts) b u rows =
    ground (
      arith,
      hits_of-credit_all now a ts b u (credit now a t rows),
      hits_of-credit now a t b u rows,
    )

is_in-as_set : (u : String) (ts : List String) → is_in (as_set ts) u ≡ is_in ts u
is_in-as_set u [] = refl
is_in-as_set u (t ∷ ts) = ground (arith, is_in-as_set u ts, is_in-as_set t ts, eq_iff t u)

times-as_set : (u : String) (ts : List String) → times u (as_set ts) ≡ (if is_in ts u then 1 else 0)
times-as_set u [] = refl
times-as_set u (t ∷ ts) =
    ground (arith, times-as_set u ts, is_in-as_set u ts, is_in-as_set t ts, eq_iff t u)

-- A confirmed cause of an alert with a name adds one hit to each of its toolsets for that class of
-- alerts, however often a toolset is listed, and changes no other count.
pub hits_of-record_effective :
    (now : ℕ) (a : String) (ts : List String) (b u : String) (rows : List Row)
    → hits_of b u (record_effective now a ts rows)
      ≡ hits_of b u rows + (if not (str_eq a "") && (str_eq a b && is_in ts u) then 1 else 0)
unfolding record_effective
hits_of-record_effective now a ts b u rows =
    ground (arith, hits_of-credit_all now a (as_set ts) b u rows, times-as_set u ts)
