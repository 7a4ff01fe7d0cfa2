-- ===== src/Storage/ToolEffectiveness.antt =====
-- vishwakarma/storage/tool_effectiveness.py: which toolsets helped with which class of alerts. The
-- table is the list of its rows, of which one has an alert key and a toolset.
mod Hits
mod Tests
use vishwakarma.Prelude.{
  ℕ, ◌+◌, String, Bool, ◌&&◌, List, [], ◌∷◌, map, str_eq, ltb, leb, if◌then◌else◌, any, keep, take,
}
use vishwakarma.Core.Correlation.{is_in}
use vishwakarma.Core.Tools.{ToolDef, Toolset}

pub record Row : Type 0 where
  pub alert_key : String
  pub toolset : String
  pub hits : ℕ
  pub updated_at : ℕ

abbrev pub is_row : String → String → Row → Bool
is_row alert_key toolset row = str_eq row.alert_key alert_key && str_eq row.toolset toolset

-- INSERT ... ON CONFLICT(alert_key, toolset) DO UPDATE
unfoldable pub credit : ℕ → String → String → List Row → List Row
credit now alert_key toolset [] =
    (record { alert_key = alert_key; toolset = toolset; hits = 1; updated_at = now }) ∷ []
credit now alert_key toolset (row ∷ rows) =
    if is_row alert_key toolset row
    then (record row { hits = row.hits + 1; updated_at = now }) ∷ rows
    else row ∷ credit now alert_key toolset rows

unfoldable pub credit_all : ℕ → String → List String → List Row → List Row
unfolding credit
credit_all now alert_key [] rows = rows
credit_all now alert_key (ts ∷ toolsets) rows =
    credit_all now alert_key toolsets (credit now alert_key ts rows)

-- set(toolsets)
abbrev pub as_set : List String → List String
as_set [] = []
as_set (t ∷ ts) = let rest = as_set ts in if is_in rest t then rest else t ∷ rest

unfoldable pub record_effective : ℕ → String → List String → List Row → List Row
unfolding credit_all
record_effective now alert_key toolsets rows =
    if str_eq alert_key "" then rows else credit_all now alert_key (as_set toolsets) rows

-- ORDER BY hits DESC
abbrev pub insert_by_hits : Row → List Row → List Row
insert_by_hits r [] = r ∷ []
insert_by_hits r (q ∷ rows) = if ltb r.hits q.hits then q ∷ insert_by_hits r rows else r ∷ q ∷ rows

abbrev pub order_by_hits : List Row → List Row
order_by_hits [] = []
order_by_hits (r ∷ rows) = insert_by_hits r (order_by_hits rows)

abbrev pub repeats : String → ℕ → Row → Bool
repeats alert_key min_hits row = str_eq row.alert_key alert_key && leb min_hits row.hits

unfoldable pub top_toolsets : String → ℕ → ℕ → List Row → List String
top_toolsets alert_key min_hits limit rows =
    if str_eq alert_key ""
    then []
    else map (λ r. r.toolset) (take limit (order_by_hits (keep (repeats alert_key min_hits) rows)))

-- the toolsets that own one of the tools that ran
unfoldable pub tools_to_toolsets : {P W : Type 0} → List String → List (Toolset P W) → List String
tools_to_toolsets tool_names [] = []
tools_to_toolsets tool_names (ts ∷ toolsets) =
    let rest = tools_to_toolsets tool_names toolsets in
    if any (λ t. is_in tool_names t.name) ts.tools then ts.name ∷ rest else rest
