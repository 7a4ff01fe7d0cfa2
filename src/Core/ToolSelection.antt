-- ===== src/Core/ToolSelection.antt =====
-- vishwakarma/core/tool_selection.py: the toolsets that an investigation is given. A set of names
-- is a list that is only asked what it holds. `lower` is a parameter.
mod Subset
mod Tests
use package.text.Mathlib.Text.{find?}
use vishwakarma.Prelude.{
  String, Bool, true, false, not, ◌&&◌, ◌||◌, none, some, List, [], ◌∷◌, ◌++◌, map, if◌then◌else◌,
  any, keep,
}
use vishwakarma.Prelude.Dict
use vishwakarma.Prelude.Dict.{Dict}
use vishwakarma.Core.Correlation.{is_in}
use vishwakarma.Core.Tools.{ToolDef, Toolset}

abbrev pub core_toolsets : List String
core_toolsets =
    "bash" ∷ "todo" ∷ "runbooks" ∷ "learnings" ∷ "code_analyst" ∷ "code_session" ∷ "verify" ∷ "lsp"
    ∷ []

abbrev pub domain_toolsets : Dict (List String)
domain_toolsets =
    ("metrics", "prometheus" ∷ "grafana" ∷ "datadog" ∷ "newrelic" ∷ [])
    ∷ ("logs", "elasticsearch" ∷ "coralogix" ∷ "datadog" ∷ [])
    ∷ ("database", "database" ∷ "mongodb" ∷ [])
    ∷ ("streaming", "kafka" ∷ [])
    ∷ ("cloud", "aws" ∷ [])
    ∷ ("network", "internet" ∷ "http" ∷ [])
    ∷ ("tickets", "servicenow_tables" ∷ [])
    ∷ []

abbrev pub domain_keywords : Dict (List String)
domain_keywords =
    (
      "metrics",
      "cpu" ∷ "memory" ∷ "latency" ∷ "5xx" ∷ "error rate" ∷ "throughput" ∷ "saturation" ∷ "spike"
          ∷ "p99" ∷ "request count" ∷ "qps" ∷ [],
    )
    ∷ (
      "logs",
      "error" ∷ "exception" ∷ "stacktrace" ∷ "stack trace" ∷ "log" ∷ "500" ∷ "timeout" ∷ "panic"
          ∷ "fatal" ∷ [],
    )
    ∷ (
      "database",
      "rds" ∷ "alloydb" ∷ "postgres" ∷ "mysql" ∷ "clickhouse" ∷ "db" ∷ "query" ∷ "connection"
          ∷ "replication" ∷ "index" ∷ "deadlock" ∷ "pgbouncer" ∷ "mongo" ∷ [],
    )
    ∷ ("streaming", "kafka" ∷ "consumer" ∷ "lag" ∷ "partition" ∷ "drainer" ∷ "queue" ∷ [])
    ∷ (
      "cloud",
      "rds" ∷ "ec2" ∷ "alb" ∷ "elb" ∷ "s3" ∷ "sqs" ∷ "cloudwatch" ∷ "lambda" ∷ "asg" ∷ "eks" ∷ "gke"
          ∷ [],
    )
    ∷ (
      "network",
      "dns" ∷ "5xx" ∷ "alb" ∷ "ingress" ∷ "gateway" ∷ "connection refused" ∷ "unreachable"
          ∷ "endpoint" ∷ [],
    )
    ∷ ("tickets", "incident" ∷ "ticket" ∷ "jira" ∷ "servicenow" ∷ [])
    ∷ []

-- `kw in text`
abbrev pub occurs : String → String → Bool
occurs kw t = elim (find? t kw) [ none ↦ false | some i ↦ true ]

-- `_DOMAIN_TOOLSETS.get(domain, set())`
abbrev pub toolsets_of : String → List String
toolsets_of domain = elim (Dict.get domain domain_toolsets) [ none ↦ [] | some names ↦ names ]

-- the names selected so far, and whether a domain matched
unfoldable pub match_domains : String → Dict (List String) → List String × Bool → List String × Bool
match_domains t [] found = found
match_domains t ((domain, keywords) ∷ domains) (selected, matched) = match_domains t domains (
    if any (λ kw. occurs kw t) keywords
    then (selected ++ toolsets_of domain, true)
    else (selected, matched))

abbrev pub is_empty {ℓ} : {A : Type ℓ} → List A → Bool
is_empty [] = true
is_empty (x ∷ xs) = false

-- `learned or set()` is []
unfoldable pub select_toolset_names :
    (String → String) → String → List String → List String → List String
unfolding match_domains
select_toolset_names lower alert_text available learned =
    let (wished, matched) =
      match_domains (lower alert_text) domain_keywords (core_toolsets ++ learned, false) in
    let selected = keep (is_in available) wished in
    if not matched && is_empty (keep (is_in available) learned)
    then available
    else if is_empty selected
    then available
    else selected

module _ {P W : Type 0} where
  abbrev pub names_of : List (ToolDef P W) → List String
  names_of = map (λ t. t.name)

  -- the names of the tools of the enabled toolsets that were chosen
  unfoldable pub allowed_tool_names : List (Toolset P W) → List String → List String
  allowed_tool_names [] names = []
  allowed_tool_names (ts ∷ toolsets) names =
      let rest = allowed_tool_names toolsets names in
      if not ts.enabled || not (is_in names ts.name) then rest else names_of ts.tools ++ rest

  -- the specification of a tool is the tool; `index` is that of the executor
  unfoldable pub filter_openai_tools :
      List (Toolset P W) → Dict (ToolDef P W) → List String → List (ToolDef P W)
  unfolding allowed_tool_names
  filter_openai_tools toolsets index names =
      keep (λ t. is_in (allowed_tool_names toolsets names) t.name) (map (λ entry. entry.1) index)

  -- the tools that `stream_investigate` of core/engine.py offers: all, if no subset is given or
  -- none of its tools is there
  unfoldable pub offered_tools :
      List (Toolset P W) → Dict (ToolDef P W) → List String → List (ToolDef P W)
  unfolding filter_openai_tools
  offered_tools toolsets index tool_subset =
      let all_tools = map (λ entry. entry.1) index in
      let tools = filter_openai_tools toolsets index tool_subset in
      if is_empty tool_subset then all_tools else if is_empty tools then all_tools else tools
