-- ===== src/Core/Learnings.antt =====
-- vishwakarma/core/learnings.py and the learnings of storage/site_content.py: what was learned from
-- past incidents, by category. A content is the list of its lines. The table is shared by all
-- workers, the cache is the worker's own. The methods of texts are parameters.
mod Uncached
mod Overwritten
mod Tests
use package.text.Mathlib.Text.{find?, starts_with}
use vishwakarma.Prelude.{
  ℕ, ◌+◌, ◌-◌, String, Bool, true, false, not, ◌&&◌, Option, none, some, List, [], ◌∷◌, ◌++◌, ltb,
  leb, nat_eq, if◌then◌else◌, str_append, length, any, keep,
}
use vishwakarma.Prelude.Dict
use vishwakarma.Prelude.Dict.{Dict}
use vishwakarma.Core.Correlation.{is_in}

abbrev pub cache_ttl : ℕ
cache_ttl = 300

abbrev pub default_categories : List String
default_categories = "rds" ∷ "redis" ∷ "drainer" ∷ "kubernetes" ∷ "networking" ∷ "general" ∷ []

abbrev pub alert_category_keywords : Dict (List String)
alert_category_keywords =
    (
      "rds",
      "rds" ∷ "aurora" ∷ "database" ∷ "db" ∷ "cpu" ∷ "sql" ∷ "replication" ∷ "connection" ∷ "query"
          ∷ "performance" ∷ [],
    )
    ∷ ("redis", "redis" ∷ "cache" ∷ "elasticache" ∷ "evict" ∷ "memory" ∷ [])
    ∷ ("drainer", "drainer" ∷ "drain" ∷ [])
    ∷ (
      "kubernetes",
      "pod" ∷ "deploy" ∷ "node" ∷ "oom" ∷ "crash" ∷ "restart" ∷ "evict" ∷ "pvc" ∷ "k8s"
          ∷ "container" ∷ "allocator" ∷ "alloc" ∷ "producer" ∷ "drainer" ∷ [],
    )
    ∷ (
      "networking",
      "alb" ∷ "5xx" ∷ "ingress" ∷ "network" ∷ "dns" ∷ "istio" ∷ "latency" ∷ "timeout" ∷ "cmrl"
          ∷ "cris" ∷ "pt" ∷ "transit" ∷ [],
    )
    ∷ []

abbrev pub Lines : Type 0
Lines = List String

-- `learnings` of the database, and `_learnings_cache`
pub record Learnings : Type 0 where
  pub table : Dict Lines
  pub cache : Dict (ℕ × Lines)

-- s in t
abbrev pub occurs : String → String → Bool
occurs s t = elim (find? t s) [ none ↦ false | some i ↦ true ]

-- the methods of texts; `lines` is `splitlines`
pub record Texts : Type 0 where
  pub lower : String → String
  pub strip : String → String
  pub capitalize : String → String
  pub lines : String → List String

module _ (t : Texts) where
  abbrev pub category_name : String → String
  category_name category = t.strip (t.lower category)

  abbrev pub header : String → Lines
  header cat = str_append "# " (str_append (t.capitalize cat) " Learnings") ∷ []

  abbrev pub is_fact : String → Bool
  is_fact l = starts_with (t.strip l) "- "

  -- SELECT content_md FROM learnings WHERE category=?, for an empty row the header
  unfoldable pub read_table : String → Dict Lines → Lines
  read_table cat table = elim (Dict.get cat table) [ none ↦ header cat | some content ↦ content ]

  unfoldable pub read_through : ℕ → String → Option Lines → Learnings → Lines × Learnings
  read_through now cat none s = (header cat, s)
  read_through now cat (some content) s =
      (content, record s { cache = Dict.put cat (now, content) s.cache })

  -- `get`, of a name in its normal form
  unfoldable pub get_content : ℕ → String → Learnings → Lines × Learnings
  unfolding read_through
  get_content now cat s = elim (Dict.get cat s.cache) [
    | none ↦ read_through now cat (Dict.get cat s.table) s
    | some entry ↦
        if ltb now (entry.0 + cache_ttl)
        then (entry.1, s)
        else read_through now cat (Dict.get cat s.table) s
  ]

  unfoldable pub set_content : String → Lines → Learnings → Learnings
  set_content cat content s = record {
    table = Dict.put cat content s.table;
    cache = Dict.pop cat s.cache;
  }

  -- "- {fact.strip()}", which is several lines where the fact has a newline
  abbrev pub fact_lines : String → Lines
  fact_lines fact = t.lines (str_append "- " (t.strip fact))

  unfoldable pub append : ℕ → String → String → Learnings → Learnings
  unfolding get_content set_content
  append now category fact s =
      let cat = category_name category in
      let (existing, s') = get_content now cat s in set_content cat (existing ++ fact_lines fact) s'

  abbrev pub forgets : String → String → Bool
  forgets keyword l = occurs (t.lower keyword) (t.lower l)

  -- with the number of lines that went
  unfoldable pub forget : ℕ → String → String → Learnings → ℕ × Learnings
  unfolding get_content set_content
  forget now category keyword s =
      let cat = category_name category in
      let (lines, s') = get_content now cat s in
      let kept = keep (λ l. not (forgets keyword l)) lines in
      let removed = length lines - length kept in
      (removed, if nat_eq removed 0 then s' else set_content cat kept s')

  -- `create`; `valid` is the regular expression for names, and an invalid one raises
  unfoldable pub create : (String → Bool) → String → Learnings → Option Learnings
  unfolding set_content
  create valid category s =
      let cat = category_name category in
      if not (valid cat) then none else elim (Dict.get cat s.table) [
        | some content ↦ some s
        | none ↦ some (set_content cat (header cat) s)
      ]

  -- `size` counts characters
  abbrev pub is_small : (Lines → ℕ) → Lines → Bool
  is_small size content = leb (length (keep is_fact content)) 50 && leb (size content) 5000

  -- `summarize` is the model, which may raise
  unfoldable pub compact :
      (Lines → ℕ) → (Lines → Option Lines) → ℕ → String → Learnings → Bool × Learnings
  unfolding get_content set_content
  compact size summarize now category s =
      let cat = category_name category in
      let (content, s') = get_content now cat s in
      if is_small size content then (false, s') else elim (summarize content) [
        | none ↦ (false, s')
        | some facts ↦ (true, set_content cat (header cat ++ facts) s')
      ]

  abbrev pub matched_categories : String → Dict (List String) → List String
  matched_categories alert_lower [] = []
  matched_categories alert_lower ((cat, keywords) ∷ rest) =
      let more = matched_categories alert_lower rest in
      if any (λ kw. occurs kw alert_lower) keywords then cat ∷ more else more

  -- the categories of an alert; general is one of them
  unfoldable pub categories_for : String → List String
  categories_for alert_name =
      let matched = matched_categories (t.lower alert_name) alert_category_keywords in
      if is_in matched "general" then matched else matched ++ ("general" ∷ [])

  -- the facts of the categories, each list with its category; no list is empty
  unfoldable pub gather_facts : ℕ → List String → Learnings → List (String × Lines) × Learnings
  unfolding get_content
  gather_facts now [] s = ([], s)
  gather_facts now (cat ∷ cats) s =
      let (content, s') = get_content now cat s in
      let (parts, s'') = gather_facts now cats s' in
      (elim (keep is_fact content) [ [] ↦ parts | f ∷ fs ↦ (cat, f ∷ fs) ∷ parts ], s'')

  unfoldable pub for_alert : ℕ → String → Learnings → List (String × Lines) × Learnings
  unfolding categories_for gather_facts
  for_alert now alert_name s = gather_facts now (categories_for alert_name) s
