-- ===== src/Core/Learnings/Overwritten.antt =====
-- Workers that share the table of core/learnings.py.
use vishwakarma.Prelude.{ℕ, ◌+◌, ◌<◌, String, ◌≡◌, some, ◌++◌, arith, eq_iff}
use vishwakarma.Prelude.Dict
use vishwakarma.Prelude.Dict.{Dict, get-put, get-pop}
use vishwakarma.Core.Learnings.{
  Learnings, Texts, cache_ttl, Lines, category_name, get_content, set_content, fact_lines, append,
}

-- A worker that read a category less than 300 seconds ago appends to what it read then: whatever
-- other workers wrote to the category meanwhile is lost.
pub append-cached :
    (t : Texts) (now at : ℕ) (category fact : String) (content : Lines) (s : Learnings)
    → Dict.get (category_name t category) s.cache ≡ some (at, content)
    → now < at + cache_ttl
    → Dict.get (category_name t category) (append t now category fact s).table
      ≡ some (content ++ fact_lines t fact)
unfolding append get_content set_content
append-cached t now at category fact content s hit fresh =
    let cat = category_name t category in
    ground (arith, hit, eq_iff cat cat, get-put cat cat (content ++ fact_lines t fact) s.table)
