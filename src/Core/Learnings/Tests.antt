-- ===== src/Core/Learnings/Tests.antt =====
-- Tests of the learnings, and instances of their theorems.
use vishwakarma.Prelude.{◌≡◌, refl, some, List, [], ◌∷◌, ◌++◌, arith}
use vishwakarma.Prelude.Dict
use vishwakarma.Prelude.Dict.{Dict}
use vishwakarma.Core.Learnings.{
  Learnings, Texts, category_name, read_through, get_content, set_content, fact_lines, append,
  forget, create, compact, categories_for, gather_facts, for_alert, true,
}
use vishwakarma.Core.Learnings.Overwritten.{append-cached}
use vishwakarma.Core.Learnings.Uncached.{
  Op, apply_all, plain_all, apply_all-plain_all, append_fact, forget_keyword, read_alert,
  create_category, compact_category,
}

abbrev plain_texts : Texts
plain_texts = record { lower = λ t. t; strip = λ t. t; capitalize = λ t. t; lines = λ t. t ∷ [] }

abbrev ops : List Op
ops =
    append_fact 10 "rds" "vacuum"
    ∷ append_fact 20 "rds" "index"
    ∷ forget_keyword 30 "rds" "vac"
    ∷ read_alert 40 "rds cpu"
    ∷ create_category (λ cat. true) "kafka"
    ∷ compact_category (λ ls. 6000) (λ ls. some ("- one" ∷ [])) 50 "kafka"
    ∷ []

forgotten :
    (apply_all plain_texts ops (record { table = []; cache = [] })).table
    ≡ ("rds", "# rds Learnings" ∷ "- index" ∷ [])
      ∷ ("kafka", "# kafka Learnings" ∷ "- one" ∷ [])
      ∷ []
unfolding create compact append forget for_alert categories_for gather_facts get_content
    read_through set_content Dict.get Dict.put Dict.pop
forgotten = refl

apply_all-plain_all_example :
    (apply_all plain_texts ops (record { table = []; cache = [] })).table
    ≡ plain_all plain_texts ops []
apply_all-plain_all_example = apply_all-plain_all plain_texts ops []

-- another worker has written "theirs" since this one read the category at 10
abbrev shared : Learnings
shared = record {
  table = ("rds", "# rds Learnings" ∷ "- theirs" ∷ []) ∷ [];
  cache = ("rds", (10, "# rds Learnings" ∷ [])) ∷ [];
}

hit : Dict.get (category_name plain_texts "rds") shared.cache ≡ some (10, "# rds Learnings" ∷ [])
unfolding Dict.get
hit = refl

append-cached_example :
    Dict.get (category_name plain_texts "rds") (append plain_texts 60 "rds" "ours" shared).table
    ≡ some (("# rds Learnings" ∷ []) ++ fact_lines plain_texts "ours")
append-cached_example =
    append-cached plain_texts 60 10 "rds" "ours" ("# rds Learnings" ∷ []) shared hit (omega arith)
