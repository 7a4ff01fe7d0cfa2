-- ===== src/Core/Learnings/Uncached.antt =====
-- The cache of core/learnings.py, for a worker that is alone.
use vishwakarma.Prelude.{
  ℕ, ◌+◌, ◌-◌, String, ◌≡◌, refl, sym, ap, subst, ◌∙◌, inl, inr, Bool, not, Option, none, some,
  List, [], ◌∷◌, ◌++◌, arith, eq_iff, ltb, nat_eq, if◌then◌else◌, Bool-cases, Option-cases, length,
  keep,
}
use vishwakarma.Prelude.Dict
use vishwakarma.Prelude.Dict.{Dict, get-put, get-pop}
use vishwakarma.Core.Learnings.{
  Learnings, Texts, cache_ttl, Lines, category_name, header, read_table, read_through, get_content,
  set_content, fact_lines, append, forgets, forget, create, is_small, compact, categories_for,
  gather_facts, for_alert,
}

-- a call, with its clock reading where it has one
pub data Op : Type 0 where
  append_fact : ℕ → String → String → Op
  forget_keyword : ℕ → String → String → Op
  set_category : String → Lines → Op
  read_category : ℕ → String → Op
  read_alert : ℕ → String → Op
  create_category : (String → Bool) → String → Op
  compact_category : (Lines → ℕ) → (Lines → Option Lines) → ℕ → String → Op

module _ (t : Texts) where
  abbrev pub apply : Op → Learnings → Learnings
  apply (append_fact now cat fact) s = append t now cat fact s
  apply (forget_keyword now cat kw) s = (forget t now cat kw s).1
  apply (set_category cat content) s = set_content t (category_name t cat) content s
  apply (read_category now cat) s = (get_content t now (category_name t cat) s).1
  apply (read_alert now alert) s = (for_alert t now alert s).1
  apply (create_category valid cat) s = elim (create t valid cat s) [ none ↦ s | some s' ↦ s' ]
  apply (compact_category size summarize now cat) s = (compact t size summarize now cat s).1

  abbrev pub apply_all : List Op → Learnings → Learnings
  apply_all [] s = s
  apply_all (op ∷ ops) s = apply_all ops (apply op s)

  -- the same on the table alone
  abbrev pub plain : Op → Dict Lines → Dict Lines
  plain (append_fact now category fact) table =
      let cat = category_name t category in
      Dict.put cat (read_table t cat table ++ fact_lines t fact) table
  plain (forget_keyword now category kw) table =
      let cat = category_name t category in
      let lines = read_table t cat table in
      let kept = keep (λ l. not (forgets t kw l)) lines in
      if nat_eq (length lines - length kept) 0 then table else Dict.put cat kept table
  plain (set_category category content) table = Dict.put (category_name t category) content table
  plain (read_category now cat) table = table
  plain (read_alert now alert) table = table
  plain (create_category valid category) table =
      let cat = category_name t category in
      if not (valid cat) then table else elim (Dict.get cat table) [
        | some content ↦ table
        | none ↦ Dict.put cat (header t cat) table
      ]
  plain (compact_category size summarize now category) table =
      let cat = category_name t category in
      let content = read_table t cat table in
      if is_small t size content then table else elim (summarize content) [
        | none ↦ table
        | some facts ↦ Dict.put cat (header t cat ++ facts) table
      ]

  abbrev pub plain_all : List Op → Dict Lines → Dict Lines
  plain_all [] table = table
  plain_all (op ∷ ops) table = plain_all ops (plain op table)

  -- what the cache holds is what the table holds
  abbrev pub Coherent : Learnings → Type 0
  Coherent s =
      (k : String) (entry : ℕ × Lines)
      → Dict.get k s.cache ≡ some entry
      → Dict.get k s.table ≡ some (entry.1)

  record Reads (cat : String) (s s' : Learnings) (content : Lines) : Type 0 where
    same_content : content ≡ read_table t cat s.table
    same_table : s'.table ≡ s.table
    coherent : Coherent s'

  read_through-Reads :
      (now : ℕ) (cat : String) (o : Option Lines) (s : Learnings)
      → Dict.get cat s.table ≡ o
      → Coherent s
      → Reads cat s (read_through t now cat o s).1 (read_through t now cat o s).0
  unfolding read_through read_table
  read_through-Reads now cat none s e c = record {
    same_content = ground (arith, e);
    same_table = refl;
    coherent = c;
  }
  read_through-Reads now cat (some content) s e c = record {
    same_content = ground (arith, e);
    same_table = refl;
    coherent = λ k entry h.
        ground (arith, e, eq_iff cat k, get-put cat k (now, content) s.cache, c k entry);
  }

  get_content-Reads :
      (now : ℕ) (cat : String) (s : Learnings)
      → Coherent s
      → Reads cat s (get_content t now cat s).1 (get_content t now cat s).0
  unfolding get_content read_table
  get_content-Reads now cat s c =
      let miss = read_through-Reads now cat (Dict.get cat s.table) s refl c in
      elim (Option-cases (Dict.get cat s.cache)) [
        | inl e ↦ rw (e, get_content) miss
        | inr (entry, e) ↦ elim (Bool-cases (ltb now (entry.0 + cache_ttl))) [
          | inl fresh ↦
              rw (e, fresh, get_content)
                (record {
                  same_content = ground (arith, c cat entry e);
                  same_table = refl;
                  coherent = c;
                })
          | inr stale ↦ rw (e, stale, get_content) miss
        ]
      ]

  set_content-Coherent :
      (cat : String) (content : Lines) (s : Learnings)
      → Coherent s
      → Coherent (set_content t cat content s)
  unfolding set_content
  set_content-Coherent cat content s c k entry h =
      ground (arith, get-pop cat k s.cache, get-put cat k content s.table, c k entry)

  -- after a call the table is the plain one, and the cache agrees with it
  record Follows (s' : Learnings) (table : Dict Lines) : Type 0 where
    table_is : s'.table ≡ table
    agrees : Coherent s'

  gather_facts-Follows :
      (now : ℕ) (cats : List String) (s : Learnings)
      → Coherent s
      → Follows (gather_facts t now cats s).1 s.table
  unfolding gather_facts
  gather_facts-Follows now [] s c = record { table_is = refl; agrees = c }
  gather_facts-Follows now (cat ∷ cats) s c =
      let r = get_content-Reads now cat s c in
      let f = gather_facts-Follows now cats (get_content t now cat s).1 r.coherent in
      record { table_is = f.table_is ∙ r.same_table; agrees = f.agrees }

  append-Follows :
      (now : ℕ) (category fact : String) (s : Learnings)
      → Coherent s
      → Follows (append t now category fact s) (plain (append_fact now category fact) s.table)
  unfolding append set_content
  append-Follows now category fact s c =
      let cat = category_name t category in
      let (existing, s') = get_content t now cat s in
      let r = get_content-Reads now cat s c in
      record {
        table_is = cc (r.same_content, r.same_table);
        agrees = set_content-Coherent cat (existing ++ fact_lines t fact) s' r.coherent;
      }

  forget-Follows :
      (now : ℕ) (category kw : String) (s : Learnings)
      → Coherent s
      → Follows (forget t now category kw s).1 (plain (forget_keyword now category kw) s.table)
  unfolding forget set_content
  forget-Follows now category kw s c =
      let cat = category_name t category in
      let (lines, s') = get_content t now cat s in
      let kept = keep (λ l. not (forgets t kw l)) lines in
      let r = get_content-Reads now cat s c in
      rw (← r.same_content) (elim (Bool-cases (nat_eq (length lines - length kept) 0)) [
        | inl e ↦ rw e (record { table_is = r.same_table; agrees = r.coherent })
        | inr e ↦ rw e (record {
          table_is = ap (Dict.put cat kept) r.same_table;
          agrees = set_content-Coherent cat kept s' r.coherent;
        })
      ])

  Follows-same :
      (s' s : Learnings) (table : Dict Lines)
      → s' ≡ s
      → s.table ≡ table
      → Coherent s
      → Follows s' table
  Follows-same s' s table e h c = record {
    table_is = ap (λ x. x.table) e ∙ h;
    agrees = subst Coherent (sym e) c;
  }

  create-Follows :
      (valid : String → Bool) (category : String) (s : Learnings)
      → Coherent s
      → Follows
          (apply (create_category valid category) s)
          (plain (create_category valid category) s.table)
  unfolding create set_content
  create-Follows valid category s c =
      let cat = category_name t category in
      let made = set_content-Coherent cat (header t cat) s c in
      elim (Bool-cases (valid cat)) [
        | inr bad ↦ Follows-same _ s _ (ground (arith, bad)) (ground (arith, bad)) c
        | inl good ↦ elim (Option-cases (Dict.get cat s.table)) [
          | inr (content, e) ↦
              Follows-same _ s _ (ground (arith, good, e)) (ground (arith, good, e)) c
          | inl e ↦
              Follows-same _ (set_content t cat (header t cat) s) _ (ground (arith, good, e))
                (ground (arith, good, e)) made
        ]
      ]

  compact-Follows :
      (size : Lines → ℕ) (summarize : Lines → Option Lines) (now : ℕ) (category : String)
      (s : Learnings)
      → Coherent s
      → Follows
          (compact t size summarize now category s).1
          (plain (compact_category size summarize now category) s.table)
  unfolding compact set_content
  compact-Follows size summarize now category s c =
      let cat = category_name t category in
      let (content, s') = get_content t now cat s in
      let r = get_content-Reads now cat s c in
      let same : Follows s' s.table = record { table_is = r.same_table; agrees = r.coherent } in
      rw (← r.same_content) (elim (Bool-cases (is_small t size content)) [
        | inl small ↦ rw small same
        | inr large ↦ elim (Option-cases (summarize content)) [
          | inl e ↦ rw (large, e) same
          | inr (facts, e) ↦
              rw (large, e)
                (record {
                  table_is = ap (Dict.put cat (header t cat ++ facts)) r.same_table;
                  agrees = set_content-Coherent cat (header t cat ++ facts) s' r.coherent;
                })
        ]
      ])

  apply-Follows : (op : Op) (s : Learnings) → Coherent s → Follows (apply op s) (plain op s.table)
  unfolding for_alert set_content
  apply-Follows (append_fact now category fact) s c = append-Follows now category fact s c
  apply-Follows (forget_keyword now category kw) s c = forget-Follows now category kw s c
  apply-Follows (set_category category content) s c = record {
    table_is = refl;
    agrees = set_content-Coherent (category_name t category) content s c;
  }
  apply-Follows (read_category now cat) s c =
      let r = get_content-Reads now (category_name t cat) s c in
      record { table_is = r.same_table; agrees = r.coherent }
  apply-Follows (read_alert now alert) s c = gather_facts-Follows now (categories_for t alert) s c
  apply-Follows (create_category valid category) s c = create-Follows valid category s c
  apply-Follows (compact_category size summarize now category) s c =
      compact-Follows size summarize now category s c

  -- For a worker that alone writes the table the cache changes nothing: from an empty cache, after
  -- any calls that read, set, append, forget, create or compact at any times, the table is what the
  -- same calls make of it without a cache.
  pub apply_all-plain_all :
      (ops : List Op) (table : Dict Lines)
      → (apply_all ops (record { table = table; cache = [] })).table ≡ plain_all ops table
  unfolding Dict.get
  apply_all-plain_all ops table =
      from ops (record { table = table; cache = [] }) (λ k entry h. ground arith)
    where
      from :
          (ops : List Op) (s : Learnings)
          → Coherent s
          → (apply_all ops s).table ≡ plain_all ops s.table
      from [] s c = refl
      from (op ∷ ops) s c =
          let f = apply-Follows op s c in
          from ops (apply op s) f.agrees ∙ ap (plain_all ops) f.table_is
