-- ===== src/Storage/Patterns/Ops.antt =====
-- The calls that write the table of storage/patterns.py, and what it takes for all to keep a property.
use vishwakarma.Prelude.{
  ℕ, String, ◌≡◌, inl, inr, false, Option, none, some, List, [], ◌∷◌, ◌++◌, str_eq, Bool-cases,
  Option-cases, any,
}
use vishwakarma.Storage.Patterns.{
  Pattern, Found, existing_pattern, seen_again, new_pattern, update_by_id, insert, save_pattern,
  mark_pattern_hit, mark_pattern_miss, mark_pattern_wrong, invalidate_patterns_for_incident,
}

-- the calls that write the table
pub data Op (P : Type 0) : Type 0 where
  save : ℕ → String → String → String → Found P → Op P
  hit : ℕ → String → Option String → Op P
  miss : String → Op P
  mark_wrong : String → String → Op P
  invalidate : String → Op P

module _ {P : Type 0} where
  -- a call that raises leaves the table as it is
  unfoldable pub apply : Op P → List (Pattern P) → List (Pattern P)
  apply (save now i a t found) table = elim (save_pattern now i a t found table) [
    | none ↦ table
    | some (_, table') ↦ table'
  ]
  apply (hit now i incident) table = mark_pattern_hit now i incident table
  apply (miss i) table = mark_pattern_miss i table
  apply (mark_wrong a t) table = mark_pattern_wrong a t table
  apply (invalidate incident) table = (invalidate_patterns_for_incident incident table).0

  unfoldable pub apply_all : List (Op P) → List (Pattern P) → List (Pattern P)
  apply_all [] table = table
  apply_all (op ∷ ops) table = apply_all ops (apply op table)

  -- A property of the tables that the rows' changes and the insertion keep is kept by every call.
  pub record Kept (Q : List (Pattern P) → Type 0) : Type 0 where
    pub on_again :
        (now : ℕ) (i : String) (found : Found P) (table : List (Pattern P))
        → Q table
        → Q (update_by_id i (seen_again now found) table)
    pub on_insert :
        (now : ℕ) (i a t : String) (found : Found P) (table : List (Pattern P))
        → existing_pattern a t table ≡ none
        → any (λ q. str_eq q.id i) table ≡ false
        → Q table
        → Q (table ++ (new_pattern now i a t found ∷ []))
    pub on_hit :
        (now : ℕ) (i : String) (incident : Option String) (table : List (Pattern P))
        → Q table
        → Q (mark_pattern_hit now i incident table)
    pub on_miss : (i : String) (table : List (Pattern P)) → Q table → Q (mark_pattern_miss i table)
    pub on_wrong :
        (a t : String) (table : List (Pattern P)) → Q table → Q (mark_pattern_wrong a t table)
    pub on_invalidate :
        (i : String) (table : List (Pattern P))
        → Q table
        → Q (invalidate_patterns_for_incident i table).0

  module _ (Q : List (Pattern P) → Type 0) (k : Kept Q) where
    save-Kept :
        (now : ℕ) (i a t : String) (found : Found P) (table : List (Pattern P))
        → Q table
        → Q (apply (save now i a t found) table)
    unfolding apply save_pattern insert
    save-Kept now i a t found table h = elim (Option-cases (existing_pattern a t table)) [
      | inr (old, e) ↦ rw (e, apply, save_pattern) (k.on_again now old found table h)
      | inl fresh ↦ elim (Bool-cases (any (λ q. str_eq q.id i) table)) [
        | inl taken ↦ rw (fresh, taken, apply, save_pattern, insert) h
        | inr free ↦
            rw (fresh, free, apply, save_pattern, insert)
              (k.on_insert now i a t found table fresh free h)
      ]
    ]

    apply-Kept : (op : Op P) (table : List (Pattern P)) → Q table → Q (apply op table)
    unfolding apply
    apply-Kept (save now i a t found) table h = save-Kept now i a t found table h
    apply-Kept (hit now i incident) table h = k.on_hit now i incident table h
    apply-Kept (miss i) table h = k.on_miss i table h
    apply-Kept (mark_wrong a t) table h = k.on_wrong a t table h
    apply-Kept (invalidate incident) table h = k.on_invalidate incident table h

    pub apply_all-Kept :
        (ops : List (Op P)) (table : List (Pattern P)) → Q table → Q (apply_all ops table)
    unfolding apply_all
    apply_all-Kept [] table h = h
    apply_all-Kept (op ∷ ops) table h = apply_all-Kept ops (apply op table) (apply-Kept op table h)
