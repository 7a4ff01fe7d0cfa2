-- ===== src/Storage/Patterns/Active.antt =====
-- What the operations of storage/patterns.py keep of the table of patterns.
use vishwakarma.Prelude.{
  ℕ, ◌+◌, ◌≤◌, String, ◌≡◌, refl, true, none, List, [], ◌∷◌, ◌++◌, map, arith, str_eq, eq_iff,
  if◌then◌else◌, length, keep,
}
use vishwakarma.Storage.Patterns.{
  Pattern, is_of, existing_pattern, seen_again, new_pattern, update_by_id, mark_pattern_hit,
  expire_worn, mark_pattern_miss, mark_pattern_wrong, invalidate_patterns_for_incident, wrong,
}
use vishwakarma.Storage.Patterns.Ops.{Kept, Op, apply_all, apply_all-Kept}

module _ {P : Type 0} where
  -- the number of active rows of an alert and a type of cause
  abbrev pub live : String → String → List (Pattern P) → ℕ
  live a t table = length (keep (is_of a t) table)

  -- a change of rows that makes none active adds no active row
  live-map :
      (a t : String) (f : Pattern P → Pattern P) (table : List (Pattern P))
      → ((p : Pattern P) → is_of a t (f p) ≡ true → is_of a t p ≡ true)
      → live a t (map f table) ≤ live a t table
  live-map a t f [] c = omega arith
  live-map a t f (p ∷ table) c = ground (arith, c p, live-map a t f table c)

  live-append :
      (a t : String) (p : Pattern P) (table : List (Pattern P))
      → live a t (table ++ (p ∷ [])) ≡ live a t table + (if is_of a t p then 1 else 0)
  live-append a t p [] = ground arith
  live-append a t p (q ∷ table) = ground (arith, live-append a t p table)

  live-existing :
      (a t : String) (table : List (Pattern P))
      → existing_pattern a t table ≡ none
      → live a t table ≡ 0
  unfolding existing_pattern
  live-existing a t [] h = refl
  live-existing a t (p ∷ table) h = ground (arith, live-existing a t table)

  live-update :
      (a t i : String) (f : Pattern P → Pattern P) (table : List (Pattern P))
      → ((p : Pattern P) → is_of a t (f p) ≡ true → is_of a t p ≡ true)
      → live a t (update_by_id i f table) ≤ live a t table
  unfolding update_by_id
  live-update a t i f table c =
      live-map a t (λ p. if str_eq p.id i then f p else p) table (λ p h. ground (arith, c p))

  live-invalidate :
      (a t i : String) (table : List (Pattern P))
      → live a t (invalidate_patterns_for_incident i table).0 ≤ live a t table
  unfolding invalidate_patterns_for_incident
  live-invalidate a t i [] = omega arith
  live-invalidate a t i (p ∷ table) = ground (arith, live-invalidate a t i table)

  single-Kept : (a t : String) → Kept (λ table. live a t table ≤ 1)
  unfolding seen_again new_pattern mark_pattern_hit mark_pattern_miss mark_pattern_wrong expire_worn
  single-Kept a t = record {
    on_again = λ now i found table h.
        omega (arith, h, live-update a t i (seen_again now found) table (λ p x. x));
    on_insert = λ now i b u found table e e' h. ground (
      arith,
      live-append a t (new_pattern now i b u found) table,
      live-existing b u table e,
      eq_iff a b,
      eq_iff b a,
      eq_iff u t,
      eq_iff t u,
    );
    on_hit = λ now i incident table h. omega (
      arith,
      h,
      live-update a t i
          (λ p. record p {
            hit_count = p.hit_count + 1;
            last_seen = now;
            last_incident_id = incident;
          })
          table (λ p x. x),
    );
    on_miss = λ i table h.
        let missed = update_by_id i (λ p. record p { miss_count = p.miss_count + 1 }) table in
        omega (
          arith,
          h,
          live-update a t i (λ p. record p { miss_count = p.miss_count + 1 }) table (λ p x. x),
          live-update a t i expire_worn missed (λ p x. ground arith),
        );
    on_wrong = λ b u table h. omega (
      arith,
      h,
      live-map a t (λ p. if is_of b u p then record p { status = wrong } else p) table
          (λ p x. ground arith),
    );
    on_invalidate = λ i table h. omega (arith, h, live-invalidate a t i table);
  }

  -- From an empty table, whatever the calls, no alert has two active patterns with the same type of
  -- root cause.
  pub live-le-one : (a t : String) (ops : List (Op P)) → live a t (apply_all ops []) ≤ 1
  live-le-one a t ops =
      apply_all-Kept (λ table. live a t table ≤ 1) (single-Kept a t) ops [] (omega arith)
