-- ===== src/Storage/Patterns/Retired.antt =====
-- When a pattern of storage/patterns.py is no longer offered, and that it stays so.
use vishwakarma.Prelude.{
  ℕ, zero, suc, ◌+◌, ◌*◌, String, ◌≡◌, refl, ◌∙◌, Bool, true, false, ◌&&◌, ◌||◌, List, [], ◌∷◌,
  ◌++◌, map, arith, str_eq, eq_iff, ltb, if◌then◌else◌, any, keep, take,
}
use vishwakarma.Storage.Patterns.{
  Pattern, is_active, is_of, seen_again, new_pattern, update_by_id, mark_pattern_hit, expire_worn,
  mark_pattern_miss, mark_pattern_wrong, invalidate_patterns_for_incident, wrong,
  get_patterns_for_alert, insert_by_hits, order_by_hits, is_fresh,
}
use vishwakarma.Storage.Patterns.Ops.{Kept, Op, apply_all, apply_all-Kept}

module _ {P : Type 0} where
  -- an active pattern that missed more than twice as often as it hit
  abbrev pub is_worn : Pattern P → Bool
  is_worn p = is_active p.status && ltb (p.hit_count * 2) p.miss_count

  -- the rows of an id
  abbrev pub has : String → Pattern P → Bool
  has k p = str_eq p.id k

  abbrev pub is_live : String → Pattern P → Bool
  is_live k p = str_eq p.id k && is_active p.status

  -- A row's property that a change does not make true is true of no row after it.
  any-map :
      (q : Pattern P → Bool) (f : Pattern P → Pattern P) (table : List (Pattern P))
      → ((p : Pattern P) → q (f p) ≡ true → q p ≡ true)
      → any q table ≡ false
      → any q (map f table) ≡ false
  any-map q f [] c h = refl
  any-map q f (p ∷ table) c h = ground (arith, c p, any-map q f table c)

  any-update :
      (q : Pattern P → Bool) (i : String) (f : Pattern P → Pattern P) (table : List (Pattern P))
      → ((p : Pattern P) → q (f p) ≡ true → q p ≡ true)
      → any q table ≡ false
      → any q (update_by_id i f table) ≡ false
  unfolding update_by_id
  any-update q i f table c h =
      any-map q (λ p. if str_eq p.id i then f p else p) table (λ p x. ground (arith, c p)) h

  any-append :
      (q : Pattern P → Bool) (p : Pattern P) (table : List (Pattern P))
      → any q (table ++ (p ∷ [])) ≡ any q table || q p
  any-append q p [] = ground arith
  any-append q p (r ∷ table) = ground (arith, any-append q p table)

  any-invalidate :
      (q : Pattern P → Bool) (i : String) (table : List (Pattern P))
      → ((p : Pattern P) → q (record p { status = wrong }) ≡ true → q p ≡ true)
      → any q table ≡ false
      → any q (invalidate_patterns_for_incident i table).0 ≡ false
  unfolding invalidate_patterns_for_incident
  any-invalidate q i [] c h = refl
  any-invalidate q i (p ∷ table) c h = ground (arith, c p, any-invalidate q i table c)

  abbrev missed : Pattern P → Pattern P
  missed p = record p { miss_count = p.miss_count + 1 }

  -- after a miss and its second statement only the row that was counted can be worn, and is expired
  worn-miss :
      (i : String) (table : List (Pattern P))
      → any is_worn table ≡ false
      → any is_worn (mark_pattern_miss i table) ≡ false
  unfolding mark_pattern_miss update_by_id expire_worn
  worn-miss i [] h = refl
  worn-miss i (p ∷ table) h = ground (arith, worn-miss i table)

  worn-Kept : Kept (λ table. any is_worn table ≡ false)
  unfolding seen_again new_pattern mark_pattern_hit mark_pattern_wrong
  worn-Kept = record {
    on_again = λ now i found table h.
        any-update is_worn i (seen_again now found) table (λ p x. ground arith) h;
    on_insert = λ now i a t found table e e' h.
        ground (arith, any-append is_worn (new_pattern now i a t found) table);
    on_hit = λ now i incident table h.
        any-update is_worn i
          (λ p. record p {
            hit_count = p.hit_count + 1;
            last_seen = now;
            last_incident_id = incident;
          })
          table (λ p x. ground arith) h;
    on_miss = λ i table h. worn-miss i table h;
    on_wrong = λ a t table h.
        any-map is_worn (λ p. if is_of a t p then record p { status = wrong } else p) table
          (λ p x. ground arith) h;
    on_invalidate = λ i table h. any-invalidate is_worn i table (λ p x. ground arith) h;
  }

  -- From an empty table, whatever the calls, no active pattern missed more than twice as often as
  -- it hit.
  pub apply_all-worn : (ops : List (Op P)) → any is_worn (apply_all ops []) ≡ false
  apply_all-worn ops = apply_all-Kept (λ table. any is_worn table ≡ false) worn-Kept ops [] refl

  -- changes keep the ids of the rows
  any-has-map :
      (k : String) (f : Pattern P → Pattern P) (table : List (Pattern P))
      → ((p : Pattern P) → (f p).id ≡ p.id)
      → any (has k) (map f table) ≡ any (has k) table
  any-has-map k f [] c = refl
  any-has-map k f (p ∷ table) c = ground (arith, c p, any-has-map k f table c)

  any-has-update :
      (k i : String) (f : Pattern P → Pattern P) (table : List (Pattern P))
      → ((p : Pattern P) → (f p).id ≡ p.id)
      → any (has k) (update_by_id i f table) ≡ any (has k) table
  unfolding update_by_id
  any-has-update k i f table c =
      any-has-map k (λ p. if str_eq p.id i then f p else p) table (λ p. ground (arith, c p))

  any-has-invalidate :
      (k i : String) (table : List (Pattern P))
      → any (has k) (invalidate_patterns_for_incident i table).0 ≡ any (has k) table
  unfolding invalidate_patterns_for_incident
  any-has-invalidate k i [] = refl
  any-has-invalidate k i (p ∷ table) = ground (arith, any-has-invalidate k i table)

  -- the table has the id, and no active row of it
  pub record Retired (k : String) (table : List (Pattern P)) : Type 0 where
    pub there : any (has k) table ≡ true
    pub idle : any (is_live k) table ≡ false

  Retired-update :
      (k i : String) (f : Pattern P → Pattern P) (table : List (Pattern P))
      → ((p : Pattern P) → (f p).id ≡ p.id)
      → ((p : Pattern P) → is_live k (f p) ≡ true → is_live k p ≡ true)
      → Retired k table
      → Retired k (update_by_id i f table)
  Retired-update k i f table c d r = record {
    there = any-has-update k i f table c ∙ r.there;
    idle = any-update (is_live k) i f table d r.idle;
  }

  Retired-Kept : (k : String) → Kept (Retired k)
  unfolding seen_again new_pattern mark_pattern_hit mark_pattern_miss mark_pattern_wrong expire_worn
  Retired-Kept k = record {
    on_again = λ now i found table r.
        Retired-update k i (seen_again now found) table (λ p. refl) (λ p x. x) r;
    on_insert = λ now i a t found table e free r. record {
      there = ground (arith, r.there, any-append (has k) (new_pattern now i a t found) table);
      idle = ground (
        arith,
        r.there,
        r.idle,
        eq_iff i k,
        any-append (is_live k) (new_pattern now i a t found) table,
      );
    };
    on_hit = λ now i incident table r.
        Retired-update k i
          (λ p. record p {
            hit_count = p.hit_count + 1;
            last_seen = now;
            last_incident_id = incident;
          })
          table (λ p. refl) (λ p x. x) r;
    on_miss = λ i table r.
        Retired-update k i expire_worn (update_by_id i missed table) (λ p. ground arith)
          (λ p x. ground arith) (Retired-update k i missed table (λ p. refl) (λ p x. x) r);
    on_wrong = λ a t table r.
        let f : Pattern P → Pattern P =
          λ p. if is_of a t p then record p { status = wrong } else p in
        record {
          there = any-has-map k f table (λ p. ground arith) ∙ r.there;
          idle = any-map (is_live k) f table (λ p x. ground arith) r.idle;
        };
    on_invalidate = λ i table r. record {
      there = any-has-invalidate k i table ∙ r.there;
      idle = any-invalidate (is_live k) i table (λ p x. ground arith) r.idle;
    };
  }

  any-insert_by_hits :
      (k : String) (p : Pattern P) (ps : List (Pattern P))
      → any (has k) (insert_by_hits p ps) ≡ has k p || any (has k) ps
  unfolding insert_by_hits
  any-insert_by_hits k p [] = refl
  any-insert_by_hits k p (q ∷ qs) = ground (arith, any-insert_by_hits k p qs)

  any-order_by_hits :
      (k : String) (ps : List (Pattern P)) → any (has k) (order_by_hits ps) ≡ any (has k) ps
  unfolding order_by_hits
  any-order_by_hits k [] = refl
  any-order_by_hits k (p ∷ ps) =
      ground (arith, any-insert_by_hits k p (order_by_hits ps), any-order_by_hits k ps)

  any-take :
      (k : String) (n : ℕ) (ps : List (Pattern P))
      → any (has k) ps ≡ false
      → any (has k) (take n ps) ≡ false
  any-take k zero ps h = refl
  any-take k (suc n) [] h = refl
  any-take k (suc n) (p ∷ ps) h = ground (arith, any-take k n ps)

  any-fresh :
      (k a : String) (now days : ℕ) (table : List (Pattern P))
      → any (is_live k) table ≡ false
      → any (has k) (keep (is_fresh now days a) table) ≡ false
  any-fresh k a now days [] h = refl
  any-fresh k a now days (p ∷ table) h = ground (arith, any-fresh k a now days table)

  -- A pattern that has expired or was marked wrong is offered for no alert any more, whatever calls
  -- follow.
  pub Retired-is_final :
      (k a : String) (now days : ℕ) (ops : List (Op P)) (table : List (Pattern P))
      → Retired k table
      → any (has k) (get_patterns_for_alert now a days (apply_all ops table)) ≡ false
  unfolding get_patterns_for_alert
  Retired-is_final k a now days ops table r =
      let after = apply_all ops table in
      let fresh = keep (is_fresh now days a) after in
      let idle = (apply_all-Kept (Retired k) (Retired-Kept k) ops table r).idle in
      any-take k 5 (order_by_hits fresh)
        (any-order_by_hits k fresh ∙ any-fresh k a now days after idle)
