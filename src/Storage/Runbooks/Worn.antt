-- ===== src/Storage/Runbooks/Worn.antt =====
-- The demotion of runbooks in storage/runbooks.py.
use vishwakarma.Prelude.{
  ℕ, ◌+◌, String, ◌≡◌, refl, inl, inr, Bool, true, false, not, ◌||◌, none, some, List, [], ◌∷◌,
  arith, str_eq, if◌then◌else◌, Option-cases, all,
}
use vishwakarma.Prelude.Dict
use vishwakarma.Prelude.Dict.{Dict, all-put, all-get, all-pop}
use vishwakarma.Storage.Runbooks.{
  Runbook, Library, Draft, renew, first_version, save_runbook, delete_runbook, map_alert,
  update_runbook, hit_row, mark_runbook_hit, is_worn, miss_row, mark_runbook_miss,
}

-- an active runbook is not worn
abbrev pub is_kept : Runbook → Bool
is_kept r = not (str_eq r.status "active") || not (is_worn r)

abbrev pub Kept : Library → Type 0
Kept lib = all (λ r. is_kept r.1) lib.runbooks ≡ true

-- a call of the module that writes
pub data Op : Type 0 where
  save : ℕ → String → Draft → Op
  delete : String → Op
  map_to : String → String → ℕ → Op
  hit : ℕ → String → String → Op
  miss : ℕ → String → Op

abbrev pub apply : Op → Library → Library
apply (save now id d) lib = save_runbook now id d lib
apply (delete id) lib = delete_runbook id lib
apply (map_to key id priority) lib = map_alert key id priority lib
apply (hit now id key) lib = mark_runbook_hit now id key lib
apply (miss now id) lib = mark_runbook_miss now id lib

abbrev pub apply_all : List Op → Library → Library
apply_all [] lib = lib
apply_all (op ∷ ops) lib = apply_all ops (apply op lib)

update_runbook-kept :
    (id : String) (f : Runbook → Runbook) (rows : Dict Runbook)
    → ((r : Runbook) → is_kept r ≡ true → is_kept (f r) ≡ true)
    → all (λ r. is_kept r.1) rows ≡ true
    → all (λ r. is_kept r.1) (update_runbook id f rows) ≡ true
unfolding update_runbook
update_runbook-kept id f [] h a = a
update_runbook-kept id f ((k, r) ∷ rows) h a = ground (arith, h r, update_runbook-kept id f rows h)

hit_row-kept : (now : ℕ) (r : Runbook) → is_kept r ≡ true → is_kept (hit_row now r) ≡ true
hit_row-kept now r h = ground arith

demote-kept :
    (worn : Bool) (r : Runbook)
    → is_worn r ≡ worn
    → is_kept (if worn then record r { status = "demoted" } else r) ≡ true
demote-kept true r e = refl
demote-kept false r e = ground (arith, e)

miss_row-kept : (now : ℕ) (r : Runbook) → is_kept (miss_row now r) ≡ true
miss_row-kept now r =
    demote-kept _ (record r { miss_count = r.miss_count + 1; updated_at = now }) refl

saved-kept :
    (now : ℕ) (d : Draft) (id : String) (rows : Dict Runbook)
    → all (λ r. is_kept r.1) rows ≡ true
    → is_kept (elim (Dict.get id rows) [
      | none ↦ first_version now d
      | some old ↦ renew (first_version now d) old
    ])
      ≡ true
saved-kept now d id rows a = elim (Option-cases (Dict.get id rows)) [
  | inl e ↦ rw e (ground arith)
  | inr (old, e) ↦ let kept = all-get is_kept id old rows a e in rw e (ground (arith, kept))
]

apply-Kept : (op : Op) (lib : Library) → Kept lib → Kept (apply op lib)
unfolding save_runbook delete_runbook map_alert mark_runbook_hit mark_runbook_miss
apply-Kept (save now id d) lib h =
    all-put is_kept id _ lib.runbooks (saved-kept now d id lib.runbooks h) h
apply-Kept (delete id) lib h = all-pop is_kept id lib.runbooks h
apply-Kept (map_to key id priority) lib h = ground arith
apply-Kept (hit now id key) lib h =
    ground (arith, update_runbook-kept id (hit_row now) lib.runbooks (hit_row-kept now) h)
apply-Kept (miss now id) lib h =
    update_runbook-kept id (miss_row now) lib.runbooks (λ r k. miss_row-kept now r) h

-- From an empty library, whatever is saved, deleted, mapped, confirmed and rejected, no active
-- runbook has at least three misses that are seven of ten of its uses or more.
pub apply_all-Kept : (ops : List Op) (lib : Library) → lib.runbooks ≡ [] → Kept (apply_all ops lib)
apply_all-Kept ops lib h = from ops lib (rw h refl)
  where
    from : (ops : List Op) (lib : Library) → Kept lib → Kept (apply_all ops lib)
    from [] lib h = h
    from (op ∷ ops) lib h = from ops (apply op lib) (apply-Kept op lib h)
