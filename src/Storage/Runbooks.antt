-- ===== src/Storage/Runbooks.antt =====
-- vishwakarma/storage/runbooks.py: the runbooks and the map from alerts to them. The runbooks are a
-- dict on their id, and a row of the map has a pattern and a runbook. The normal form of an alert's
-- name, a regular expression, is a parameter; JSON is left out.
mod Worn
mod Tests
use vishwakarma.Prelude.{
  ℕ, ◌+◌, ◌*◌, String, Bool, true, not, ◌&&◌, ◌||◌, Option, none, some, List, [], ◌∷◌, map, str_eq,
  ltb, leb, nat_eq, if◌then◌else◌, keep,
}
use vishwakarma.Prelude.Dict
use vishwakarma.Prelude.Dict.{Dict}
use vishwakarma.Core.Correlation.{is_in}

abbrev pub demote_min_misses : ℕ
demote_min_misses = 3

abbrev pub noise_words : List String
noise_words =
    "production" ∷ "prod" ∷ "staging" ∷ "stage" ∷ "dev" ∷ "critical" ∷ "warning" ∷ "high" ∷ "low"
    ∷ "alert" ∷ []

pub record Runbook : Type 0 where
  pub title : String
  pub content_md : String
  pub cloud_type : String
  pub keywords : List String
  pub services : List String
  pub author : String
  pub version : ℕ
  pub status : String
  pub hit_count : ℕ
  pub miss_count : ℕ
  pub created_at : ℕ
  pub updated_at : ℕ

pub record MapRow : Type 0 where
  pub alert_pattern : String
  pub runbook_id : String
  pub priority : ℕ

pub record Library : Type 0 where
  pub runbooks : Dict Runbook
  pub alert_map : List MapRow

-- `words` is `re.sub(r"[^a-z0-9]+", " ", alert_name.lower()).split()`
unfoldable pub normalize_alert_key :
    (String → List String) → (List String → String) → String → String
normalize_alert_key words join alert_name =
    join (keep (λ w. not (is_in noise_words w)) (words alert_name))

-- what DO UPDATE SET writes
abbrev pub renew : Runbook → Runbook → Runbook
renew excluded old = record old {
  title = excluded.title;
  content_md = excluded.content_md;
  cloud_type = excluded.cloud_type;
  keywords = excluded.keywords;
  services = excluded.services;
  version = old.version + 1;
  updated_at = excluded.updated_at;
}

-- the arguments of `save_runbook`; the keywords are in lower case
pub record Draft : Type 0 where
  pub title : String
  pub content_md : String
  pub cloud_type : String
  pub keywords : List String
  pub services : List String
  pub author : String
  pub status : String

abbrev pub first_version : ℕ → Draft → Runbook
first_version now d = record {
  title = d.title;
  content_md = d.content_md;
  cloud_type = d.cloud_type;
  keywords = d.keywords;
  services = d.services;
  author = d.author;
  version = 1;
  status = d.status;
  hit_count = 0;
  miss_count = 0;
  created_at = now;
  updated_at = now;
}

unfoldable pub save_runbook : ℕ → String → Draft → Library → Library
save_runbook now id d lib = record lib {
  runbooks =
      Dict.put id
        (elim (Dict.get id lib.runbooks) [
          | none ↦ first_version now d
          | some old ↦ renew (first_version now d) old
        ])
        lib.runbooks;
}

unfoldable pub delete_runbook : String → Library → Library
delete_runbook id lib = record {
  runbooks = Dict.pop id lib.runbooks;
  alert_map = keep (λ r. not (str_eq r.runbook_id id)) lib.alert_map;
}

-- a filter that is None or "" is left out
abbrev pub has_status : Option String → Runbook → Bool
has_status none r = true
has_status (some s) r = str_eq s "" || str_eq r.status s

abbrev pub serves : Option String → Runbook → Bool
serves none r = true
serves (some c) r =
    str_eq c ""
    || (str_eq r.cloud_type c || (str_eq r.cloud_type "both" || str_eq r.cloud_type "any"))

-- ORDER BY hit_count DESC, updated_at DESC
abbrev pub comes_before : Runbook → Runbook → Bool
comes_before r q =
    ltb q.hit_count r.hit_count || (nat_eq q.hit_count r.hit_count && leb q.updated_at r.updated_at)

abbrev pub insert_ranked : String × Runbook → Dict Runbook → Dict Runbook
insert_ranked r [] = r ∷ []
insert_ranked r (q ∷ rows) = if comes_before r.1 q.1 then r ∷ q ∷ rows else q ∷ insert_ranked r rows

abbrev pub order_ranked : Dict Runbook → Dict Runbook
order_ranked [] = []
order_ranked (r ∷ rows) = insert_ranked r (order_ranked rows)

unfoldable pub list_runbooks : Option String → Option String → Library → Dict Runbook
list_runbooks status cloud lib =
    order_ranked (keep (λ r. has_status status r.1 && serves cloud r.1) lib.runbooks)

unfoldable pub upsert_map : String → String → ℕ → List MapRow → List MapRow
upsert_map key id priority [] =
    (record { alert_pattern = key; runbook_id = id; priority = priority }) ∷ []
upsert_map key id priority (r ∷ rows) =
    if str_eq r.alert_pattern key && str_eq r.runbook_id id
    then (record r { priority = priority }) ∷ rows
    else r ∷ upsert_map key id priority rows

-- `key` is the normal form of the alert's name
unfoldable pub map_alert : String → String → ℕ → Library → Library
unfolding upsert_map
map_alert key id priority lib =
    if str_eq key ""
    then lib
    else record lib { alert_map = upsert_map key id priority lib.alert_map }

abbrev pub insert_by_priority : MapRow → List MapRow → List MapRow
insert_by_priority r [] = r ∷ []
insert_by_priority r (q ∷ rows) =
    if leb r.priority q.priority then r ∷ q ∷ rows else q ∷ insert_by_priority r rows

abbrev pub order_by_priority : List MapRow → List MapRow
order_by_priority [] = []
order_by_priority (r ∷ rows) = insert_by_priority r (order_by_priority rows)

unfoldable pub mapped_runbook_ids : String → Library → List String
mapped_runbook_ids key lib =
    if str_eq key ""
    then []
    else map (λ r. r.runbook_id)
        (order_by_priority (keep (λ r. str_eq r.alert_pattern key) lib.alert_map))

-- UPDATE runbooks SET ... WHERE id = ?
unfoldable pub update_runbook : String → (Runbook → Runbook) → Dict Runbook → Dict Runbook
update_runbook id f [] = []
update_runbook id f ((k, r) ∷ rows) =
    (k, (if str_eq k id then f r else r)) ∷ update_runbook id f rows

abbrev pub hit_row : ℕ → Runbook → Runbook
hit_row now r = record r { hit_count = r.hit_count + 1; updated_at = now }

-- an alert without a name has the empty key
unfoldable pub mark_runbook_hit : ℕ → String → String → Library → Library
unfolding map_alert update_runbook
mark_runbook_hit now id key lib =
    map_alert key id 100 (record lib { runbooks = update_runbook id (hit_row now) lib.runbooks })

-- at least three misses, and at least seven of ten uses
abbrev pub is_worn : Runbook → Bool
is_worn r =
    leb demote_min_misses r.miss_count && leb (7 * (r.hit_count + r.miss_count)) (10 * r.miss_count)

abbrev pub miss_row : ℕ → Runbook → Runbook
miss_row now r =
    let missed = record r { miss_count = r.miss_count + 1; updated_at = now } in
    if is_worn missed then record missed { status = "demoted" } else missed

-- the count, the look at it and the demotion, which no other statement comes between
unfoldable pub mark_runbook_miss : ℕ → String → Library → Library
unfolding update_runbook
mark_runbook_miss now id lib = record lib {
  runbooks = update_runbook id (miss_row now) lib.runbooks;
}
