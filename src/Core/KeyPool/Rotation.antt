-- ===== src/Core/KeyPool/Rotation.antt =====
-- The order in which core/keypool.py gives its keys out, and how long a benched key sits out.
use native.Mathlib.Nat.{mod-lt, add-zero}
use vishwakarma.Prelude.{
  ℕ, zero, suc, ◌+◌, ◌%◌, ◌≤◌, ◌<◌, String, ◌≡◌, refl, sym, ap, ◌∙◌, ◌≢◌, inl, inr, true, Option,
  some, List, [], ◌∷◌, arith, str_eq, eq_iff, if◌then◌else◌, length, get_elem?,
}
use vishwakarma.Prelude.Dict.{get-put}
use vishwakarma.Core.KeyPool.{KeyPool, size, benched_until, next_free, get_from, get, penalize}
use vishwakarma.Core.KeyPool.Choice.{has, get-some}

-- the keys that `n` calls in a row give out
unfoldable pub served : ℕ → ℕ → KeyPool → List (Option String)
served now zero pool = []
served now (suc n) pool = let (key, pool') = get now pool in key ∷ served now n pool'

abbrev pub AllFree : ℕ → KeyPool → Type 0
AllFree now pool = (key : String) → benched_until pool key ≤ now

next_free-free :
    (now rounds : ℕ) (pool : KeyPool) (key : String)
    → get_elem? pool.keys (pool.i % length pool.keys) ≡ some key
    → benched_until pool key ≤ now
    → next_free now (suc rounds) pool ≡ (some key, record pool { i = pool.i + 1 })
unfolding next_free
next_free-free now rounds pool key at free = ground arith

get_from-free :
    (now : ℕ) (keys : List String) (pool : KeyPool) (key : String)
    → pool.keys ≡ keys
    → get_elem? pool.keys (pool.i % length pool.keys) ≡ some key
    → benched_until pool key ≤ now
    → get_from now keys pool ≡ (some key, record pool { i = pool.i + 1 })
unfolding get_from size
get_from-free now [] pool key e at free = absurd (ground arith)
get_from-free now (k ∷ ks) pool key e at free =
    let n : length pool.keys ≡ suc (length ks) = ap length e in
    ground (arith, next_free-free now (length ks) pool key at free)

benched_until-penalize :
    (t seconds : ℕ) (pool : KeyPool) (key j : String)
    → benched_until (penalize t key seconds pool) j ≡ (
        if str_eq key ""
        then benched_until pool j
        else if str_eq key j
        then t + seconds
        else benched_until pool j)
unfolding benched_until penalize
benched_until-penalize t seconds pool key j =
    ground (arith, get-put key j (t + seconds) pool.benched)

keys-penalize :
    (t seconds : ℕ) (pool : KeyPool) (key : String) → (penalize t key seconds pool).keys ≡ pool.keys
unfolding penalize
keys-penalize t seconds pool key = ground arith

get_elem?-lt {ℓ} :
    {A : Type ℓ} (i : ℕ) (xs : List A) → i < length xs → (a : A) × (get_elem? xs i ≡ some a)
get_elem?-lt i [] h = absurd (omega arith)
get_elem?-lt zero (x ∷ xs) h = (x, refl)
get_elem?-lt (suc i) (x ∷ xs) h = get_elem?-lt i xs (omega arith)

served_first :
    (now n : ℕ) (pool : KeyPool) (key : String)
    → get_elem? pool.keys (pool.i % length pool.keys) ≡ some key
    → benched_until pool key ≤ now
    → served now (suc n) pool ≡ some key ∷ served now n (record pool { i = pool.i + 1 })
unfolding served get
served_first now n pool key at free = rw (get_from-free now pool.keys pool key refl at free)

benched_until-i :
    (pool : KeyPool) (i : ℕ) (key : String)
    → benched_until (record pool { i = i }) key ≡ benched_until pool key
unfolding benched_until
benched_until-i pool i key = refl

-- While no key is benched, call number `r` of a row gives out the key that stands `r` places after
-- the counter, round the list: the keys take strict turns.
pub served-rotates :
    (now n r : ℕ) (pool : KeyPool)
    → AllFree now pool
    → 0 < length pool.keys
    → r < n
    → get_elem? (served now n pool) r ≡ some (get_elem? pool.keys ((pool.i + r) % length pool.keys))
served-rotates now zero r pool free some_key h = absurd (omega arith)
served-rotates now (suc n) zero pool free some_key h =
    let (key, at) = get_elem?-lt (pool.i % length pool.keys) pool.keys (mod-lt pool.i some_key) in
    rw (served_first now n pool key at (free key)) (
      rw (← at)
        (ap (λ t. some (get_elem? pool.keys (t % length pool.keys))) (sym (add-zero pool.i))))
served-rotates now (suc n) (suc r) pool free some_key h =
    let (key, at) = get_elem?-lt (pool.i % length pool.keys) pool.keys (mod-lt pool.i some_key) in
    let there : pool.i + 1 + r ≡ pool.i + suc r = omega arith in
    rw (served_first now n pool key at (free key)) (
      served-rotates now n r (record pool { i = pool.i + 1 }) (λ k. rw benched_until-i (free k))
        some_key (omega arith)
      ∙ ap (λ t. some (get_elem? pool.keys (t % length pool.keys))) there)

-- A key that was benched sits out: until its time is over it is not given out while another key of
-- the pool is free.
pub get-penalize :
    (t now seconds : ℕ) (pool : KeyPool) (key other : String)
    → key ≢ ""
    → now < t + seconds
    → has other pool.keys ≡ true
    → key ≢ other
    → benched_until pool other ≤ now
    → (get now (penalize t key seconds pool)).0 ≢ some key
get-penalize t now seconds pool key other named before member differ free e =
    let benched = benched_until-penalize t seconds pool key in
    elim (get-some now (penalize t key seconds pool) key e).1 [
      | inl open_now ↦ ground (arith, eq_iff key "", eq_iff key key, benched key)
      | inr worse ↦
          let fact = worse other (rw keys-penalize member) in
          ground (arith, eq_iff key other, eq_iff key "", benched other)
    ]
