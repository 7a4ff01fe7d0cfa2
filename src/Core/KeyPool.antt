-- ===== src/Core/KeyPool.antt =====
-- vishwakarma/core/keypool.py: the keys of the gateway, in turn, but those that are benched.
mod Choice
mod Rotation
mod Tests
use vishwakarma.Prelude.{
  ℕ, zero, suc, ◌+◌, ◌%◌, String, not, Option, none, some, List, [], ◌∷◌, str_eq, ltb, leb,
  if◌then◌else◌, length, keep, get_elem?,
}
use vishwakarma.Prelude.Dict
use vishwakarma.Prelude.Dict.{Dict}

abbrev pub bench_seconds : ℕ
bench_seconds = 30

pub record KeyPool : Type 0 where
  pub keys : List String
  pub benched : Dict ℕ
  pub i : ℕ

-- `[k for k in keys if k]`: an empty text is no key
unfoldable pub new_pool : List String → KeyPool
new_pool keys = record { keys = keep (λ k. not (str_eq k "")) keys; benched = []; i = 0 }

unfoldable pub size : KeyPool → ℕ
size pool = length pool.keys

-- self._benched.get(key, 0)
unfoldable pub benched_until : KeyPool → String → ℕ
benched_until pool key = elim (Dict.get key pool.benched) [ none ↦ 0 | some t ↦ t ]

-- min(keys, key=...): the first of the smallest
unfoldable pub soonest : (String → ℕ) → String → List String → String
soonest until best [] = best
soonest until best (k ∷ ks) = soonest until (if ltb (until k) (until best) then k else best) ks

-- the loop: one key for each round, from the counter on
unfoldable pub next_free : ℕ → ℕ → KeyPool → Option String × KeyPool
next_free now zero pool = (none, pool)
next_free now (suc rounds) pool =
    let pool' = record pool { i = pool.i + 1 } in
    let rest = next_free now rounds pool' in
    elim (get_elem? pool.keys (pool.i % length pool.keys)) [
      | none ↦ rest
      | some key ↦ if leb (benched_until pool key) now then (some key, pool') else rest
    ]

unfoldable pub get_from : ℕ → List String → KeyPool → Option String × KeyPool
get_from now [] pool = (none, pool)
get_from now (k ∷ ks) pool =
    let (found, pool') = next_free now (size pool) pool in
    (elim found [ some key ↦ some key | none ↦ some (soonest (benched_until pool') k ks) ], pool')

unfoldable pub get : ℕ → KeyPool → Option String × KeyPool
unfolding get_from
get now pool = get_from now pool.keys pool

-- an empty key is ignored
unfoldable pub penalize : ℕ → String → ℕ → KeyPool → KeyPool
penalize now key seconds pool =
    if str_eq key ""
    then pool
    else record pool { benched = Dict.put key (now + seconds) pool.benched }
