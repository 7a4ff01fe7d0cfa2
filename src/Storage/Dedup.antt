-- ===== src/Storage/Dedup.antt =====
-- vishwakarma/storage/dedup.py: one investigation at a time for an alert. The Redis server is a
-- parameter: an operation on it answers, or raises (`none`), and in either case leaves a new state.
-- Clock readings are natural numbers of seconds.
mod Locking
mod Tests
use vishwakarma.Prelude.{
  ℕ, ◌+◌, String, Bool, true, false, Option, none, some, [], ◌∷◌, ltb, leb, if◌then◌else◌,
  str_append, length,
}
use vishwakarma.Prelude.Dict
use vishwakarma.Prelude.Dict.{Dict}

abbrev pub dedup_lock_ttl : ℕ
dedup_lock_ttl = 3600

abbrev pub key_prefix : String
key_prefix = "vk:dedup:"

-- the commands that the module sends to Redis, on its prefixed keys
pub record Redis : Type 1 where
  pub Server : Type 0
  pub set_nx_ex : ℕ → String → ℕ → Server → Option Bool × Server
  pub delete : ℕ → String → Server → Option (Unit {0}) × Server
  pub exists : ℕ → String → Server → Option Bool × Server

-- self._local.get(fingerprint, 0)
unfoldable pub expiry : String → Dict ℕ → ℕ
expiry fingerprint held = elim (Dict.get fingerprint held) [ none ↦ 0 | some t ↦ t ]

-- the cleanup: the expired entries go
unfoldable pub purge : ℕ → Dict ℕ → Dict ℕ
purge now [] = []
purge now ((k, v) ∷ held) = let rest = purge now held in if leb v now then rest else (k, v) ∷ rest

unfoldable pub acquire_local : ℕ → String → ℕ → Dict ℕ → Bool × Dict ℕ
acquire_local now fingerprint ttl held =
    if ltb now (expiry fingerprint held)
    then (false, held)
    else let held' = Dict.put fingerprint (now + ttl) held in
      (true, (if ltb 256 (length held') then purge now held' else held'))

unfoldable pub active_local : ℕ → String → Dict ℕ → Bool
active_local now fingerprint held = ltb now (expiry fingerprint held)

-- the module's state: a connection, or none in single-pod mode, and the local locks
pub record Locks (redis : Redis) : Type 0 where
  pub server : Option redis.Server
  pub held : Dict ℕ

module _ {redis : Redis} where
  unfoldable pub locally : {A : Type 0} → (Dict ℕ → A × Dict ℕ) → Locks redis → A × Locks redis
  locally m s = let (a, held) = m s.held in (a, record s { held = held })

  -- what the connection answers, and else what the local locks say
  unfoldable pub with_fallback :
      {A : Type 0}
      → (redis.Server → Option A × redis.Server)
      → (Dict ℕ → A × Dict ℕ)
      → Option redis.Server
      → Locks redis
      → A × Locks redis
  unfolding locally
  with_fallback ask m none s = locally m s
  with_fallback ask m (some server) s =
      let (answer, server') = ask server in
      let s' = record s { server = some server' } in
      elim answer [ some a ↦ (a, s') | none ↦ locally m s' ]

  unfoldable pub try_acquire : ℕ → String → ℕ → Locks redis → Bool × Locks redis
  unfolding with_fallback acquire_local
  try_acquire now fingerprint ttl s =
      with_fallback (redis.set_nx_ex now (str_append key_prefix fingerprint) ttl)
        (acquire_local now fingerprint ttl) s.server s

  -- the local entry goes whether or not Redis answered
  unfoldable pub release_on : ℕ → String → Option redis.Server → Locks redis → Locks redis
  release_on now fingerprint none s = record s { held = Dict.pop fingerprint s.held }
  release_on now fingerprint (some server) s =
      let (_, server') = redis.delete now (str_append key_prefix fingerprint) server in
      record s { server = some server'; held = Dict.pop fingerprint s.held }

  unfoldable pub release : ℕ → String → Locks redis → Locks redis
  unfolding release_on
  release now fingerprint s = release_on now fingerprint s.server s

  unfoldable pub is_active : ℕ → String → Locks redis → Bool × Locks redis
  unfolding with_fallback active_local
  is_active now fingerprint s =
      with_fallback (redis.exists now (str_append key_prefix fingerprint))
        (λ held. (active_local now fingerprint held, held)) s.server s
