-- ===== src/Utils/Cache.antt =====
-- vishwakarma/utils/cache.py: a cache whose entries expire. A method takes the clock reading that
-- it makes, a natural number of seconds, and returns its result and the new cache.
mod Reads
mod Tests
use vishwakarma.Prelude.{
  ℕ, zero, suc, ◌+◌, String, Bool, true, false, Option, none, some, [], ltb, if◌then◌else◌,
}
use vishwakarma.Prelude.Dict
use vishwakarma.Prelude.Dict.{Dict}

pub record TtlCache {ℓ} (V : Type ℓ) : Type ℓ where
  pub cache : Dict (V × ℕ)
  pub ttl : ℕ

-- `ttl or self._ttl`
abbrev pub or_default : Option ℕ → ℕ → ℕ
or_default none d = d
or_default (some zero) d = d
or_default (some (suc n)) d = suc n

module _ {ℓ} {V : Type ℓ} where
  unfoldable pub new_cache : ℕ → TtlCache V
  new_cache ttl_seconds = record { cache = []; ttl = ttl_seconds }

  unfoldable pub delete : String → TtlCache V → TtlCache V
  delete key c = record c { cache = Dict.pop key c.cache }

  -- what `get` does with the entry that it found
  unfoldable pub get_entry : ℕ → String → Option (V × ℕ) → TtlCache V → Option V × TtlCache V
  unfolding delete
  get_entry now key none c = (none, c)
  get_entry now key (some (value, expires_at)) c =
      if ltb expires_at now then (none, delete key c) else (some value, c)

  unfoldable pub get : ℕ → String → TtlCache V → Option V × TtlCache V
  unfolding get_entry
  get now key c = get_entry now key (Dict.get key c.cache) c

  unfoldable pub set : ℕ → String → V → Option ℕ → TtlCache V → TtlCache V
  set now key value ttl c = record c {
    cache = Dict.put key (value, now + or_default ttl c.ttl) c.cache;
  }

  unfoldable pub clear : TtlCache V → TtlCache V
  clear c = record c { cache = [] }

  -- `key in cache`: it reads, so that it may drop the entry
  unfoldable pub contains : ℕ → String → TtlCache V → Bool × TtlCache V
  unfolding get
  contains now key c =
      let (value, c') = get now key c in (elim value [ none ↦ false | some _ ↦ true ], c')
