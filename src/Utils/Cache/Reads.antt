-- ===== src/Utils/Cache/Reads.antt =====
-- What a read of the cache of utils/cache.py returns after each method.
use vishwakarma.Prelude.{
  ℕ, ◌+◌, ◌≤◌, String, ◌≡◌, Option, none, some, arith, str_eq, eq_iff, ltb, if◌then◌else◌,
}
use vishwakarma.Prelude.Dict.{get-put, get-pop}
use vishwakarma.Utils.Cache.{TtlCache, or_default, delete, get_entry, get, set}

module _ {ℓ} {V : Type ℓ} (c : TtlCache V) where
  -- A read after `set` finds the value of that key as long as the clock is not past the time of
  -- the write plus its lifetime (the cache's own where none or 0 is given), and of any other key
  -- what a read found before.
  pub get-set :
      (t now : ℕ) (k j : String) (v : V) (ttl : Option ℕ)
      → (get now j (set t k v ttl c)).0 ≡ (
          if str_eq k j
          then (if ltb (t + or_default ttl c.ttl) now then none else some v)
          else (get now j c).0)
  unfolding get get_entry set
  get-set t now k j v ttl = ground (arith, get-put k j (v, t + or_default ttl c.ttl) c.cache)

  -- That a read drops an expired entry is seen by no read that comes later by the clock.
  pub get-get : (t now : ℕ) (k j : String) → t ≤ now → (get now j (get t k c).1).0 ≡ (get now j c).0
  unfolding get get_entry delete
  get-get t now k j h = ground (arith, get-pop k j c.cache, eq_iff k j)

  -- A read after `delete` of its key finds nothing, and of another key what it found before.
  pub get-delete :
      (now : ℕ) (k j : String)
      → (get now j (delete k c)).0 ≡ (if str_eq k j then none else (get now j c).0)
  unfolding get get_entry delete
  get-delete now k j = ground (arith, get-pop k j c.cache)
