-- ===== src/Utils/Cache/Tests.antt =====
-- Runs of the cache of utils/cache.py.
use vishwakarma.Prelude.{ℕ, ◌≡◌, refl, false, some}
use vishwakarma.Prelude.Dict
use vishwakarma.Utils.Cache.{TtlCache, new_cache, set, contains}

abbrev two : TtlCache ℕ
two = set 10 "b" 2 (some 0) (set 10 "a" 1 (some 5) (new_cache 300))

contains_late : (contains 16 "a" two).0 ≡ false
unfolding contains set new_cache Dict.get Dict.put Dict.pop
contains_late = refl
