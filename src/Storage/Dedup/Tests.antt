-- ===== src/Storage/Dedup/Tests.antt =====
-- Runs of the lock of storage/dedup.py.
use vishwakarma.Prelude.{
  ℕ, ◌+◌, ◌≡◌, refl, true, false, none, some, List, [], ◌∷◌, arith, eq_iff, nat_eq, if◌then◌else◌,
}
use vishwakarma.Prelude.Dict
use vishwakarma.Storage.Dedup.{Redis, Locks, expiry, acquire_local, try_acquire, release}
use vishwakarma.Storage.Dedup.Locking.{Op, run_all, try_acquire_exclusive, acquire, free}

abbrev no_redis : Redis
no_redis = record {
  Server = Unit;
  set_nx_ex = λ now k ttl s. (none, s);
  delete = λ now k s. (none, s);
  exists = λ now k s. (none, s);
}

abbrev fresh : Locks no_redis
fresh = record { server = none; held = [] }

program : Unit {0}
unfolding try_acquire release acquire_local expiry Dict.get Dict.put Dict.pop run_all
program = tt

abbrev granted : Locks no_redis
granted = (try_acquire 100 "a" 60 fresh).1

granted_first : (try_acquire 100 "a" 60 fresh).0 ≡ true
unfolding program
granted_first = refl

-- Redis grants the lock and then fails: the local locks, which know nothing of it, grant it again
abbrev failing : Redis
failing = record {
  Server = ℕ;
  set_nx_ex = λ now k ttl n. (if nat_eq n 0 then some true else none, n + 1);
  delete = λ now k n. (none, n);
  exists = λ now k n. (none, n);
}

abbrev connected : Locks failing
connected = record { server = some 0; held = [] }

granted_twice :
    ((try_acquire 100 "a" 60 connected).0 ≡ true)
    × ((try_acquire 110 "a" 60 (try_acquire 100 "a" 60 connected).1).0 ≡ true)
unfolding program
granted_twice = (refl, refl)

abbrev between : List Op
between = acquire 110 "b" 5 ∷ free 115 "b" ∷ acquire 120 "a" 9 ∷ []

try_acquire_exclusive_example :
    try_acquire 150 "a" 60 (run_all between granted) ≡ (false, run_all between granted)
try_acquire_exclusive_example =
    try_acquire_exclusive 100 "a" 60 [] between 150 60 (omega arith) granted_first
      (omega arith, (λ p. cc ((eq_iff "b" "a").1 p), (omega arith, tt))) (omega arith)
