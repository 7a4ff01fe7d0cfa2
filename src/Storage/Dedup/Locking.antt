-- ===== src/Storage/Dedup/Locking.antt =====
-- The lock of storage/dedup.py: who holds it, until when, and what the cleanup leaves.
use mathlib.Core.Bool.{false, true}
use mathlib.Core.Option.{none}
use vishwakarma.Prelude.{
  ℕ, ◌+◌, ◌≤◌, ◌<◌, String, ◌≡◌, refl, ◌∙◌, ◌≢◌, true, false, ◌&&◌, none, List, [], ◌∷◌, arith,
  str_eq, eq_iff, ltb, if◌then◌else◌, ap,
}
use vishwakarma.Prelude.Dict
use vishwakarma.Prelude.Dict.{Dict, Unique, get-put, get-pop, put-Unique}
use vishwakarma.Storage.Dedup.{
  Redis, Locks, expiry, purge, acquire_local, active_local, try_acquire, release,
}

-- A live entry survives the cleanup.
expiry-purge :
    (now : ℕ) (k : String) (held : Dict ℕ)
    → now < expiry k held
    → expiry k (purge now held) ≡ expiry k held
unfolding expiry purge Dict.get
expiry-purge now k [] h = refl
expiry-purge now k ((j, v) ∷ held) h = ground (arith, expiry-purge now k held)

-- An expired or absent key is absent or expired after it.
expiry-purge-le :
    (now : ℕ) (k : String) (held : Dict ℕ)
    → Unique held
    → expiry k held ≤ now
    → expiry k (purge now held) ≤ now
unfolding expiry purge Dict.get
expiry-purge-le now k [] u h = omega arith
expiry-purge-le now k ((j, v) ∷ held) u h = ground (arith, expiry-purge-le now k held, eq_iff j k)

expiry-put :
    (k j : String) (v : ℕ) (held : Dict ℕ)
    → expiry j (Dict.put k v held) ≡ (if str_eq k j then v else expiry j held)
unfolding expiry
expiry-put k j v held = ground (arith, get-put k j v held)

-- After an attempt, granted or not and cleanup included, a later look at a key finds it active
-- until the granted time, if it is the key that was granted, and else as it was before.
pub active_local-acquire_local :
    (now later : ℕ) (k j : String) (ttl : ℕ) (held : Dict ℕ)
    → Unique held
    → now ≤ later
    → active_local later j (acquire_local now k ttl held).1 ≡ (
        if (acquire_local now k ttl held).0 && str_eq k j
        then ltb later (now + ttl)
        else active_local later j held)
unfolding active_local acquire_local
active_local-acquire_local now later k j ttl held u h =
    let held' = Dict.put k (now + ttl) held in
    ground (
      arith,
      expiry-put k j (now + ttl) held,
      expiry-purge now j held',
      expiry-purge-le now j held' (put-Unique k (now + ttl) held u),
      eq_iff k j,
    )

refused :
    (now : ℕ) (key : String) (ttl : ℕ) (held : Dict ℕ)
    → now < expiry key held
    → acquire_local now key ttl held ≡ (false, held)
unfolding acquire_local
refused now key ttl held h = ground arith

-- What other alerts, and repeats of this one, do to the local locks.
pub data Op : Type 0 where
  acquire : ℕ → String → ℕ → Op
  free : ℕ → String → Op

unfoldable pub run : List Op → Dict ℕ → Dict ℕ
run [] held = held
run (acquire now k ttl ∷ ops) held = run ops (acquire_local now k ttl held).1
run (free now k ∷ ops) held = run ops (Dict.pop k held)

-- The steps come before `end` and none of them releases `key`.
abbrev pub Quiet : String → ℕ → List Op → Type 0
Quiet key end [] = Unit
Quiet key end (acquire now k ttl ∷ ops) = (now < end) × Quiet key end ops
Quiet key end (free now k ∷ ops) = (k ≢ key) × Quiet key end ops

expiry-acquire_local :
    (now : ℕ) (k j : String) (ttl : ℕ) (held : Dict ℕ)
    → now < expiry j held
    → expiry j (acquire_local now k ttl held).1 ≡ expiry j held
unfolding acquire_local
expiry-acquire_local now k j ttl held h = ground (
  arith,
  expiry-put k j (now + ttl) held,
  expiry-purge now j (Dict.put k (now + ttl) held),
  eq_iff k j,
)

expiry-pop : (k j : String) (held : Dict ℕ) → k ≢ j → expiry j (Dict.pop k held) ≡ expiry j held
unfolding expiry
expiry-pop k j held h = ground (arith, get-pop k j held, eq_iff k j)

expiry-run :
    (key : String) (end : ℕ) (ops : List Op) (held : Dict ℕ)
    → expiry key held ≡ end
    → Quiet key end ops
    → expiry key (run ops held) ≡ end
unfolding run
expiry-run key end [] held e q = e
expiry-run key end (acquire now k ttl ∷ ops) held e q =
    expiry-run key end ops (acquire_local now k ttl held).1
      (expiry-acquire_local now k key ttl held (rw e q.0) ∙ e) q.1
expiry-run key end (free now k ∷ ops) held e q =
    expiry-run key end ops (Dict.pop k held) (expiry-pop k key held q.0 ∙ e) q.1

granted_expiry :
    (t : ℕ) (key : String) (ttl : ℕ) (held : Dict ℕ)
    → 0 < ttl
    → (acquire_local t key ttl held).0 ≡ true
    → expiry key (acquire_local t key ttl held).1 ≡ t + ttl
unfolding acquire_local
granted_expiry t key ttl held h g = ground (
  arith,
  expiry-put key key (t + ttl) held,
  expiry-purge t key (Dict.put key (t + ttl) held),
  eq_iff key key,
)

acquire_local_again :
    (t : ℕ) (key : String) (ttl : ℕ) (held : Dict ℕ) (ops : List Op) (now ttl' : ℕ)
    → 0 < ttl
    → (acquire_local t key ttl held).0 ≡ true
    → Quiet key (t + ttl) ops
    → now < t + ttl
    → acquire_local now key ttl' (run ops (acquire_local t key ttl held).1)
      ≡ (false, run ops (acquire_local t key ttl held).1)
acquire_local_again t key ttl held ops now ttl' pos g q h =
    refused now key ttl' (run ops (acquire_local t key ttl held).1) (
      rw
        (expiry-run key (t + ttl) ops (acquire_local t key ttl held).1
          (granted_expiry t key ttl held pos g) q)
        h)

module _ {redis : Redis} where
  -- a process without a connection to Redis, and what the operations make of its state
  abbrev pub alone : Dict ℕ → Locks redis
  alone held = record { server = none; held = held }

  unfoldable pub run_all : List Op → Locks redis → Locks redis
  run_all [] s = s
  run_all (acquire now k ttl ∷ ops) s = run_all ops (try_acquire now k ttl s).1
  run_all (free now k ∷ ops) s = run_all ops (release now k s)

  run_all-alone : (ops : List Op) (held : Dict ℕ) → run_all ops (alone held) ≡ alone (run ops held)
  unfolding run run_all try_acquire release
  run_all-alone [] held = refl
  run_all-alone (acquire now k ttl ∷ ops) held = run_all-alone ops (acquire_local now k ttl held).1
  run_all-alone (free now k ∷ ops) held = run_all-alone ops (Dict.pop k held)

  -- Mutual exclusion in one process without Redis: once `try_acquire` grants a lock for `ttl`
  -- seconds, a further attempt before they are over is refused and changes nothing, whatever attempts
  -- and releases of other keys come between, the cleanups that they make included.
  pub try_acquire_exclusive :
      (t : ℕ) (key : String) (ttl : ℕ) (held : Dict ℕ) (ops : List Op) (now ttl' : ℕ)
      → 0 < ttl
      → (try_acquire t key ttl (alone held)).0 ≡ true
      → Quiet key (t + ttl) ops
      → now < t + ttl
      → try_acquire now key ttl' (run_all ops (try_acquire t key ttl (alone held)).1)
        ≡ (false, run_all ops (try_acquire t key ttl (alone held)).1)
  unfolding try_acquire
  try_acquire_exclusive t key ttl held ops now ttl' pos g q h =
      rw (run_all-alone ops (acquire_local t key ttl held).1)
        (ap (λ r. (r.0, alone r.1)) (acquire_local_again t key ttl held ops now ttl' pos g q h))

module _ {redis : Redis} (s : Locks redis) (now : ℕ) (key : String) where
  -- After `release` and with no server, the next attempt is granted.
  pub try_acquire-release :
      (ttl : ℕ) → s.server ≡ none → (try_acquire now key ttl (release now key s)).0 ≡ true
  unfolding try_acquire release acquire_local expiry
  try_acquire-release ttl h = ground (arith, get-pop key key s.held, eq_iff key key)
