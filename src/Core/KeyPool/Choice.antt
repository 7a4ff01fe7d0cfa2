-- ===== src/Core/KeyPool/Choice.antt =====
-- Which key core/keypool.py gives out.
use native.Mathlib.Nat.{mod-lt, add-mod-mod, mod-add-mod, add-mod_right, mod-eq_of_lt}
use vishwakarma.Prelude.{
  ℕ, zero, suc, ◌+◌, ◌-◌, ◌%◌, ◌≤◌, ◌<◌, String, ◌≡◌, refl, sym, ap, subst, ◌∙◌, ◌⊎◌, inl, inr,
  Bool, true, none, some, List, [], ◌∷◌, arith, str_eq, eq_iff, Bool-cases, Option-cases, length,
  any, get_elem?,
}
use vishwakarma.Core.KeyPool.{KeyPool, size, benched_until, soonest, next_free, get_from, get}

abbrev pub has : String → List String → Bool
has key keys = any (λ k. str_eq k key) keys

has-get_elem? :
    (key : String) (keys : List String)
    → has key keys ≡ true
    → (j : ℕ) × (j < length keys) × (get_elem? keys j ≡ some key)
has-get_elem? key [] h = cc
has-get_elem? key (k ∷ ks) h = elim (Bool-cases (str_eq k key)) [
  | inl same ↦ (0, omega arith, ap some ((eq_iff k key).0 same))
  | inr other ↦
      let (j, below, at) = has-get_elem? key ks (rw other at h) in (suc j, omega arith, at)
]

get_elem?-has :
    (j : ℕ) (key : String) (keys : List String) → get_elem? keys j ≡ some key → has key keys ≡ true
get_elem?-has j key [] h = cc
get_elem?-has zero key (k ∷ ks) h = ground (arith, eq_iff k key)
get_elem?-has (suc j) key (k ∷ ks) h = ground (arith, get_elem?-has j key ks h)

module _ (until : String → ℕ) where
  soonest-le-best : (best : String) (ks : List String) → until (soonest until best ks) ≤ until best
  unfolding soonest
  soonest-le-best best [] = omega arith
  soonest-le-best best (k ∷ ks) = ground (arith, soonest-le-best k ks, soonest-le-best best ks)

  soonest-le :
      (best key : String) (ks : List String)
      → has key (best ∷ ks) ≡ true
      → until (soonest until best ks) ≤ until key
  unfolding soonest
  soonest-le best key [] h = ground (arith, eq_iff best key)
  soonest-le best key (k ∷ ks) h = ground (
    arith,
    eq_iff best key,
    eq_iff k key,
    soonest-le-best k ks,
    soonest-le-best best ks,
    soonest-le k key ks,
    soonest-le best key ks,
  )

  has-soonest : (best : String) (ks : List String) → has (soonest until best ks) (best ∷ ks) ≡ true
  unfolding soonest
  has-soonest best [] = ground (arith, eq_iff best best)
  has-soonest best (k ∷ ks) = ground (arith, has-soonest k ks, has-soonest best ks)

-- the loop leaves the keys and the benches alone
next_free-keys :
    (now rounds : ℕ) (pool : KeyPool)
    → ((next_free now rounds pool).1.keys ≡ pool.keys)
      × ((next_free now rounds pool).1.benched ≡ pool.benched)
unfolding next_free
next_free-keys now zero pool = (refl, refl)
next_free-keys now (suc rounds) pool =
    ground (arith, next_free-keys now rounds (record pool { i = pool.i + 1 }))

next_free-some :
    (now rounds : ℕ) (pool : KeyPool) (key : String)
    → (next_free now rounds pool).0 ≡ some key
    → (has key pool.keys ≡ true) × (benched_until pool key ≤ now)
unfolding next_free benched_until
next_free-some now zero pool key h = cc
next_free-some now (suc rounds) pool key h = ground (
  arith,
  next_free-some now rounds (record pool { i = pool.i + 1 }) key,
  get_elem?-has (pool.i % length pool.keys) key pool.keys,
)

next_free-none :
    (now rounds r : ℕ) (pool : KeyPool) (key : String)
    → (next_free now rounds pool).0 ≡ none
    → r < rounds
    → get_elem? pool.keys ((pool.i + r) % length pool.keys) ≡ some key
    → now < benched_until pool key
unfolding next_free benched_until
next_free-none now zero r pool key h lt e = absurd (omega arith)
next_free-none now (suc rounds) zero pool key h lt e =
    let here : pool.i + 0 ≡ pool.i = omega arith in
    let e' : get_elem? pool.keys (pool.i % length pool.keys) ≡ some key = rw here at e in
    ground arith
next_free-none now (suc rounds) (suc r) pool key h lt e =
    let there : pool.i + suc r ≡ pool.i + 1 + r = omega arith in
    next_free-none now rounds r (record pool { i = pool.i + 1 }) key (ground arith) (omega arith)
      (rw there at e)

-- every index is met within one turn
turn : (i j n : ℕ) → j < n → (r : ℕ) × (r < n) × ((i + r) % n ≡ j)
turn i j n h =
    let x = j + n - i % n in
    let below : i % n < n = mod-lt i (omega arith) in
    let whole : i % n + x ≡ j + n = omega arith in
    (
      x % n,
      mod-lt x (omega arith),
      add-mod-mod i x n
          ∙ sym (mod-add-mod i n x)
          ∙ ap (λ (t : ℕ). t % n) whole
          ∙ add-mod_right j n
          ∙ mod-eq_of_lt h,
    )

all_benched :
    (now : ℕ) (pool : KeyPool) (key : String)
    → (next_free now (length pool.keys) pool).0 ≡ none
    → has key pool.keys ≡ true
    → now < benched_until pool key
all_benched now pool key h member =
    let (j, below, at) = has-get_elem? key pool.keys member in
    let (r, small, e) = turn pool.i j (length pool.keys) below in
    next_free-none now (length pool.keys) r pool key h small (rw e at)

benched_until-next_free :
    (now rounds : ℕ) (pool : KeyPool) (key : String)
    → benched_until (next_free now rounds pool).1 key ≡ benched_until pool key
unfolding benched_until
benched_until-next_free now rounds pool key = rw ((next_free-keys now rounds pool).1, benched_until)

-- what the pool may answer at the time `now`
abbrev pub Fair : ℕ → KeyPool → String → Type 0
Fair now pool key =
    (has key pool.keys ≡ true)
    × ((benched_until pool key ≤ now)
        ⊎ ((other : String)
            → has other pool.keys ≡ true
            → (now < benched_until pool other)
              × (benched_until pool key ≤ benched_until pool other)))

soonest-Fair :
    (now : ℕ) (k : String) (ks : List String) (pool : KeyPool)
    → pool.keys ≡ k ∷ ks
    → (next_free now (length pool.keys) pool).0 ≡ none
    → Fair now pool (soonest (benched_until (next_free now (length pool.keys) pool).1) k ks)
soonest-Fair now k ks pool e failed =
    let until = benched_until (next_free now (length pool.keys) pool).1 in
    let best = soonest until k ks in
    (
      subst (λ l. has best l ≡ true) (sym e) (has-soonest until k ks),
      inr (λ other member. (
        all_benched now pool other failed member,
        omega (
          arith,
          benched_until-next_free now (length pool.keys) pool best,
          benched_until-next_free now (length pool.keys) pool other,
          soonest-le until k other ks (subst (λ l. has other l ≡ true) e member),
        ),
      )),
    )

get_from-some :
    (now : ℕ) (keys : List String) (pool : KeyPool) (key : String)
    → pool.keys ≡ keys
    → (get_from now keys pool).0 ≡ some key
    → Fair now pool key
unfolding get_from size
get_from-some now [] pool key e h = cc
get_from-some now (k ∷ ks) pool key e h =
    elim (Option-cases (next_free now (length pool.keys) pool).0) [
      | inl failed ↦ subst (Fair now pool) (ground arith) (soonest-Fair now k ks pool e failed)
      | inr (found, succeeded) ↦
          let (member, free) = next_free-some now (length pool.keys) pool found succeeded in
          subst (Fair now pool) (ground arith) (member, inl free)
    ]

-- What is given out is a key of the pool, and it is not benched, unless all keys of the pool are
-- benched: then no key of the pool comes free sooner.
pub get-some :
    (now : ℕ) (pool : KeyPool) (key : String) → (get now pool).0 ≡ some key → Fair now pool key
unfolding get
get-some now pool key h = get_from-some now pool.keys pool key refl h
