-- ===== src/Core/KeyPool/Tests.antt =====
-- Runs of the key pool of core/keypool.py.
use vishwakarma.Prelude.{String, ◌≡◌, refl, ap, Option, some, [], ◌∷◌, arith, get_elem?}
use vishwakarma.Prelude.Dict
use vishwakarma.Core.KeyPool.{
  KeyPool, new_pool, size, benched_until, soonest, next_free, get, penalize,
}
use vishwakarma.Core.KeyPool.Choice.{Fair, get-some}
use vishwakarma.Core.KeyPool.Rotation.{served, AllFree, served-rotates}

program : Unit {0}
unfolding new_pool size benched_until soonest next_free get penalize Dict.get Dict.put
program = tt

abbrev pool : KeyPool
pool = record { keys = "a" ∷ "b" ∷ "c" ∷ []; benched = []; i = 4 }

abbrev worn : KeyPool
worn = record pool { benched = ("a", 90) ∷ ("b", 80) ∷ ("c", 85) ∷ [] }

new_pool-drops :
    new_pool ("a" ∷ "" ∷ "b" ∷ []) ≡ record { keys = "a" ∷ "b" ∷ []; benched = []; i = 0 }
unfolding program
new_pool-drops = refl

get-worn : get 50 worn ≡ (some "b", record worn { i = 7 })
unfolding program
get-worn = refl

get-some_example : Fair 50 worn "b"
get-some_example = get-some 50 worn "b" (ap (λ (r : Option String × KeyPool). r.0) get-worn)

pool-AllFree : AllFree 50 pool
unfolding program
pool-AllFree key = omega arith

served-rotates_example : get_elem? (served 50 3 pool) 2 ≡ some (some "a")
served-rotates_example = served-rotates 50 3 2 pool pool-AllFree (omega arith) (omega arith)
