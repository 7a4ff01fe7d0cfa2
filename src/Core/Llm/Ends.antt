-- ===== src/Core/Llm/Ends.antt =====
-- The loop of core/llm.py over a chain of models ends.
use vishwakarma.Prelude.{
  ℕ, zero, suc, ◌-◌, ◌*◌, ◌≤◌, ◌<◌, min, String, ◌≡◌, refl, Bool, true, false, ◌||◌, Option, none,
  some, List, [], ◌∷◌, arith, ltb, if◌then◌else◌, is_some, length, get_elem?,
}
use vishwakarma.Core.Llm.{
  Provider, Walk, Failure, Tried, Turn, was_retried, short_wait, next_model, recover, attempt, turn,
  loop, call_with_fallback, rate_limited, failed, answered, raised, again, returns, leaves,
}

module _ {R W : Type 0} (p : Provider R W) (timeout total_budget : ℕ) where
  -- the turns that are left: two for each model that remains, one for a model that was retried
  abbrev left : List String → Walk W → ℕ
  left models walk =
      2 * (length models - walk.index) - (if was_retried walk.index walk.retried_same then 1 else 0)

  get_elem-lt :
      (models : List String) (i : ℕ) (m : String) → get_elem? models i ≡ some m → i < length models
  get_elem-lt [] i m h = ground arith
  get_elem-lt (x ∷ xs) zero m h = omega arith
  get_elem-lt (x ∷ xs) (suc i) m h = omega (arith, get_elem-lt xs i m h)

  -- a turn that goes on leaves fewer turns than `n`
  abbrev Shrinks : List String → ℕ → Turn R W → Type 0
  Shrinks models n (again walk) = left models walk < n
  Shrinks models n (returns r w) = Unit
  Shrinks models n (leaves e w) = Unit

  next_model-left :
      (models : List String) (f : Failure) (w : W) (walk : Walk W)
      → walk.index < length models
      → left models (next_model p timeout total_budget f w walk) < left models walk
  next_model-left models f w walk i = ground arith

  short_wait-fresh :
      (i : ℕ) (seen : List ℕ) (reset : Option ℕ) (wait : ℕ)
      → short_wait i seen reset ≡ some wait
      → was_retried i seen ≡ false
  short_wait-fresh i seen none wait h = ground arith
  short_wait-fresh i seen (some t) wait h = ground arith

  option-Shrinks :
      {A : Type 0}
      → (models : List String) (n : ℕ) (o : Option A) (x : Turn R W) (f : A → Turn R W)
      → Shrinks models n x
      → ((a : A) → o ≡ some a → Shrinks models n (f a))
      → Shrinks models n (elim o [ none ↦ x | some a ↦ f a ])
  option-Shrinks models n none x f hx hf = hx
  option-Shrinks models n (some a) x f hx hf = hf a refl

  recover-Shrinks :
      (models : List String) (key : Option String) (f : Failure) (w : W) (walk : Walk W)
      → walk.index < length models
      → Shrinks models (left models walk) (recover p timeout total_budget key f w walk)
  unfolding recover
  recover-Shrinks models key (failed e) w walk i = next_model-left models (failed e) w walk i
  recover-Shrinks models key (rate_limited reset) w walk i =
      let next = next_model-left models (rate_limited reset) (p.penalize key w) walk i in
      option-Shrinks models (left models walk) (short_wait walk.index walk.retried_same reset) _ _
        next
        (λ wait e.
          let fresh = short_wait-fresh walk.index walk.retried_same reset wait e in
          ground (arith, fresh))

  tried-Shrinks :
      (models : List String) (key : Option String) (tried : Tried R) (w : W) (walk : Walk W)
      → walk.index < length models
      → Shrinks models (left models walk) (elim tried [
        | answered r ↦ returns r w
        | raised f ↦ recover p timeout total_budget key f w walk
      ])
  tried-Shrinks models key (answered r) w walk i = tt
  tried-Shrinks models key (raised f) w walk i = recover-Shrinks models key f w walk i

  if-Shrinks :
      (models : List String) (n : ℕ) (b : Bool) (x y : Turn R W)
      → Shrinks models n x
      → Shrinks models n y
      → Shrinks models n (if b then x else y)
  if-Shrinks models n true x y hx hy = hx
  if-Shrinks models n false x y hx hy = hy

  turn-Shrinks :
      (models : List String) (start : ℕ) (walk : Walk W)
      → Shrinks models (left models walk) (turn p timeout total_budget models start walk)
  unfolding turn attempt
  turn-Shrinks models start walk =
      let elapsed = p.time walk.world - start in
      let remaining = min timeout (total_budget - elapsed) in
      let (key, w) = p.pick_key walk.world in
      let n = left models walk in
      option-Shrinks models n (get_elem? models walk.index) _ _ tt (λ model e.
        let (tried, w') = p.completion model remaining key w in
        if-Shrinks models n (ltb total_budget elapsed || ltb remaining 5) _ _ tt
          (tried-Shrinks models key tried w' walk (get_elem-lt models walk.index model e)))

  loop_on-ends :
      (fuel : ℕ) (models : List String) (start n : ℕ) (next : Turn R W)
      → Shrinks models n next
      → n ≤ fuel
      → ((walk : Walk W)
          → left models walk < fuel
          → is_some (loop p timeout total_budget fuel models start walk) ≡ true)
      → is_some (elim next [
        | again walk' ↦ loop p timeout total_budget fuel models start walk'
        | returns r w ↦ some (returns r w)
        | leaves e w ↦ some (leaves e w)
      ])
        ≡ true
  loop_on-ends fuel models start n (again walk) h le ih = ih walk (omega arith)
  loop_on-ends fuel models start n (returns r w) h le ih = refl
  loop_on-ends fuel models start n (leaves e w) h le ih = refl

  loop-ends :
      (fuel : ℕ) (models : List String) (start : ℕ) (walk : Walk W)
      → left models walk < fuel
      → is_some (loop p timeout total_budget fuel models start walk) ≡ true
  unfolding loop
  loop-ends zero models start walk h = absurd (omega arith)
  loop-ends (suc fuel) models start walk h =
      loop_on-ends fuel models start (left models walk)
        (turn p timeout total_budget models start walk) (turn-Shrinks models start walk)
        (omega arith) (loop-ends fuel models start)

  -- The loop over a chain of models returns or leaves within two turns for each model and one more,
  -- whatever the calls, the rate limits, the clock and the keys do.
  pub call_with_fallback-ends :
      (models : List String) (w : W)
      → is_some (call_with_fallback p timeout total_budget models w) ≡ true
  unfolding call_with_fallback
  call_with_fallback-ends models w = loop-ends _ models (p.time w) _ (ground arith)
