-- ===== src/Core/Llm.antt =====
-- vishwakarma/core/llm.py: the chains of models that stand in for each other, and the loop that
-- tries them. litellm's `completion`, the key pool and the clock are parameters that act on a state
-- of the world; clock readings and waits are natural numbers of seconds, and what a rate limit says
-- of its reset is the wait that remains, or none; the half second added to a wait is rounded up.
mod Ends
mod Tests
use vishwakarma.Prelude.{
  ℕ, zero, suc, ◌+◌, ◌-◌, ◌*◌, min, String, Bool, not, ◌&&◌, ◌||◌, Option, none, some, List, [],
  ◌∷◌, ◌++◌, str_eq, ltb, leb, nat_eq, if◌then◌else◌, length, any, keep, get_elem?,
}
use vishwakarma.Core.Correlation.{is_in}

pub record LlmConfig : Type 0 where
  pub model : String
  pub fast_model : Option String
  pub fast_fallbacks : List String
  pub model_fallbacks : List String

-- `a or b` where None and "" count as absent
abbrev pub or_model : Option String → String → String
or_model none m = m
or_model (some f) m = if str_eq f "" then m else f

unfoldable pub get_fast_chain : LlmConfig → List String
get_fast_chain cfg =
    let primary = or_model cfg.fast_model cfg.model in
    let chain = primary ∷ keep (λ f. not (str_eq f primary)) cfg.fast_fallbacks in
    if is_in chain cfg.model then chain else chain ++ (cfg.model ∷ [])

unfoldable pub get_main_chain : LlmConfig → List String
get_main_chain cfg = cfg.model ∷ cfg.model_fallbacks

pub data Failure : Type 0 where
  rate_limited : Option ℕ → Failure
  failed : String → Failure

-- what a call gives
pub data Tried (R : Type 0) : Type 0 where
  answered : R → Tried R
  raised : Failure → Tried R

pub record Provider (R W : Type 0) : Type 0 where
  pub time : W → ℕ
  pub pick_key : W → Option String × W
  pub penalize : Option String → W → W
  pub completion : String → ℕ → Option String → W → Tried R × W
  pub sleep : ℕ → W → W

-- the variables of the walk
pub record Walk (W : Type 0) : Type 0 where
  pub index : ℕ
  pub retried_same : List ℕ
  pub last_error : Option Failure
  pub world : W

-- a turn of the loop goes on, returns, or leaves the loop, after which the last error is raised;
-- without one, `raise None` is an error of its own
pub data Turn (R W : Type 0) : Type 0 where
  again : Walk W → Turn R W
  returns : R → W → Turn R W
  leaves : Option Failure → W → Turn R W

abbrev pub was_retried : ℕ → List ℕ → Bool
was_retried i seen = any (λ j. nat_eq j i) seen

-- the wait, if the reset is at most ten seconds away and the model was not retried yet
abbrev pub short_wait : ℕ → List ℕ → Option ℕ → Option ℕ
short_wait i seen none = none
short_wait i seen (some wait) =
    if ltb 0 wait && (leb wait 10 && not (was_retried i seen)) then some wait else none

module _ {R W : Type 0} (p : Provider R W) (timeout total_budget : ℕ) where
  abbrev pub next_model : Failure → W → Walk W → Walk W
  next_model f w walk = record walk { index = walk.index + 1; last_error = some f; world = w }

  -- what is done about an exception; `key` was used
  unfoldable pub recover : Option String → Failure → W → Walk W → Turn R W
  recover key (failed e) w walk = again (next_model (failed e) w walk)
  recover key (rate_limited reset) w walk =
      let benched = p.penalize key w in
      elim (short_wait walk.index walk.retried_same reset) [
        | none ↦ again (next_model (rate_limited reset) benched walk)
        | some wait ↦ again (record {
          index = walk.index;
          retried_same = walk.index ∷ walk.retried_same;
          last_error = some (rate_limited reset);
          world = p.sleep (min (wait + 1) 10) benched;
        })
      ]

  unfoldable pub attempt : String → ℕ → Walk W → Turn R W
  unfolding recover
  attempt model remaining walk =
      let (key, w) = p.pick_key walk.world in
      let (tried, w') = p.completion model remaining key w in
      elim tried [ answered r ↦ returns r w' | raised f ↦ recover key f w' walk ]

  -- a turn of `while i < len(models)`, begun at `start`
  unfoldable pub turn : List String → ℕ → Walk W → Turn R W
  unfolding attempt
  turn models start walk = elim (get_elem? models walk.index) [
    | none ↦ leaves walk.last_error walk.world
    | some model ↦
        let elapsed = p.time walk.world - start in
        let remaining = min timeout (total_budget - elapsed) in
        if ltb total_budget elapsed || ltb remaining 5
        then leaves walk.last_error walk.world
        else attempt model remaining walk
  ]

  -- at most `fuel` turns
  unfoldable pub loop : ℕ → List String → ℕ → Walk W → Option (Turn R W)
  unfolding turn
  loop zero models start walk = none
  loop (suc fuel) models start walk =
      let next = turn models start walk in
      elim next [
        | again walk' ↦ loop fuel models start walk'
        | returns r w ↦ some (returns r w)
        | leaves e w ↦ some (leaves e w)
      ]

  -- two turns for each model and one to leave
  unfoldable pub call_with_fallback : List String → W → Option (Turn R W)
  unfolding loop
  call_with_fallback models w =
      loop (2 * length models + 1) models (p.time w)
        (record { index = 0; retried_same = []; last_error = none; world = w })
