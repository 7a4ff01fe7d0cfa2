-- ===== src/Core/Llm/Tests.antt =====
-- Tests of the chains of models, and an instance of their theorem.
use vishwakarma.Prelude.{ℕ, ◌+◌, ◌≡◌, refl, true, none, some, [], ◌∷◌, ltb, if◌then◌else◌, is_some}
use vishwakarma.Core.Llm.{
  Provider, get_fast_chain, recover, attempt, turn, loop, call_with_fallback, rate_limited,
  answered, raised, returns, leaves,
}
use vishwakarma.Core.Llm.Ends.{call_with_fallback-ends}

-- the world counts the calls: the first two are rate limited for three seconds, the third answers
abbrev limited : Provider ℕ ℕ
limited = record {
  time = λ w. w;
  pick_key = λ w. (some "k", w);
  penalize = λ key w. w;
  completion = λ model timeout key w.
      ((if ltb w 2 then raised (rate_limited (some 3)) else answered w), w + 1);
  sleep = λ n w. w;
}

-- the first model is tried twice, then the second
tried : call_with_fallback limited 30 60 ("a" ∷ "b" ∷ []) 0 ≡ some (returns 2 3)
unfolding call_with_fallback loop turn attempt recover
tried = refl

-- with a budget below five seconds nothing is called, and there is no error to raise
no_time : call_with_fallback limited 30 4 ("a" ∷ "b" ∷ []) 0 ≡ some (leaves none 0)
unfolding call_with_fallback loop turn attempt recover
no_time = refl

fast :
    get_fast_chain (record {
      model = "big";
      fast_model = some "small";
      fast_fallbacks = "small" ∷ "mid" ∷ [];
      model_fallbacks = [];
    })
    ≡ "small" ∷ "mid" ∷ "big" ∷ []
unfolding get_fast_chain
fast = refl

call_with_fallback-ends_example :
    is_some (call_with_fallback limited 30 60 ("a" ∷ "b" ∷ []) 0) ≡ true
call_with_fallback-ends_example = call_with_fallback-ends limited 30 60 ("a" ∷ "b" ∷ []) 0
