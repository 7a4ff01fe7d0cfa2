-- ===== src/Core/Engine/Calls.antt =====
-- How often an investigation of core/engine.py calls the language model.
use vishwakarma.Prelude.{
  ℕ, zero, suc, ◌+◌, ◌*◌, ◌≤◌, String, ◌≡◌, refl, ◌∙◌, inl, inr, Bool, true, false, not, Option,
  none, some, List, [], ◌∷◌, ◌++◌, map, arith, Equality, Option-cases, length, keep,
}
use vishwakarma.Core.Models.{PendingApproval, ApprovalDecision}
use vishwakarma.Core.Engine.Loop.{
  prepare, judge, close_step, answered, act, respond, step, synthesize, loop, with_decisions,
  investigate,
}
use vishwakarma.Prelude.Dict.{Dict}
use vishwakarma.Core.Conversation.{ToolCall, Message, Content, message, is_system, user, final_call}
use vishwakarma.Core.Compaction.{llm_compact, summary_step, shorten, compact_messages}
use vishwakarma.Core.Engine.Outputs.{
  Prompt, Executed, sections_of, large_outputs, compress_each, compress_large,
  compress_tool_outputs, capped, whole, batch,
}
use vishwakarma.Core.Engine.State.{
  Environment, Settings, Run, max_llm_retries, Outcome, StepResult, raised, returned, stop, go_on,
}
use vishwakarma.Core.Engine.Steps.{complete_with_retries, run_tools, compress_executed}

-- `count` reads the number of calls of `complete` off the world: a call adds one, and the tools and
-- the summaries add none.
pub record Counts {P W : Type 0} (env : Environment P W) (count : W → ℕ) : Type 0 where
  pub on_complete :
      (ms : List (Message P)) (tools : Bool) (w : W)
      → count (env.complete ms tools w).1 ≡ count w + 1
  pub on_execute : (name : String) (p : P) (w : W) → count (env.execute name p w).1 ≡ count w
  pub on_summarize : (q : Prompt) (w : W) → count (env.summarize q w).1 ≡ count w
  pub on_summary : (ms : List (Message P)) (w : W) → count (env.write_summary ms w).1 ≡ count w

module _ {P W : Type 0} where
  -- the world when a run ends, and after a step
  abbrev pub outcome_world : Outcome P W → W
  outcome_world (raised w) = w
  outcome_world (returned r w) = w

  abbrev step_world : StepResult P W → W
  step_world (stop o) = outcome_world o
  step_world (go_on run) = run.world

module _ {P W : Type 0} (env : Environment P W) (count : W → ℕ) (c : Counts env count) where
  retries-count :
      (n : ℕ) (ms : List (Message P)) (w : W)
      → count (complete_with_retries env n ms w).1 ≤ count w + n
  unfolding complete_with_retries
  retries-count zero ms w = omega arith
  retries-count (suc n) ms w =
      let (response, w') = env.complete ms true w in
      ground (arith, c.on_complete ms true w, retries-count n ms w')

  run_tools-count :
      (calls : List (ToolCall P)) (ex : Executed P) (blocked : Dict (Option Content)) (w : W)
      → count (run_tools env calls ex blocked w).1 ≡ count w
  unfolding run_tools
  run_tools-count [] ex blocked w = refl
  run_tools-count (tc ∷ calls) ex blocked w =
      run_tools-count calls _ _ (env.execute tc.name tc.params w).1
      ∙ c.on_execute tc.name tc.params w

  compress_each-count :
      (large : List (String × (String × Content))) (ex : Executed P) (w : W)
      → count (compress_each env.chars env.summarize env.parse large ex w).1 ≡ count w
  unfolding compress_each
  compress_each-count [] ex w = refl
  compress_each-count ((cid, (name, content)) ∷ large) ex w =
      compress_each-count large _ (env.summarize (whole name content) w).1
      ∙ c.on_summarize (whole name content) w

  pub compress_large-count :
      (large : List (String × (String × Content))) (ex : Executed P) (w : W)
      → count (compress_large env.chars env.summarize env.parse large ex w).1 ≡ count w
  unfolding compress_large
  compress_large-count [] ex w = refl
  compress_large-count ((cid, (name, content)) ∷ []) ex w = c.on_summarize (capped name content) w
  compress_large-count (l ∷ l' ∷ large) ex w =
      let all_large = l ∷ l' ∷ large in
      let (answer, w') = env.summarize (batch (map (λ x. x.1) all_large)) w in
      let summed = c.on_summarize (batch (map (λ x. x.1) all_large)) w in
      elim (Option-cases (sections_of env.parse answer (length all_large))) [
        | inl failed ↦ ground (arith, failed, summed, compress_each-count all_large ex w')
        | inr (sections, e) ↦ ground (arith, e, summed)
      ]

  compress_executed-count :
      (calls : List (ToolCall P)) (ex : Executed P) (w : W)
      → count (compress_executed env calls ex w).1 ≡ count w
  unfolding compress_executed compress_tool_outputs
  compress_executed-count [] ex w = refl
  compress_executed-count (tc ∷ calls) ex w =
      compress_large-count (large_outputs env.chars env.summarize env.parse ex) ex w

  summary_step-count :
      (llm : Option String) (ms : List (Message P)) (w : W)
      → count (summary_step env.write_summary env.litellm_count env.chars llm ms w).1 ≡ count w
  unfolding summary_step llm_compact
  summary_step-count none ms w = refl
  summary_step-count (some model) ms w = c.on_summary (keep (λ m. not (is_system m.role)) ms) w

  compact-count :
      (llm : Option String) (ms : List (Message P)) (windows : Dict ℕ) (w : W)
      → count
          (compact_messages env.write_summary env.litellm_count env.chars env.model_info llm ms
            windows w).1.1
        ≡ count w
  unfolding compact_messages shorten
  compact-count llm [] windows w = refl
  compact-count llm (m ∷ ms) windows w = ground (arith, summary_step-count llm (m ∷ ms) w)

  module _ ⦃e : Equality P⦄ (s : Settings P) where
    pub prepare-count :
        (n : ℕ) (run : Run P W) → count (prepare env s n run).world ≡ count run.world
    unfolding prepare
    prepare-count n run = compact-count (some env.model) _ run.windows run.world

    close_step-world :
        (steps : ℕ) (run : Run P W) (pending : List (PendingApproval P))
        → step_world (close_step env s steps run pending) ≡ run.world
    unfolding close_step
    close_step-world steps run [] = refl
    close_step-world steps run (p ∷ ps) = refl

    act-count :
        (steps : ℕ) (run : Run P W) (content : String) (calls : List (ToolCall P))
        → count (step_world (act env s steps run content calls)) ≡ count run.world
    unfolding act answered
    act-count steps run content calls =
        let desk = judge env s run calls in
        let ((executed, blocked), w) = run_tools env desk.to_execute [] desk.blocked run.world in
        let (compressed, w') = compress_executed env desk.to_execute executed w in
        let ran = run_tools-count desk.to_execute [] desk.blocked run.world in
        let shrunk = compress_executed-count desk.to_execute executed w in
        elim (Option-cases compressed) [
          | inl failed ↦ ground (arith, failed, ran, shrunk)
          | inr (done, e) ↦ ground (
            arith,
            e,
            ran,
            shrunk,
            close_step-world steps (answered env s run content calls desk done blocked w')
                desk.pending,
          )
        ]

    respond-count :
        (steps : ℕ) (run : Run P W) (content : String) (calls : List (ToolCall P))
        → count (step_world (respond env s steps run content calls)) ≡ count run.world
    unfolding respond
    respond-count steps run content [] = refl
    respond-count steps run content (tc ∷ calls) = act-count steps run content (tc ∷ calls)

    step-count :
        (n : ℕ) (run : Run P W)
        → count (step_world (step env s n run)) ≤ count run.world + max_llm_retries
    unfolding step
    step-count n run =
        let ready = prepare env s n run in
        let (response, w) = complete_with_retries env max_llm_retries ready.messages ready.world in
        let tried = retries-count max_llm_retries ready.messages ready.world in
        elim (Option-cases response) [
          | inl failed ↦ ground (arith, failed, tried, prepare-count n run)
          | inr (r, e) ↦ ground (
            arith,
            e,
            tried,
            prepare-count n run,
            respond-count (n + 1) (record ready { world = w }) r.content r.tool_calls,
          )
        ]

    loop_on-count :
        (remaining n before : ℕ) (r : StepResult P W)
        → count (step_world r) ≤ before + max_llm_retries
        → ((run : Run P W)
            → count (outcome_world (loop env s remaining (n + 1) run))
              ≤ count run.world + max_llm_retries * remaining + 1)
        → count
            (outcome_world (elim r [ stop o ↦ o | go_on run' ↦ loop env s remaining (n + 1) run' ]))
          ≤ before + max_llm_retries * suc remaining + 1
    loop_on-count remaining n before (stop o) h ih = ground arith
    loop_on-count remaining n before (go_on run) h ih = ground (arith, ih run)

    loop-count :
        (remaining n : ℕ) (run : Run P W)
        → count (outcome_world (loop env s remaining n run))
          ≤ count run.world + max_llm_retries * remaining + 1
    unfolding loop synthesize
    loop-count zero n run = ground (
      arith,
      c.on_complete (run.messages ++ (message user (final_call s.max_steps) ∷ [])) false run.world,
    )
    loop-count (suc remaining) n run =
        loop_on-count remaining n (count run.world) (step env s n run) (step-count n run)
          (loop-count remaining (n + 1))

-- An investigation calls the model at most three times a step and once more, however the model
-- and the tools behave.
pub investigate-count :
    {P W : Type 0}
    → ⦃e : Equality P⦄
    → (env : Environment P W) (count : W → ℕ) (c : Counts env count) (s : Settings P)
      (messages : List (Message P)) (findings : Option String) (decisions : List ApprovalDecision)
      (windows : Dict ℕ) (w : W)
    → count (outcome_world (investigate env s messages findings decisions windows w))
      ≤ count w + 3 * s.max_steps + 1
unfolding investigate
investigate-count env count c s messages findings decisions windows w =
    loop-count env count c (with_decisions decisions s) s.max_steps 0 _
