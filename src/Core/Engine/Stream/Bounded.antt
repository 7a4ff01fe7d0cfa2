-- ===== src/Core/Engine/Stream/Bounded.antt =====
-- How many streams of the language model a streamed investigation of core/engine.py opens.
use vishwakarma.Prelude.{
  ℕ, zero, suc, ◌+◌, ◌*◌, ◌≤◌, String, ◌≡◌, refl, sym, ap, subst, ◌∙◌, Bool, Option, List, [], ◌∷◌,
  arith, Equality,
}
use vishwakarma.Prelude.Dict.{Dict}
use vishwakarma.Core.Models.{ToolOutput, ApprovalDecision}
use vishwakarma.Core.Conversation.{ToolCall, Message, message, assistant, text}
use vishwakarma.Core.Engine.Calls.{Counts, prepare-count, compress_large-count}
use vishwakarma.Core.Engine.Loop.{with_decisions}
use vishwakarma.Core.Engine.Outputs.{Executed, compress_tool_outputs, large_outputs}
use vishwakarma.Core.Engine.State.{Environment, Settings, max_llm_retries}
use vishwakarma.Core.Engine.Stream.Chunks.{
  Source, Stage, decide_bash, decide_tool, check_bash, check_tool, check_tool_allowed, dispatch,
  rule, admit, read_chunks, cleared, after_error, stream_with_retries, dispatch_rest,
}
use vishwakarma.Core.Engine.Stream.Kept.{
  Kept, if-holds, ok-holds, option-holds, list-holds, step-holds, read_chunks-holds,
  dispatch_rest-holds,
}
use vishwakarma.Core.Engine.Stream.Rounds.{
  StreamRun, StreamOutcome, StreamStep, checkpoint, ask_aborted, say, stage_of, leave, conclude,
  compress_results, close_round, gather, act, respond, make_ready, ask_model, stream_step,
  stream_loop, stream_investigate, raised, ended, stop, go_on,
}

-- `count` reads off the world how many streams were opened, which `Counts` says that tools and summaries
-- do not do; a stream is one however many models it tries
pub record Streams {P W : Type 0} (source : Source P W) (count : W → ℕ) : Type 0 where
  pub on_stream : (ms : List (Message P)) (w : W) → count (source.stream ms w).1 ≡ count w + 1
  pub on_save :
      (id : String) (ms : List (Message P)) (n : ℕ) (w : W)
      → count (source.save id ms n w) ≡ count w
  pub on_aborted : (id : String) (w : W) → count (source.is_aborted id w).1 ≡ count w

module _ {P W : Type 0} where
  -- the world when a run ends, and after a step
  abbrev pub ended_world : StreamOutcome P W → W
  ended_world (raised r) = r.run.world
  ended_world (ended how r) = r.run.world

  abbrev left_world : StreamStep P W → W
  left_world (stop o) = ended_world o
  left_world (go_on r) = r.run.world

module _ {P W : Type 0} ⦃e : Equality P⦄ (env : Environment P W) (source : Source P W)
    (count : W → ℕ) (c : Counts env count) (d : Streams source count) (s : Settings P) where
  module _ (outputs : List (ToolOutput P)) where
    admit-count :
        (overlap : Bool) (tc : ToolCall P) (stage : Stage P W)
        → count (admit env source s outputs overlap tc stage).world ≡ count stage.world
    unfolding admit check_tool_allowed rule dispatch check_bash check_tool decide_bash decide_tool
    admit-count overlap tc stage = ground (arith, c.on_execute tc.name tc.params stage.world)

    count_kept : (n : ℕ) → Kept env source s outputs (λ stage. count stage.world ≡ n)
    count_kept n = record {
      on_admit = λ overlap tc stage h. admit-count overlap tc stage ∙ h;
      on_chunk = λ chunk content calls stage h. h;
    }

    retries-count :
        (n : ℕ) (ms : List (Message P)) (stage : Stage P W)
        → count (stream_with_retries env source s outputs n ms stage).1.world
          ≤ count stage.world + n
    unfolding stream_with_retries after_error
    retries-count zero ms stage = omega arith
    retries-count (suc n) ms stage =
        let ((chunks, ok), w) = source.stream ms stage.world in
        let read = read_chunks env source s outputs chunks (cleared env source s outputs w stage) in
        let q : count read.world ≡ count stage.world + 1 =
          read_chunks-holds env source s outputs _ (count_kept (count stage.world + 1)) chunks
            (cleared env source s outputs w stage) (d.on_stream ms stage.world) in
        ok-holds {A = Bool × Stage P W} (λ r. count r.1.world ≤ count stage.world + suc n) ok _ _
          (λ _. omega (arith, q))
          (λ _.
            let ih = retries-count n ms (after_error env source s outputs read) in
            omega (arith, q, ih))

  module _ (incident : String) where
    checkpoint-count :
        (n : ℕ) (r : StreamRun P W)
        → count (checkpoint env source s incident n r).run.world ≡ count r.run.world
    unfolding checkpoint
    checkpoint-count n r = ground (arith, d.on_save incident r.run.messages n r.run.world)

    ask_aborted-count :
        (r : StreamRun P W)
        → count (ask_aborted env source s incident r).1.run.world ≡ count r.run.world
    unfolding ask_aborted
    ask_aborted-count r = ground (arith, d.on_aborted incident r.run.world)

    conclude-count :
        (n : ℕ) (r : StreamRun P W) (content : String)
        → count (left_world (conclude env source s incident n r content)) ≡ count r.run.world
    unfolding conclude
    conclude-count n r content = ground (
      arith,
      checkpoint-count n (say env source s incident (message assistant (text content) ∷ []) r),
    )

    compress_results-count :
        (results : Executed P) (w : W)
        → count (compress_results env source s incident results w).1 ≡ count w
    unfolding compress_results compress_tool_outputs
    compress_results-count [] w = refl
    compress_results-count (x ∷ xs) w =
        compress_large-count env count c (large_outputs env.chars env.summarize env.parse (x ∷ xs))
          (x ∷ xs) w

    act-count :
        (n : ℕ) (r : StreamRun P W) (stage : Stage P W)
        → count (left_world (act env source s incident n r stage)) ≡ count stage.world
    unfolding act close_round
    act-count n r streamed =
        let stage =
          dispatch_rest env source s r.run.outputs streamed.blocked streamed.calls streamed in
        let q : count stage.world ≡ count streamed.world =
          dispatch_rest-holds env source s r.run.outputs _
            (count_kept r.run.outputs (count streamed.world)) streamed.blocked streamed.calls
            streamed refl in
        let g = gather env source s incident stage in
        let (compressed, w) = compress_results env source s incident g.results stage.world in
        let shrunk = compress_results-count g.results stage.world ∙ q in
        option-holds (λ (o : StreamStep P W). count (left_world o) ≡ count streamed.world)
          compressed _ _ shrunk (λ results. checkpoint-count n _ ∙ shrunk)

    respond-count :
        (n : ℕ) (r : StreamRun P W) (stage : Stage P W)
        → count (left_world (respond env source s incident n r stage)) ≡ count stage.world
    unfolding respond
    respond-count n r stage =
        list-holds (λ (o : StreamStep P W). count (left_world o) ≡ count stage.world) stage.calls _
          _ (conclude-count n (leave env source s incident stage r) stage.content)
          (act-count n r stage)

    ask_model-count :
        (n : ℕ) (r : StreamRun P W)
        → count (left_world (ask_model env source s incident n r))
          ≤ count r.run.world + max_llm_retries
    unfolding ask_model
    ask_model-count n r =
        let start = stage_of env source s incident r in
        let (ok, stage) =
          stream_with_retries env source s r.run.outputs max_llm_retries r.run.messages start in
        let q = retries-count r.run.outputs max_llm_retries r.run.messages start in
        ok-holds
          (λ (o : StreamStep P W). count (left_world o) ≤ count r.run.world + max_llm_retries) ok _
          _
          (λ _.
            subst (λ k. k ≤ count r.run.world + max_llm_retries) (sym (respond-count n r stage)) q)
          (λ _. q)

    make_ready-count :
        (n : ℕ) (r : StreamRun P W)
        → count (make_ready env source s incident n r).run.world ≡ count r.run.world
    unfolding make_ready
    make_ready-count n r = prepare-count env count c s n r.run

    stream_step-count :
        (n : ℕ) (r : StreamRun P W)
        → count (left_world (stream_step env source s incident n r))
          ≤ count r.run.world + max_llm_retries
    unfolding stream_step
    stream_step-count n r =
        let (aborted, asked) = ask_aborted env source s incident r in
        let same = ask_aborted-count r in
        let ready = make_ready env source s incident n asked in
        if-holds
          (λ (o : StreamStep P W). count (left_world o) ≤ count r.run.world + max_llm_retries)
          aborted _ _ (omega (arith, same, checkpoint-count (n + 1) asked))
          (omega (arith, same, make_ready-count n asked, ask_model-count (n + 1) ready))

    stream_loop-count :
        (remaining n : ℕ) (r : StreamRun P W)
        → count (ended_world (stream_loop env source s incident remaining n r))
          ≤ count r.run.world + max_llm_retries * remaining
    unfolding stream_loop
    stream_loop-count zero n r = omega arith
    stream_loop-count (suc remaining) n r =
        let st = stream_step env source s incident n r in
        let q = stream_step-count n r in
        step-holds
          (λ (o : StreamOutcome P W).
            count (ended_world o) ≤ count r.run.world + max_llm_retries * suc remaining)
          st _
          (λ o h.
            let world = ap (λ (x : StreamStep P W). count (left_world x)) h in
            omega (arith, q, world))
          (λ r' h.
            let world = ap (λ (x : StreamStep P W). count (left_world x)) h in
            let ih = stream_loop-count remaining (n + 1) r' in omega (arith, q, world, ih))

-- A streamed investigation opens in all at most three streams of the model for each step that it may
-- take, whatever they bring and the user decides. A stream counts once, however many models of a chain
-- it tries; the calls for summaries and for compaction do not count, and no tool may open one.
pub stream_investigate-count :
    {P W : Type 0}
    → ⦃e : Equality P⦄ → (env : Environment P W) (source : Source P W) (count : W → ℕ)
    → Counts env count
    → Streams source count
    → (s : Settings P) (incident : String) (resume built : List (Message P))
      (findings : Option String) (decisions : List ApprovalDecision) (windows : Dict ℕ) (w : W)
    → count (
        ended_world
          (stream_investigate env source s incident resume built findings decisions windows w))
      ≤ count w + 3 * s.max_steps
unfolding stream_investigate
stream_investigate-count env source count c d s incident resume built findings decisions windows w =
    stream_loop-count env source count c d (with_decisions decisions s) incident s.max_steps 0 _
