-- ===== src/Core/Engine/Stream/Denied.antt =====
-- The commands that the streaming loop of core/engine.py runs under the policy that denies them.
use vishwakarma.Prelude.{
  ℕ, zero, suc, ◌+◌, String, ◌≡◌, refl, sym, subst, Bool, true, not, ◌&&◌, Option, none, some, List,
  [], ◌∷◌, ◌++◌, arith, Equality, all,
}
use vishwakarma.Prelude.Dict.{Dict}
use vishwakarma.Core.Models.{ToolOutput, ApprovalDecision}
use vishwakarma.Core.Conversation.{ToolCall, Message, Content}
use vishwakarma.Core.Engine.Checks.{is_bash}
use vishwakarma.Core.Engine.State.{Environment, Settings, max_llm_retries, raised, stop, go_on}
use vishwakarma.Core.Engine.Loop.{with_decisions}
use vishwakarma.Core.Engine.Outputs.{Executed}
use vishwakarma.Core.Engine.Stream.Chunks.{
  Source, Stage, Event, decide_tool, check_bash, check_tool, check_tool_allowed, dispatch, rule,
  admit, read_chunks, cleared, after_error, stream_with_retries, dispatch_rest, forwarded,
  tool_call_start, compaction, llm_error, directing,
}
use vishwakarma.Core.Engine.Stream.Kept.{
  Kept, if-holds, ok-holds, option-holds, list-holds, step-holds, read_chunks-holds,
  dispatch_rest-holds,
}
use vishwakarma.Core.Engine.Stream.Rounds.{
  StreamRun, StreamOutcome, StreamStep, checkpoint, ask_aborted, stage_of, leave, conclude,
  compress_results, close_round, gather, act, respond, make_ready, ask_model, stream_step,
  stream_loop, stream_investigate, raised, ended, stop, go_on,
}
use vishwakarma.Core.Engine.Stream.Gather.{Gathered, collect}

module _ {P : Type 0} where
  -- no tool of the commands is started
  abbrev pub is_quiet : Event P → Bool
  is_quiet (tool_call_start overlap name params) = not (is_bash name)
  is_quiet _ = true

  abbrev pub Quiet : List (Event P) → Type 0
  Quiet events = all is_quiet events ≡ true

  all-append :
      (p : Event P → Bool) (xs ys : List (Event P)) → all p (xs ++ ys) ≡ all p xs && all p ys
  all-append p [] ys = refl
  all-append p (x ∷ xs) ys = ground (arith, all-append p xs ys)

  more-Quiet :
      (events : List (Event P)) (e : Event P)
      → is_quiet e ≡ true
      → Quiet events
      → Quiet (events ++ (e ∷ []))
  more-Quiet events e q h = ground (arith, all-append is_quiet events (e ∷ []))

module _ {P W : Type 0} where
  abbrev pub outcome_events : StreamOutcome P W → List (Event P)
  outcome_events (raised r) = r.events
  outcome_events (ended how r) = r.events

  abbrev pub step_events : StreamStep P W → List (Event P)
  step_events (stop o) = outcome_events o
  step_events (go_on r) = r.events

module _ {P W : Type 0} ⦃e : Equality P⦄ (env : Environment P W) (source : Source P W)
    (s : Settings P) (deny : s.policy.bash_always_deny ≡ true) where
  module _ (outputs : List (ToolOutput P)) where
    admit-Quiet :
        (overlap : Bool) (tc : ToolCall P) (stage : Stage P W)
        → Quiet stage.events
        → Quiet (admit env source s outputs overlap tc stage).events
    unfolding admit check_tool_allowed rule dispatch check_bash check_tool decide_tool
    admit-Quiet overlap tc stage h =
        ground (arith, more-Quiet stage.events (tool_call_start overlap tc.name tc.params))

    events_kept : Kept env source s outputs (λ stage. Quiet stage.events)
    events_kept = record {
      on_admit = admit-Quiet;
      on_chunk = λ chunk content calls stage h. more-Quiet stage.events (forwarded chunk) refl h;
    }

    retries-Quiet :
        (n : ℕ) (ms : List (Message P)) (stage : Stage P W)
        → Quiet stage.events
        → Quiet (stream_with_retries env source s outputs n ms stage).1.events
    unfolding stream_with_retries after_error
    retries-Quiet zero ms stage h = h
    retries-Quiet (suc n) ms stage h =
        let ((chunks, ok), w) = source.stream ms stage.world in
        let read = read_chunks env source s outputs chunks (cleared env source s outputs w stage) in
        let q =
          read_chunks-holds env source s outputs _ events_kept chunks
            (cleared env source s outputs w stage) h in
        ok-holds {A = Bool × Stage P W} (λ r. Quiet r.1.events) ok _ _ (λ _. q)
          (λ _. retries-Quiet n ms _ (more-Quiet read.events llm_error refl q))

  collect-Quiet :
      (futures : Dict (Option (ToolOutput P))) (g : Gathered P)
      → Quiet g.events
      → Quiet (collect futures g).events
  unfolding collect
  collect-Quiet [] g h = h
  collect-Quiet ((id, none) ∷ futures) g h = collect-Quiet futures _ h
  collect-Quiet ((id, some o) ∷ futures) g h =
      collect-Quiet futures _ (more-Quiet g.events _ refl h)

  module _ (incident : String) where
    checkpoint-events :
        (n : ℕ) (r : StreamRun P W) → (checkpoint env source s incident n r).events ≡ r.events
    unfolding checkpoint
    checkpoint-events n r = ground arith

    conclude-Quiet :
        (n : ℕ) (r : StreamRun P W) (content : String)
        → Quiet r.events
        → Quiet (step_events (conclude env source s incident n r content))
    unfolding conclude
    conclude-Quiet n r content h =
        ground (arith, more-Quiet r.events directing, checkpoint-events n)

    gather-Quiet :
        (stage : Stage P W) → Quiet stage.events → Quiet (gather env source s incident stage).events
    unfolding gather
    gather-Quiet stage h = collect-Quiet stage.futures _ h

    close_round-events :
        (n : ℕ) (r : StreamRun P W) (content : String) (calls : List (ToolCall P))
        (blocked : Dict Content) (results : Executed P)
        → (close_round env source s incident n r content calls blocked results).events ≡ r.events
    unfolding close_round
    close_round-events n r content calls blocked results = checkpoint-events n _

    act-Quiet :
        (n : ℕ) (r : StreamRun P W) (stage : Stage P W)
        → Quiet stage.events
        → Quiet (step_events (act env source s incident n r stage))
    unfolding act
    act-Quiet n r streamed h =
        let stage =
          dispatch_rest env source s r.run.outputs streamed.blocked streamed.calls streamed in
        let g = gather env source s incident stage in
        let q = gather-Quiet stage (
          dispatch_rest-holds env source s r.run.outputs _ (events_kept r.run.outputs)
            streamed.blocked streamed.calls streamed h) in
        let (compressed, w) = compress_results env source s incident g.results stage.world in
        option-holds (λ (o : StreamStep P W). Quiet (step_events o)) compressed _ _ q
          (λ results.
            subst Quiet
              (sym (close_round-events n _ streamed.content streamed.calls g.blocked results)) q)

    respond-Quiet :
        (n : ℕ) (r : StreamRun P W) (stage : Stage P W)
        → Quiet stage.events
        → Quiet (step_events (respond env source s incident n r stage))
    unfolding respond
    respond-Quiet n r stage h =
        list-holds (λ (o : StreamStep P W). Quiet (step_events o)) stage.calls _ _
          (conclude-Quiet n (leave env source s incident stage r) stage.content h)
          (act-Quiet n r stage h)

    ask_model-Quiet :
        (n : ℕ) (r : StreamRun P W)
        → Quiet r.events
        → Quiet (step_events (ask_model env source s incident n r))
    unfolding ask_model
    ask_model-Quiet n r h =
        let (ok, stage) =
          stream_with_retries env source s r.run.outputs max_llm_retries r.run.messages
            (stage_of env source s incident r) in
        let q =
          retries-Quiet r.run.outputs max_llm_retries r.run.messages
            (stage_of env source s incident r) h in
        ok-holds (λ (o : StreamStep P W). Quiet (step_events o)) ok _ _
          (λ _. respond-Quiet n r stage q) (λ _. q)

    make_ready-Quiet :
        (n : ℕ) (r : StreamRun P W)
        → Quiet r.events
        → Quiet (make_ready env source s incident n r).events
    unfolding make_ready
    make_ready-Quiet n r h = ground (arith, more-Quiet r.events (compaction n))

    ask_aborted-events :
        (r : StreamRun P W) → (ask_aborted env source s incident r).1.events ≡ r.events
    unfolding ask_aborted
    ask_aborted-events r = ground arith

    stream_step-Quiet :
        (n : ℕ) (r : StreamRun P W)
        → Quiet r.events
        → Quiet (step_events (stream_step env source s incident n r))
    unfolding stream_step
    stream_step-Quiet n r h =
        let (aborted, asked) = ask_aborted env source s incident r in
        let q : Quiet asked.events = rw ask_aborted-events h in
        if-holds (λ (o : StreamStep P W). Quiet (step_events o)) aborted _ _
          (rw checkpoint-events q) (ask_model-Quiet (n + 1) _ (make_ready-Quiet n asked q))

    stream_loop-Quiet :
        (remaining n : ℕ) (r : StreamRun P W)
        → Quiet r.events
        → Quiet (outcome_events (stream_loop env source s incident remaining n r))
    unfolding stream_loop
    stream_loop-Quiet zero n r h = h
    stream_loop-Quiet (suc remaining) n r h =
        step-holds (λ (o : StreamOutcome P W). Quiet (outcome_events o))
          (stream_step env source s incident n r) _
          (λ o e.
            subst (λ (st : StreamStep P W). Quiet (step_events st)) e (stream_step-Quiet n r h))
          (λ r' e.
            stream_loop-Quiet remaining (n + 1) r'
              (subst (λ (st : StreamStep P W). Quiet (step_events st)) e (stream_step-Quiet n r h)))

-- Under the policy that denies commands a streamed investigation starts no command tool, neither
-- while the model still writes nor after, however it ends and whatever the user approved.
pub stream_investigate-Quiet :
    {P W : Type 0}
    → ⦃e : Equality P⦄ → (env : Environment P W) (source : Source P W) (s : Settings P)
    → s.policy.bash_always_deny ≡ true
    → (incident : String) (resume built : List (Message P)) (findings : Option String)
      (decisions : List ApprovalDecision) (windows : Dict ℕ) (w : W)
    → Quiet (
        outcome_events
          (stream_investigate env source s incident resume built findings decisions windows w))
unfolding stream_investigate
stream_investigate-Quiet env source s deny incident resume built findings decisions windows w =
    stream_loop-Quiet env source (with_decisions decisions s) deny incident s.max_steps 0 _ refl
