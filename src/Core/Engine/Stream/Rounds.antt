-- ===== src/Core/Engine/Stream/Rounds.antt =====
-- core/engine.py, `stream_investigate`: the steps, from the messages that it starts with on. The
-- checkpoint of a step writes the conversation to the table of investigations.
use vishwakarma.Prelude.{
  ℕ, zero, suc, ◌+◌, String, Bool, true, false, Option, none, some, List, [], ◌∷◌, ◌++◌, str_eq,
  Equality, ltb, if◌then◌else◌,
}
use vishwakarma.Prelude.Dict.{Dict}
use vishwakarma.Core.Models.{ApprovalDecision}
use vishwakarma.Core.Safeguards.{max_identical_calls, new_guard}
use vishwakarma.Core.Conversation.{
  ToolCall, Message, Content, message, user, assistant, text, no_tools_yet,
}
use vishwakarma.Core.Engine.Checks.{remembered_prefixes}
use vishwakarma.Core.Engine.Outputs.{Executed, compress_tool_outputs}
use vishwakarma.Core.Engine.State.{Environment, Settings, Run, max_llm_retries}
use vishwakarma.Core.Engine.Steps.{asking}
use vishwakarma.Core.Engine.Loop.{prepare, with_decisions}
use vishwakarma.Core.Engine.Stream.Chunks.{
  Source, Stage, Event, stream_with_retries, dispatch_rest, compaction, directing,
}
use vishwakarma.Core.Engine.Stream.Gather.{Gathered, collect, stream_replies}

pub record StreamRun (P W : Type 0) : Type 0 where
  pub run : Run P W
  pub nudged : Bool
  pub events : List (Event P)

-- the last event of a run
pub data Ending : Type 0 where
  aborted_by_user failed_after_retries : Ending
  concluded : String → Ending
  max_steps_reached : ℕ → Ending

pub data StreamOutcome (P W : Type 0) : Type 0 where
  raised : StreamRun P W → StreamOutcome P W
  ended : Ending → StreamRun P W → StreamOutcome P W

pub data StreamStep (P W : Type 0) : Type 0 where
  stop : StreamOutcome P W → StreamStep P W
  go_on : StreamRun P W → StreamStep P W

module _ {P W : Type 0} ⦃e : Equality P⦄ (env : Environment P W) (source : Source P W)
    (s : Settings P) (incident : String) where
  -- `_checkpoint`
  unfoldable pub checkpoint : ℕ → StreamRun P W → StreamRun P W
  checkpoint steps r = if str_eq incident "" then r else record r {
    run = record r.run { world = source.save incident r.run.messages steps r.run.world };
  }

  -- the question of the step boundary, which has no answer without an incident
  unfoldable pub ask_aborted : StreamRun P W → Bool × StreamRun P W
  ask_aborted r =
      let (answer, w) = source.is_aborted incident r.run.world in
      if str_eq incident ""
      then (false, r)
      else (answer, record r { run = record r.run { world = w } })

  abbrev pub say : List (Message P) → StreamRun P W → StreamRun P W
  say ms r = record r { run = record r.run { messages = r.run.messages ++ ms } }

  -- the stage of a step, before its attempts
  abbrev pub stage_of : StreamRun P W → Stage P W
  stage_of r = record {
    guard = r.run.guard;
    prefixes = r.run.prefixes;
    futures = [];
    blocked = [];
    content = "";
    calls = [];
    events = r.events;
    world = r.run.world;
  }

  -- the run with what the stage changed
  abbrev pub leave : Stage P W → StreamRun P W → StreamRun P W
  leave stage r = record r {
    run = record r.run { guard = stage.guard; prefixes = stage.prefixes; world = stage.world };
    events = stage.events;
  }

  -- an answer without tool calls: one is refused while no tool has run
  unfoldable pub conclude : ℕ → StreamRun P W → String → StreamStep P W
  unfolding checkpoint
  conclude steps r content =
      let done = stop (
        ended (concluded content)
          (checkpoint steps (say (message assistant (text content) ∷ []) r))) in
      elim r.run.outputs [
        | [] ↦
            if r.nudged
            then done
            else go_on
                (record (say (message assistant (text content) ∷ message user no_tools_yet ∷ [])
                  r) { nudged = true; events = r.events ++ (directing ∷ []) })
        | o ∷ os ↦ done
      ]

  -- the outputs are compressed if any tool returned
  unfoldable pub compress_results : Executed P → W → Option (Executed P) × W
  unfolding compress_tool_outputs
  compress_results [] w = (some [], w)
  compress_results (r ∷ results) w =
      compress_tool_outputs env.chars env.summarize env.parse (r ∷ results) w

  -- the assistant's turn, the replies and the checkpoint of a step
  unfoldable pub close_round :
      ℕ → StreamRun P W → String → List (ToolCall P) → Dict Content → Executed P → StreamRun P W
  unfolding checkpoint stream_replies
  close_round steps r content calls blocked results =
      checkpoint steps (say (asking content calls ∷ stream_replies blocked results calls) r)

  unfoldable pub gather : Stage P W → Gathered P
  unfolding collect
  gather stage =
      collect stage.futures
        (record { results = []; blocked = stage.blocked; outputs = []; events = stage.events })

  -- the run with what the tools of the step gave
  abbrev pub gathered : StreamRun P W → Gathered P → W → StreamRun P W
  gathered r g w = record r {
    run = record r.run { outputs = r.run.outputs ++ g.outputs; world = w };
    events = g.events;
  }

  -- an answer with tool calls
  unfoldable pub act : ℕ → StreamRun P W → Stage P W → StreamStep P W
  unfolding dispatch_rest gather compress_results close_round
  act steps r streamed =
      let stage =
        dispatch_rest env source s r.run.outputs streamed.blocked streamed.calls streamed in
      let g = gather stage in
      let (compressed, w) = compress_results g.results stage.world in
      let left = gathered (leave stage r) g w in
      elim compressed [
        | none ↦ stop (raised left)
        | some results ↦
            go_on (close_round steps left streamed.content streamed.calls g.blocked results)
      ]

  unfoldable pub respond : ℕ → StreamRun P W → Stage P W → StreamStep P W
  unfolding conclude act
  respond steps r stage = elim stage.calls [
    | [] ↦ conclude steps (leave stage r) stage.content
    | tc ∷ calls ↦ act steps r stage
  ]

  -- the verification prompt and the compaction
  unfoldable pub make_ready : ℕ → StreamRun P W → StreamRun P W
  make_ready n r =
      let ready = prepare env s n r.run in
      record r {
        run = ready;
        events =
            if ltb r.run.compactions ready.compactions
            then r.events ++ (compaction n ∷ [])
            else r.events;
      }

  unfoldable pub ask_model : ℕ → StreamRun P W → StreamStep P W
  unfolding stream_with_retries respond
  ask_model steps r =
      let (ok, stage) =
        stream_with_retries env source s r.run.outputs max_llm_retries r.run.messages
          (stage_of r) in
      elim ok [
        | true ↦ respond steps r stage
        | false ↦ stop (ended failed_after_retries (leave stage r))
      ]

  unfoldable pub stream_step : ℕ → StreamRun P W → StreamStep P W
  unfolding ask_aborted make_ready ask_model
  stream_step n r =
      let (aborted, asked) = ask_aborted r in
      if aborted
      then stop (ended aborted_by_user (checkpoint (n + 1) asked))
      else ask_model (n + 1) (make_ready n asked)

  -- the steps that remain, from step `n` on
  unfoldable pub stream_loop : ℕ → ℕ → StreamRun P W → StreamOutcome P W
  unfolding stream_step
  stream_loop zero n r = ended (max_steps_reached s.max_steps) r
  stream_loop (suc remaining) n r = elim (stream_step n r) [
    | stop outcome ↦ outcome
    | go_on r' ↦ stream_loop remaining (n + 1) r'
  ]

-- the conversation to start with: the checkpointed one, if there is one, else the one that
-- `build_messages` made; then the findings of the sub-agents
unfoldable pub first_messages :
    {P : Type 0} → List (Message P) → List (Message P) → Option String → List (Message P)
first_messages resume built findings =
    let start : List (Message _) = elim resume [ [] ↦ built | m ∷ ms ↦ m ∷ ms ] in
    elim findings [
      | none ↦ start
      | some t ↦ if str_eq t "" then start else start ++ (message user (text t) ∷ [])
    ]

module _ {P W : Type 0} ⦃e : Equality P⦄ (env : Environment P W) (source : Source P W)
    (s : Settings P) where
  unfoldable pub stream_investigate :
      String
      → List (Message P)
      → List (Message P)
      → Option String
      → List ApprovalDecision
      → Dict ℕ
      → W
      → StreamOutcome P W
  unfolding stream_loop first_messages
  stream_investigate incident resume built findings decisions windows w =
      stream_loop env source (with_decisions decisions s) incident s.max_steps 0 (record {
        run = record {
          messages = first_messages resume built findings;
          guard = new_guard max_identical_calls;
          compactions = 0;
          outputs = [];
          prefixes = remembered_prefixes decisions;
          last_verify = none;
          windows = windows;
          world = w;
        };
        nudged = false;
        events = [];
      })
