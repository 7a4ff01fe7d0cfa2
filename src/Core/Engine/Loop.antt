-- ===== src/Core/Engine/Loop.antt =====
-- core/engine.py: `investigate`, from the built messages on. The events that it emits are left out.
use vishwakarma.Prelude.{
  ℕ, zero, suc, ◌+◌, String, false, Option, none, some, List, [], ◌∷◌, ◌++◌, str_eq, Equality,
  if◌then◌else◌,
}
use vishwakarma.Prelude.Dict.{Dict}
use vishwakarma.Core.Models.{PendingApproval, ApprovalDecision}
use vishwakarma.Core.Safeguards.{max_identical_calls, new_guard, reset}
use vishwakarma.Core.Conversation.{
  ToolCall, Message, Content, message, user, text, verify_prompt, final_call,
}
use vishwakarma.Core.Engine.Checks.{Desk, index_decisions, remembered_prefixes, check_calls}
use vishwakarma.Core.Engine.Outputs.{Executed}
use vishwakarma.Core.Compaction.{compact_messages}
use vishwakarma.Core.Engine.State.{
  Environment, Settings, Run, LlmResult, max_llm_retries, Outcome, StepResult, should_verify,
  raised, returned, stop, go_on,
}
use vishwakarma.Core.Engine.Steps.{
  complete_with_retries, run_tools, answer_calls, compress_executed, asking,
}

module _ {P W : Type 0} ⦃e : Equality P⦄ (env : Environment P W) (s : Settings P) where
  -- the verification prompt, if it is due, and the compaction
  unfoldable pub prepare : ℕ → Run P W → Run P W
  prepare step run =
      let due = should_verify s step run.last_verify in
      let messages =
        if due then run.messages ++ (message user (verify_prompt step) ∷ []) else run.messages in
      let ((compacted, did_compact), (windows, w)) =
        compact_messages env.write_summary env.litellm_count env.chars env.model_info
          (some env.model) messages run.windows run.world in
      record {
        messages = compacted;
        guard = if did_compact then reset run.guard else run.guard;
        compactions = if did_compact then run.compactions + 1 else run.compactions;
        outputs = run.outputs;
        prefixes = run.prefixes;
        last_verify = if due then some step else run.last_verify;
        windows = windows;
        world = w;
      }

  -- the judgement of the calls of a step
  unfoldable pub judge : Run P W → List (ToolCall P) → Desk P
  judge run calls =
      check_calls s.fingerprint s.command s.safeguards_enabled s.policy run.outputs calls (record {
        guard = run.guard;
        prefixes = run.prefixes;
        pending = [];
        blocked = [];
        to_execute = [];
      })

  abbrev pub result_of : ℕ → Run P W → String → List (PendingApproval P) → LlmResult P
  result_of steps run answer pending = record {
    answer = answer;
    tool_outputs = run.outputs;
    messages = run.messages;
    pending_approvals = pending;
    steps_taken = steps;
    compactions = run.compactions;
  }

  -- after the replies: back to the caller if a call waits for a decision
  unfoldable pub close_step : ℕ → Run P W → List (PendingApproval P) → StepResult P W
  close_step steps run [] = go_on run
  close_step steps run (p ∷ pending) =
      stop (returned (result_of steps run "" (p ∷ pending)) run.world)

  -- the run with the assistant's message, the replies and the outputs of a step
  unfoldable pub answered :
      Run P W
      → String
      → List (ToolCall P)
      → Desk P
      → Executed P
      → Dict (Option Content)
      → W
      → Run P W
  answered run content calls desk executed blocked w =
      let (replies, outputs) = answer_calls executed blocked calls in
      record run {
        messages = run.messages ++ (asking content calls ∷ replies);
        guard = desk.guard;
        prefixes = desk.prefixes;
        outputs = run.outputs ++ outputs;
        world = w;
      }

  -- a response with tool calls
  unfoldable pub act : ℕ → Run P W → String → List (ToolCall P) → StepResult P W
  act steps run content calls =
      let desk = judge run calls in
      let ((executed, blocked), w) = run_tools env desk.to_execute [] desk.blocked run.world in
      let (compressed, w') = compress_executed env desk.to_execute executed w in
      elim compressed [
        | none ↦ stop (raised w')
        | some done ↦
            close_step steps (answered run content calls desk done blocked w') desk.pending
      ]

  -- a response: without tool calls it is the answer
  unfoldable pub respond : ℕ → Run P W → String → List (ToolCall P) → StepResult P W
  respond steps run content [] = stop (returned (result_of steps run content []) run.world)
  respond steps run content (tc ∷ calls) = act steps run content (tc ∷ calls)

  unfoldable pub step : ℕ → Run P W → StepResult P W
  step n run =
      let ready = prepare n run in
      let (response, w) = complete_with_retries env max_llm_retries ready.messages ready.world in
      elim response [
        | none ↦ stop (raised w)
        | some r ↦ respond (n + 1) (record ready { world = w }) r.content r.tool_calls
      ]

  abbrev incomplete : String
  incomplete = "Investigation incomplete: max steps reached. Review tool outputs above."

  abbrev synthesis_failed : String
  synthesis_failed =
      "Investigation incomplete: max steps reached. Review the tool outputs above for findings."

  -- `content or incomplete`
  abbrev or_incomplete : String → String
  or_incomplete t = if str_eq t "" then incomplete else t

  -- the last call, which may use no tools
  unfoldable pub synthesize : Run P W → Outcome P W
  synthesize run =
      let asked = record run {
        messages = run.messages ++ (message user (final_call s.max_steps) ∷ []);
      } in
      let (response, w) = env.complete asked.messages false run.world in
      let answer : String = elim response [
        | none ↦ synthesis_failed
        | some r ↦ or_incomplete r.content
      ] in
      returned (result_of s.max_steps asked answer []) w

  -- the steps that remain, from step `n` on
  unfoldable pub loop : ℕ → ℕ → Run P W → Outcome P W
  loop zero n run = synthesize run
  loop (suc remaining) n run = elim (step n run) [
    | stop outcome ↦ outcome
    | go_on run' ↦ loop remaining (n + 1) run'
  ]

-- `approval_decisions` is read by id when calls are judged
abbrev pub with_decisions : {P : Type 0} → List ApprovalDecision → Settings P → Settings P
with_decisions decisions s = record s {
  policy = record s.policy { decisions = index_decisions decisions [] };
}

module _ {P W : Type 0} ⦃e : Equality P⦄ (env : Environment P W) (s : Settings P) where
  -- `investigate` on the messages that `build_messages` made
  unfoldable pub investigate :
      List (Message P) → Option String → List ApprovalDecision → Dict ℕ → W → Outcome P W
  unfolding loop
  investigate messages findings decisions windows w =
      loop env (with_decisions decisions s) s.max_steps 0 (record {
        messages = elim findings [
          | none ↦ messages
          | some t ↦ if str_eq t "" then messages else messages ++ (message user (text t) ∷ [])
        ];
        guard = new_guard max_identical_calls;
        compactions = 0;
        outputs = [];
        prefixes = remembered_prefixes decisions;
        last_verify = none;
        windows = windows;
        world = w;
      })
