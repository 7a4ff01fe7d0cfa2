-- ===== src/Core/Engine/Steps.antt =====
-- The parts of a step of core/engine.py: the call of the model, the tools and the replies. The
-- timeouts of the thread pool are left out: the tools of a step are run in the order of their calls.
use vishwakarma.Prelude.{ℕ, zero, suc, String, true, Option, none, some, List, [], ◌∷◌, ◌++◌}
use vishwakarma.Prelude.Dict
use vishwakarma.Prelude.Dict.{Dict}
use vishwakarma.Core.Models.{ToolOutput, error, no_data}
use vishwakarma.Core.Conversation.{
  ToolCall, Message, Content, assistant, tool, text, execution_error, no_data_from, tool_failure,
}
use vishwakarma.Core.Engine.Outputs.{Executed, compress_tool_outputs}
use vishwakarma.Core.Engine.State.{Response, Environment}

module _ {P : Type 0} where
  -- what the model is shown of an output
  unfoldable pub shown : ToolOutput P → Content
  shown output = elim output.status [
    | error ↦ tool_failure output.error output.invocation
    | no_data ↦ no_data_from output.invocation
    | _ ↦ elim output.output [ some t ↦ text t | none ↦ text "" ]
  ]

  abbrev pub reply_to : ToolCall P → Content → Message P
  reply_to tc content = record {
    role = tool;
    content = content;
    tool_calls = [];
    tool_call_id = tc.id;
  }

  -- the reply to one call, and the output that it shows
  unfoldable pub answer_call :
      Executed P → Dict (Option Content) → ToolCall P → List (Message P) × List (ToolOutput P)
  answer_call executed blocked tc = elim (Dict.get tc.id blocked) [
    | some (some content) ↦ (reply_to tc content ∷ [], [])
    | some none ↦ ([], [])
    | none ↦ elim (Dict.get tc.id executed) [
      | some (output, content) ↦ (reply_to tc content ∷ [], output ∷ [])
      | none ↦ ([], [])
    ]
  ]

  unfoldable pub answer_calls :
      Executed P
      → Dict (Option Content)
      → List (ToolCall P)
      → List (Message P) × List (ToolOutput P)
  unfolding answer_call
  answer_calls executed blocked [] = ([], [])
  answer_calls executed blocked (tc ∷ calls) =
      let (replies, outputs) = answer_call executed blocked tc in
      let (more, others) = answer_calls executed blocked calls in
      (replies ++ more, outputs ++ others)

  abbrev pub asking : String → List (ToolCall P) → Message P
  asking content calls = record {
    role = assistant;
    content = text content;
    tool_calls = calls;
    tool_call_id = "";
  }

module _ {P W : Type 0} (env : Environment P W) where
  open env use {complete, execute, summarize, write_summary}

  -- the attempts of one step
  unfoldable pub complete_with_retries : ℕ → List (Message P) → W → Option (Response P) × W
  complete_with_retries zero messages w = (none, w)
  complete_with_retries (suc attempts) messages w =
      let (response, w') = complete messages true w in
      elim response [ some r ↦ (some r, w') | none ↦ complete_with_retries attempts messages w' ]

  -- the tools of a step: their outputs by call, or the error that stands for one
  unfoldable pub run_tools :
      List (ToolCall P)
      → Executed P
      → Dict (Option Content)
      → W
      → (Executed P × Dict (Option Content)) × W
  unfolding shown
  run_tools [] executed blocked w = ((executed, blocked), w)
  run_tools (tc ∷ calls) executed blocked w =
      let (result, w') = execute tc.name tc.params w in
      run_tools calls
        (elim result [
          | none ↦ executed
          | some o ↦
              let output = record o { tool_call_id = tc.id; params = tc.params } in
              Dict.put tc.id (output, shown output) executed
        ])
        (elim result [
          | none ↦ Dict.put tc.id (some (execution_error tc.name)) blocked
          | some o ↦ blocked
        ])
        w'

  -- the outputs of the step are compressed if any tool was run
  unfoldable pub compress_executed : List (ToolCall P) → Executed P → W → Option (Executed P) × W
  compress_executed [] executed w = (some executed, w)
  compress_executed (tc ∷ calls) executed w =
      compress_tool_outputs env.chars summarize env.parse executed w
