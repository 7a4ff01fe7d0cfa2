-- ===== src/Core/Engine/Stream/Gather.antt =====
-- core/engine.py, `stream_investigate`: what the futures of a step gave, and the replies to its calls.
use vishwakarma.Prelude.{Option, none, some, List, [], ◌∷◌, ◌++◌}
use vishwakarma.Prelude.Dict
use vishwakarma.Prelude.Dict.{Dict}
use vishwakarma.Core.Models.{ToolOutput}
use vishwakarma.Core.Conversation.{ToolCall, Message, Content, execution_error}
use vishwakarma.Core.Engine.Outputs.{Executed}
use vishwakarma.Core.Engine.Steps.{shown, reply_to}
use vishwakarma.Core.Engine.Stream.Chunks.{Event, tool_call_result}

-- what the futures of a step gave
pub record Gathered (P : Type 0) : Type 0 where
  pub results : Executed P
  pub blocked : Dict Content
  pub outputs : List (ToolOutput P)
  pub events : List (Event P)

module _ {P : Type 0} where
  -- the results in the order of the futures; a tool that raised is blocked with its error
  unfoldable pub collect : Dict (Option (ToolOutput P)) → Gathered P → Gathered P
  unfolding shown
  collect [] g = g
  collect ((id, none) ∷ futures) g =
      collect futures (record g { blocked = Dict.put id (execution_error id) g.blocked })
  collect ((id, some o) ∷ futures) g = collect futures (record g {
    results = Dict.put id (o, shown o) g.results;
    outputs = g.outputs ++ (o ∷ []);
    events = g.events ++ (tool_call_result o.tool_name o.status o.invocation ∷ []);
  })

  unfoldable pub stream_reply : Dict Content → Executed P → ToolCall P → List (Message P)
  stream_reply blocked results tc = elim (Dict.get tc.id blocked) [
    | some reason ↦ reply_to tc reason ∷ []
    | none ↦ elim (Dict.get tc.id results) [
      | some (output, content) ↦ reply_to tc content ∷ []
      | none ↦ []
    ]
  ]

  unfoldable pub stream_replies : Dict Content → Executed P → List (ToolCall P) → List (Message P)
  unfolding stream_reply
  stream_replies blocked results [] = []
  stream_replies blocked results (tc ∷ calls) =
      stream_reply blocked results tc ++ stream_replies blocked results calls
