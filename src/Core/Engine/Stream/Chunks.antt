-- ===== src/Core/Engine/Stream/Chunks.antt =====
-- core/engine.py, `stream_investigate`: the attempts to stream an answer. The chunks that the model
-- sends do not depend on the tools that run meanwhile, so that a call of the model gives all its
-- chunks and whether it ended without an exception. A tool runs when it is dispatched; that an
-- attempt that failed cancels the tools still queued in the pool is left out, and so are timeouts.
-- The set of dispatched ids is the keys of the futures.
use package.text.Mathlib.Text.{starts_with}
use vishwakarma.Prelude.{
  ℕ, zero, suc, String, Bool, true, false, not, ◌&&◌, ◌||◌, Option, none, some, List, [], ◌∷◌, ◌++◌,
  Equality, if◌then◌else◌, str_append, any,
}
use vishwakarma.Prelude.Dict
use vishwakarma.Prelude.Dict.{Dict}
use vishwakarma.Core.Models.{ToolOutput, ApprovalDecision, ToolStatus}
use vishwakarma.Core.Safeguards.{LoopGuard, is_allowed, allowed}
use vishwakarma.Core.Conversation.{ToolCall, Message, Content, text, refusal, policy_denial}
use vishwakarma.Core.Engine.Checks.{Policy, is_bash}
use vishwakarma.Core.Engine.State.{Environment, Settings}

-- `finished` is both "tool_calls" and "analysis_done"
pub data Chunk (P : Type 0) : Type 0 where
  text_delta : String → Chunk P
  tool_call_complete : ToolCall P → Chunk P
  finished : Option String → List (ToolCall P) → Chunk P
  other : String → Chunk P

-- what the generator yields before it ends; a start says whether the model was still writing
pub data Event (P : Type 0) : Type 0 where
  forwarded : Chunk P → Event P
  tool_call_start : Bool → String → P → Event P
  tool_call_result : String → ToolStatus → String → Event P
  compaction : ℕ → Event P
  llm_error : Event P
  directing : Event P

-- the calls to the model, to the table of investigations and to core/aborts.py
pub record Source (P W : Type 0) : Type 0 where
  pub stream : List (Message P) → W → (List (Chunk P) × Bool) × W
  pub save : String → List (Message P) → ℕ → W → W
  pub is_aborted : String → W → Bool × W

-- the variables that the attempts and the dispatch of a step change; a future is the output of its
-- tool, or none if it raised
pub record Stage (P W : Type 0) : Type 0 where
  pub guard : LoopGuard
  pub prefixes : List String
  pub futures : Dict (Option (ToolOutput P))
  pub blocked : Dict Content
  pub content : String
  pub calls : List (ToolCall P)
  pub events : List (Event P)
  pub world : W

-- `k in d`
abbrev pub is_key : {V : Type 0} → String → Dict V → Bool
is_key k d = elim (Dict.get k d) [ none ↦ false | some v ↦ true ]

abbrev pub needs_approval : String → String → Content
needs_approval what name = text (str_append what name)

module _ {P W : Type 0} where
  unfoldable pub decide_bash :
      String → Option ApprovalDecision → Stage P W → Option Content × Stage P W
  decide_bash cmd none stage = (some (needs_approval "Bash command requires approval: " cmd), stage)
  decide_bash cmd (some decision) stage =
      if decision.approved
      then (none, record stage { prefixes = stage.prefixes ++ decision.remember_prefix })
      else (some (needs_approval "Bash command requires approval: " cmd), stage)

  unfoldable pub decide_tool :
      String → Option ApprovalDecision → Stage P W → Option Content × Stage P W
  decide_tool name none stage = (some (needs_approval "Tool call requires approval: " name), stage)
  decide_tool name (some decision) stage =
      if decision.approved
      then (none, stage)
      else (some (needs_approval "Tool call requires approval: " name), stage)

  unfoldable pub check_bash : Policy → String → String → Stage P W → Option Content × Stage P W
  unfolding decide_bash
  check_bash policy id cmd stage =
      if policy.bash_always_deny
      then (some (policy_denial cmd), stage)
      else if policy.bash_always_allow
      then (none, stage)
      else if not (any (λ p. starts_with cmd p) stage.prefixes) && policy.require_approval
      then decide_bash cmd (Dict.get id policy.decisions) stage
      else (none, stage)

  unfoldable pub check_tool : Policy → ToolCall P → Stage P W → Option Content × Stage P W
  unfolding decide_tool
  check_tool policy tc stage =
      if policy.require_approval
      then decide_tool tc.name (Dict.get tc.id policy.decisions) stage
      else (none, stage)

module _ {P W : Type 0} ⦃e : Equality P⦄ (env : Environment P W) (source : Source P W)
    (s : Settings P) (outputs : List (ToolOutput P)) where
  -- the reason to block a call, or none
  unfoldable pub check_tool_allowed : ToolCall P → Stage P W → Option Content × Stage P W
  unfolding check_bash check_tool
  check_tool_allowed tc stage =
      let (guard, verdict) =
        is_allowed s.safeguards_enabled s.fingerprint stage.guard tc.name tc.params outputs in
      let judged = record stage { guard = guard } in
      elim verdict [
        | allowed ↦
            if is_bash tc.name
            then check_bash s.policy tc.id (s.command tc.params) judged
            else check_tool s.policy tc judged
        | reason ↦ (some (refusal reason), judged)
      ]

  -- `overlap_pool.submit(_run_stream_tool, ...)`
  unfoldable pub dispatch : Bool → ToolCall P → Stage P W → Stage P W
  dispatch overlap tc stage =
      let (result, w) = env.execute tc.name tc.params stage.world in
      let future : Option (ToolOutput P) = elim result [
        | none ↦ none
        | some o ↦ some (record o { tool_call_id = tc.id; params = tc.params })
      ] in
      record stage {
        futures = Dict.put tc.id future stage.futures;
        events = stage.events ++ (tool_call_start overlap tc.name tc.params ∷ []);
        world = w;
      }

  -- a call that was checked
  unfoldable pub rule : Bool → ToolCall P → Option Content → Stage P W → Stage P W
  unfolding dispatch
  rule overlap tc none stage = dispatch overlap tc stage
  rule overlap tc (some reason) stage = record stage {
    blocked = Dict.put tc.id reason stage.blocked;
  }

  unfoldable pub admit : Bool → ToolCall P → Stage P W → Stage P W
  unfolding check_tool_allowed rule
  admit overlap tc stage =
      let (reason, judged) = check_tool_allowed tc stage in rule overlap tc reason judged

  abbrev forward : Chunk P → Stage P W → Stage P W
  forward chunk stage = record stage { events = stage.events ++ (forwarded chunk ∷ []) }

  unfoldable pub read_chunk : Chunk P → Stage P W → Stage P W
  unfolding admit
  read_chunk (tool_call_complete tc) stage = admit true tc stage
  read_chunk (text_delta t) stage = record (forward (text_delta t) stage) {
    content = str_append stage.content t;
  }
  read_chunk (finished none calls) stage = record (forward (finished none calls) stage) {
    calls = calls;
  }
  read_chunk (finished (some t) calls) stage = record (forward (finished (some t) calls) stage) {
    content = t;
    calls = calls;
  }
  read_chunk (other t) stage = forward (other t) stage

  unfoldable pub read_chunks : List (Chunk P) → Stage P W → Stage P W
  unfolding read_chunk
  read_chunks [] stage = stage
  read_chunks (chunk ∷ chunks) stage = read_chunks chunks (read_chunk chunk stage)

  -- what an attempt starts from: what earlier attempts counted, approved and ran stays
  abbrev pub cleared : W → Stage P W → Stage P W
  cleared w stage = record stage { futures = []; blocked = []; content = ""; calls = []; world = w }

  unfoldable pub after_error : Stage P W → Stage P W
  after_error stage = record stage {
    futures = [];
    blocked = [];
    events = stage.events ++ (llm_error ∷ []);
  }

  -- the attempts of a step, with whether one succeeded
  unfoldable pub stream_with_retries : ℕ → List (Message P) → Stage P W → Bool × Stage P W
  unfolding read_chunks after_error
  stream_with_retries zero messages stage = (false, stage)
  stream_with_retries (suc attempts) messages stage =
      let ((chunks, ok), w) = source.stream messages stage.world in
      let read = read_chunks chunks (cleared w stage) in
      elim ok [
        | true ↦ (true, read)
        | false ↦ stream_with_retries attempts messages (after_error read)
      ]

  -- the calls that were not started during the stream; `early` is what was blocked then
  unfoldable pub dispatch_rest : Dict Content → List (ToolCall P) → Stage P W → Stage P W
  unfolding admit
  dispatch_rest early [] stage = stage
  dispatch_rest early (tc ∷ calls) stage =
      dispatch_rest early calls
        (if is_key tc.id stage.futures || is_key tc.id early then stage else admit false tc stage)
