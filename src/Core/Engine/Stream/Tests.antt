-- ===== src/Core/Engine/Stream/Tests.antt =====
-- Tests of the streaming loop, and instances of its theorems.
use vishwakarma.Prelude.{
  number_equality, ℕ, zero, suc, ◌+◌, ◌*◌, ◌≤◌, String, ◌≡◌, refl, true, false, none, some, List,
  [], ◌∷◌, ◌++◌, map, ltb, length,
}
use vishwakarma.Prelude.Dict
use vishwakarma.Prelude.Dict.{Dict}
use vishwakarma.Core.Safeguards.{
  new_guard, reset, count_of, has_previous_exact_same_tool_call, count_call, is_allowed, too_many,
}
use vishwakarma.Core.Conversation.{ToolCall, refusal}
use vishwakarma.Core.Compaction.{get_context_window, total_chars, model_of, compact_messages}
use vishwakarma.Core.Engine.Checks.{index_decisions, remembered_prefixes}
use vishwakarma.Core.Engine.Loop.{prepare}
use vishwakarma.Core.Engine.Outputs.{large_outputs, compress_large, compress_tool_outputs}
use vishwakarma.Core.Engine.State.{Settings, should_verify}
use vishwakarma.Core.Engine.Steps.{shown}
use vishwakarma.Core.Engine.Stream.Bounded.{Streams, ended_world, stream_investigate-count}
use vishwakarma.Core.Engine.Stream.Chunks.{
  Source, Stage, Chunk, decide_bash, decide_tool, check_bash, check_tool, check_tool_allowed,
  dispatch, rule, admit, read_chunk, read_chunks, cleared, after_error, stream_with_retries,
  dispatch_rest, text_delta, tool_call_complete, finished,
}
use vishwakarma.Core.Engine.Stream.Denied.{Quiet, outcome_events, stream_investigate-Quiet}
use vishwakarma.Core.Engine.Stream.Admitted.{quiet, announced}
use vishwakarma.Core.Engine.Stream.Overlap.{dispatched, dispatched-announced}
use vishwakarma.Core.Engine.Stream.Rounds.{
  StreamRun, StreamOutcome, StreamStep, checkpoint, ask_aborted, stage_of, conclude,
  compress_results, close_round, gather, act, respond, make_ready, ask_model, stream_step,
  stream_loop, first_messages, stream_investigate, raised, ended, stop, go_on,
}
use vishwakarma.Core.Engine.Stream.Gather.{collect, stream_reply, stream_replies}
use vishwakarma.Core.Engine.Stream.Stored.{Advanced, ready_run, stream_step-Advanced}
use vishwakarma.Core.Engine.Tests.{
  call, small, settings, opening, denying_policy, denial, permit, small-Counts,
}

program : Unit {0}
unfolding Dict.get Dict.put is_allowed count_call count_of has_previous_exact_same_tool_call
    new_guard reset check_bash check_tool decide_bash decide_tool check_tool_allowed dispatch rule
    admit read_chunk read_chunks after_error stream_with_retries dispatch_rest collect stream_reply
    stream_replies checkpoint ask_aborted conclude compress_results close_round gather act respond
    make_ready ask_model stream_step stream_loop first_messages stream_investigate
    remembered_prefixes index_decisions get_context_window model_of total_chars compact_messages
    large_outputs compress_large compress_tool_outputs should_verify shown prepare
program = tt

abbrev wanted : List (ToolCall ℕ)
wanted = call "1" "logs" 7 ∷ call "2" "logs" 7 ∷ call "3" "bash" 1 ∷ []

-- the world counts the calls of the model; the first answer announces two of its three calls
abbrev sent : ℕ → List (Chunk ℕ)
sent zero =
    text_delta "a"
    ∷ tool_call_complete (call "1" "logs" 7)
    ∷ tool_call_complete (call "3" "bash" 1)
    ∷ finished (some "a") wanted
    ∷ []
sent (suc n) = finished (some "done") [] ∷ []

abbrev steady : Source ℕ ℕ
steady = record {
  stream = λ ms w. ((sent w, true), w + 1);
  save = λ id ms n w. w;
  is_aborted = λ id w. (false, w);
}

steady-Streams : Streams steady (λ w. w)
steady-Streams = record {
  on_stream = λ ms w. refl;
  on_save = λ id ms n w. refl;
  on_aborted = λ id w. refl;
}

abbrev shape : StreamOutcome ℕ ℕ → ℕ × (List String × ℕ)
shape (raised r) = (0, ([], r.run.world))
shape (ended how r) =
    (length r.run.messages, (map (λ m. m.tool_call_id) r.run.messages, length r.events))

streamed :
    shape (stream_investigate small steady settings "i" [] opening none [] [] 0)
    ≡ (7, ("" ∷ "" ∷ "" ∷ "1" ∷ "2" ∷ "3" ∷ "" ∷ [], 8))
unfolding program
streamed = refl

stream_investigate-count_example :
    ended_world (stream_investigate small steady settings "i" [] opening none [] [] 0) ≤ 0 + 3 * 5
stream_investigate-count_example =
    stream_investigate-count small steady (λ w. w) small-Counts steady-Streams settings "i" []
      opening none [] [] 0

abbrev denying : Settings ℕ
denying = record settings { policy = denying_policy }

stream_investigate-Quiet_example : Quiet (
    outcome_events
      (stream_investigate small steady denying "i" [] opening none (denial ∷ permit ∷ []) [] 0))
stream_investigate-Quiet_example =
    stream_investigate-Quiet small steady denying refl "i" [] opening none (denial ∷ permit ∷ []) []
      0

abbrev start : StreamRun ℕ ℕ
start = record {
  run = record {
    messages = opening;
    guard = new_guard 2;
    compactions = 0;
    outputs = [];
    prefixes = [];
    last_verify = none;
    windows = [];
    world = 0;
  };
  nudged = false;
  events = [];
}

abbrev after_step : StreamStep ℕ ℕ → StreamRun ℕ ℕ
after_step (stop (raised r)) = r
after_step (stop (ended how r)) = r
after_step (go_on r) = r

abbrev second : StreamRun ℕ ℕ
second = after_step (stream_step small steady settings "i" 0 start)

first_step : stream_step small steady settings "i" 0 start ≡ go_on second
unfolding program
first_step = refl

stream_step-Advanced_example :
    Advanced small steady settings "i" 1 false
      (ready_run small steady settings "i" 0 start).run.messages
      second
stream_step-Advanced_example =
    stream_step-Advanced small steady settings "i" 0 start second first_step

abbrev stage : Stage ℕ ℕ
stage = stage_of small steady settings "i" start

-- a text, the first call, and the two others only at the end
abbrev begun : List (Chunk ℕ)
begun = text_delta "a" ∷ tool_call_complete (call "1" "logs" 7) ∷ []

abbrev unannounced : List (ToolCall ℕ)
unannounced = call "2" "bash" 1 ∷ call "3" "logs" 8 ∷ []

dispatched-announced_example :
    (let last = finished (some "a") (announced begun ++ unannounced) ∷ [] in
      let empty = cleared small steady settings [] 1 stage in
      quiet (dispatched small steady settings [] (begun ++ last) empty)
      ≡ quiet (dispatched small steady settings [] last empty))
dispatched-announced_example =
    dispatched-announced small steady settings [] begun unannounced (some "a") 1 stage
      (refl, (refl, (refl, tt)))

-- two attempts announce a call and fail; the third is refused the same call, which ran twice and
-- whose output the model never saw
abbrev flaky : Source ℕ ℕ
flaky = record steady {
  stream = λ ms w. (
    (
      tool_call_complete (call "1" "logs" 7) ∷ finished (some "") (call "1" "logs" 7 ∷ []) ∷ [],
      ltb 1 w,
    ),
    w + 1,
  );
}

refused_unseen :
    (stream_with_retries small flaky settings [] 3 opening stage).1.blocked
    ≡ ("1", refusal (too_many "logs" 3)) ∷ []
unfolding program
refused_unseen = refl

-- the checkpoint of a run that used tools: after a resume its answer is refused as if none had run
abbrev resumed : StreamStep ℕ ℕ
resumed =
    stream_step small steady settings "i" 0
      (record start { run = record start.run { messages = second.run.messages; world = 1 } })

nudged_after_resume : (after_step resumed).nudged ≡ true
unfolding program
nudged_after_resume = refl
