-- ===== src/Core/Engine/Tests.antt =====
-- Runs of the investigation of core/engine.py with a small model and tool.
use vishwakarma.Prelude.{
  number_equality, ℕ, zero, suc, ◌+◌, String, ◌≡◌, refl, Bool, true, false, Option, none, some,
  List, [], ◌∷◌, ◌++◌, map, arith, str_eq, if◌then◌else◌, length, all,
}
use vishwakarma.Prelude.Dict
use vishwakarma.Core.Engine.Approval.{may_run, check_calls-approved}
use vishwakarma.Core.Engine.Replies.{Adds, step-Adds}
use vishwakarma.Prelude.Dict.{Dict}
use vishwakarma.Core.Models.{ToolOutput, ApprovalDecision, success}
use vishwakarma.Core.Safeguards.{
  new_guard, reset, count_of, has_previous_exact_same_tool_call, count_call, is_allowed,
}
use vishwakarma.Core.Conversation.{ToolCall, Message, message, system, user, text, execution_error}
use vishwakarma.Core.Compaction.{get_context_window, total_chars, model_of, compact_messages}
use vishwakarma.Core.Engine.Outputs.{large_outputs, compress_large, compress_tool_outputs}
use vishwakarma.Core.Engine.Checks.{
  Policy, Desk, index_decisions, remembered_prefixes, decide_bash, decide_tool, check_bash,
  check_tool, check_call, check_calls,
}
use vishwakarma.Core.Engine.State.{
  Response, Environment, Settings, Run, Outcome, should_verify, raised, returned, go_on,
}
use vishwakarma.Core.Engine.Steps.{
  shown, reply_to, answer_call, answer_calls, asking, complete_with_retries, run_tools,
  compress_executed,
}
use vishwakarma.Core.Engine.Loop.{
  prepare, judge, close_step, answered, act, respond, step, synthesize, loop, investigate,
}
use vishwakarma.Core.Engine.Calls.{Counts}

program : Unit {0}
unfolding Dict.get Dict.put is_allowed count_call count_of has_previous_exact_same_tool_call
    new_guard reset check_bash check_tool decide_bash decide_tool check_call check_calls
    remembered_prefixes index_decisions get_context_window model_of total_chars compact_messages
    large_outputs compress_large compress_tool_outputs should_verify complete_with_retries shown
    run_tools answer_call answer_calls compress_executed prepare judge close_step answered act
    respond step synthesize loop investigate
program = tt

abbrev pub call : String → String → ℕ → ToolCall ℕ
call id name p = record { id = id; name = name; params = p }

-- two calls first, then the answer; the world counts the calls of the model
abbrev answers : ℕ → Option (Response ℕ) × ℕ
answers zero = (
  some (record {
    content = "";
    tool_calls = call "1" "logs" 7 ∷ call "2" "logs" 7 ∷ call "3" "bash" 1 ∷ [];
  }),
  1,
)
answers (suc n) = (some (record { content = "done"; tool_calls = [] }), suc (suc n))

abbrev pub found : String → ℕ → ToolOutput ℕ
found name p = record {
  tool_call_id = "";
  tool_name = name;
  description = "";
  status = success;
  output = some "ok";
  error = none;
  invocation = "";
  token_count = 0;
  params = p;
}

abbrev pub small : Environment ℕ ℕ
small = record {
  complete = λ ms tools w. elim tools [ true ↦ answers w | false ↦ (none, w + 1) ];
  execute = λ name p w. (if str_eq name "bash" then none else some (found name p), w);
  summarize = λ q w. (none, w);
  write_summary = λ ms w. (none, w);
  litellm_count = λ m ms. none;
  model_info = λ m. none;
  model = "m";
  chars = λ c. 1;
  parse = λ a n. none;
}

abbrev pub open_policy : Policy
open_policy = record {
  require_approval = false;
  bash_always_allow = false;
  bash_always_deny = false;
  decisions = [];
}

abbrev pub settings : Settings ℕ
settings = record {
  max_steps = 5;
  run_until_verified = true;
  verify_after = 8;
  verify_every = 6;
  safeguards_enabled = true;
  fingerprint = λ name p. name;
  command = λ p. "kubectl get pods";
  policy = open_policy;
}

abbrev pub opening : List (Message ℕ)
opening = message system (text "s") ∷ message user (text "q") ∷ []

-- two steps, two calls of the model, and a reply to each of the three tool calls
abbrev ended : Outcome ℕ ℕ → ℕ × ℕ
ended (raised w) = (0, w)
ended (returned r w) = (length r.messages, w)

investigated : ended (investigate small settings opening none [] [] 0) ≡ (6, 2)
unfolding program
investigated = refl

answered-count : (tools : Bool) (w : ℕ) → (small.complete [] tools w).1 ≡ w + 1
answered-count true zero = refl
answered-count true (suc n) = omega arith
answered-count false w = refl

pub small-Counts : Counts small (λ w. w)
small-Counts = record {
  on_complete = λ ms tools w. answered-count tools w;
  on_execute = λ name p w. refl;
  on_summarize = λ q w. refl;
  on_summary = λ ms w. refl;
}

-- the user is asked, and has denied call "3" but wants its prefix remembered
abbrev pub denial : ApprovalDecision
denial = record { tool_call_id = "3"; approved = false; remember_prefix = "kubectl" ∷ [] }

abbrev pub permit : ApprovalDecision
permit = record { tool_call_id = "1"; approved = true; remember_prefix = [] }

abbrev asking_policy : Policy
asking_policy = record {
  require_approval = true;
  bash_always_allow = false;
  bash_always_deny = false;
  decisions = ("3", denial) ∷ ("1", permit) ∷ [];
}

abbrev pub denying_policy : Policy
denying_policy = record asking_policy { bash_always_deny = true }

abbrev start : List String → Desk ℕ
start prefixes = record {
  guard = new_guard 2;
  prefixes = prefixes;
  pending = [];
  blocked = [];
  to_execute = [];
}

abbrev requested : List (ToolCall ℕ)
requested = call "1" "logs" 7 ∷ call "2" "metrics" 7 ∷ call "3" "bash" 1 ∷ []

abbrev judged : Policy → Desk ℕ
judged policy =
    check_calls settings.fingerprint settings.command true policy [] requested
      (start (remembered_prefixes (denial ∷ permit ∷ [])))

-- the denied command runs, by its own prefix
denied_runs : map (λ tc. tc.id) (judged asking_policy).to_execute ≡ "1" ∷ "3" ∷ []
unfolding program
denied_runs = refl

check_calls-approved_example :
    all
      (may_run asking_policy settings.command (judged asking_policy).prefixes)
      (judged asking_policy).to_execute
    ≡ true
check_calls-approved_example =
    check_calls-approved settings.fingerprint settings.command true asking_policy [] requested
      (start (remembered_prefixes (denial ∷ permit ∷ []))) refl refl refl

abbrev opening_run : Run ℕ ℕ
opening_run = record {
  messages = opening;
  guard = new_guard 2;
  compactions = 0;
  outputs = [];
  prefixes = [];
  last_verify = none;
  windows = [];
  world = 0;
}

abbrev second_run : Run ℕ ℕ
second_run = record {
  messages =
      opening
      ++ (asking "" (call "1" "logs" 7 ∷ call "2" "logs" 7 ∷ call "3" "bash" 1 ∷ [])
          ∷ reply_to (call "1" "logs" 7) (text "ok")
          ∷ reply_to (call "2" "logs" 7) (text "ok")
          ∷ reply_to (call "3" "bash" 1) (execution_error "bash")
          ∷ []);
  guard = record { counts = ("logs", 2) ∷ ("bash", 1) ∷ []; max_identical = 2 };
  compactions = 0;
  outputs =
      record (found "logs" 7) { tool_call_id = "1" }
      ∷ record (found "logs" 7) { tool_call_id = "2" }
      ∷ [];
  prefixes = [];
  last_verify = none;
  windows = ("m", 128000) ∷ [];
  world = 1;
}

first_step : step small settings 0 opening_run ≡ go_on second_run
unfolding program
first_step = refl

step-Adds_example : Adds (prepare small settings 0 opening_run).messages second_run.messages
step-Adds_example = step-Adds small settings 0 opening_run second_run first_step
