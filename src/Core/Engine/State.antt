-- ===== src/Core/Engine/State.antt =====
-- The variables and results of `investigate` of core/engine.py, and what it calls outside the
-- source: a record of functions on a state of the world, `W`, for the language model, the tools
-- and litellm.
use vishwakarma.Prelude.{
  ℕ, ◌-◌, ◌%◌, String, Bool, false, not, ◌&&◌, Option, none, some, List, ltb, nat_eq, if◌then◌else◌,
}
use vishwakarma.Prelude.Dict.{Dict}
use vishwakarma.Core.Models.{ToolOutput, PendingApproval}
use vishwakarma.Core.Safeguards.{LoopGuard}
use vishwakarma.Core.Conversation.{ToolCall, Message, Content}
use vishwakarma.Core.Engine.Checks.{Policy}
use vishwakarma.Core.Engine.Outputs.{Prompt}

abbrev pub checkpoint_step : ℕ
checkpoint_step = 20

abbrev pub max_llm_retries : ℕ
max_llm_retries = 3

pub record Response (P : Type 0) : Type 0 where
  pub content : String
  pub tool_calls : List (ToolCall P)

-- `none` where the call raises
pub record Environment (P W : Type 0) : Type 0 where
  pub complete : List (Message P) → Bool → W → Option (Response P) × W
  pub execute : String → P → W → Option (ToolOutput P) × W
  pub summarize : Prompt → W → Option String × W
  pub write_summary : List (Message P) → W → Option String × W
  pub litellm_count : String → List (Message P) → Option ℕ
  pub model_info : String → Option (Option ℕ × Option ℕ)
  pub model : String
  pub chars : Content → ℕ
  pub parse : String → ℕ → Option (List String)

-- `verify_every` is not 0, for which the source divides by zero
pub record Settings (P : Type 0) : Type 0 where
  pub max_steps : ℕ
  pub run_until_verified : Bool
  pub verify_after : ℕ
  pub verify_every : ℕ
  pub safeguards_enabled : Bool
  pub fingerprint : String → P → String
  pub command : P → String
  pub policy : Policy

-- the variables of `investigate` that its steps change
pub record Run (P W : Type 0) : Type 0 where
  pub messages : List (Message P)
  pub guard : LoopGuard
  pub compactions : ℕ
  pub outputs : List (ToolOutput P)
  pub prefixes : List String
  pub last_verify : Option ℕ
  pub windows : Dict ℕ
  pub world : W

pub record LlmResult (P : Type 0) : Type 0 where
  pub answer : String
  pub tool_outputs : List (ToolOutput P)
  pub messages : List (Message P)
  pub pending_approvals : List (PendingApproval P)
  pub steps_taken : ℕ
  pub compactions : ℕ

-- how a run ends: an exception leaves `investigate`, or it returns
pub data Outcome (P W : Type 0) : Type 0 where
  raised : W → Outcome P W
  returned : LlmResult P → W → Outcome P W

-- how a step ends
pub data StepResult (P W : Type 0) : Type 0 where
  stop : Outcome P W → StepResult P W
  go_on : Run P W → StepResult P W

abbrev same_step : ℕ → Option ℕ → Bool
same_step step none = false
same_step step (some last) = nat_eq step last

module _ {P : Type 0} (s : Settings P) where
  unfoldable pub should_verify : ℕ → Option ℕ → Bool
  should_verify step last_verify =
      if not s.run_until_verified
      then nat_eq step checkpoint_step
      else if ltb step s.verify_after
      then false
      else nat_eq ((step - s.verify_after) % s.verify_every) 0 && not (same_step step last_verify)
