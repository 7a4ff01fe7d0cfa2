-- ===== src/Core/Conversation.antt =====
-- The message dicts of a conversation, as core/engine.py and core/compaction.py build and read
-- them. A text that the program composes is a constructor with what it is composed of.
use vishwakarma.Prelude.{ℕ, String, Bool, true, false, Option, List, []}
use vishwakarma.Core.Safeguards.{Verdict}

pub data Role : Type 0 where
  system user assistant tool : Role

pub data Content : Type 0 where
  text : String → Content
  refusal : Verdict → Content
  policy_denial bash_denial tool_denial execution_error no_data_from : String → Content
  tool_failure : Option String → String → Content
  verify_prompt : ℕ → Content
  summary : String → Content
  continue_marker no_tools_yet : Content
  final_call : ℕ → Content
  cut : ℕ → Content → Content

pub record ToolCall (P : Type 0) : Type 0 where
  pub id : String
  pub name : String
  pub params : P

pub record Message (P : Type 0) : Type 0 where
  pub role : Role
  pub content : Content
  pub tool_calls : List (ToolCall P)
  pub tool_call_id : String

abbrev pub message : {P : Type 0} → Role → Content → Message P
message role content = record { role = role; content = content; tool_calls = []; tool_call_id = "" }

abbrev pub is_system : Role → Bool
is_system system = true
is_system _ = false

abbrev pub is_user : Role → Bool
is_user user = true
is_user _ = false

abbrev pub is_tool : Role → Bool
is_tool tool = true
is_tool _ = false
