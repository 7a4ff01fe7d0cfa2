-- ===== src/Core/Models.antt =====
-- vishwakarma/core/models.py: the records that tools, guard and engine exchange. `P` stands for the
-- JSON object of a call's parameters, and a tool's `output` is the text that `str` makes of it.
use vishwakarma.Prelude.{ℕ, String, Bool, Option, List}

pub data ToolStatus : Type 0 where
  success error no_data approval_required : ToolStatus

pub record ToolOutput (P : Type 0) : Type 0 where
  pub tool_call_id : String
  pub tool_name : String
  pub description : String
  pub status : ToolStatus
  pub output : Option String
  pub error : Option String
  pub invocation : String
  pub token_count : ℕ
  pub params : P

pub record PendingApproval (P : Type 0) : Type 0 where
  pub tool_call_id : String
  pub tool_name : String
  pub description : String
  pub params : P

pub record ApprovalDecision : Type 0 where
  pub tool_call_id : String
  pub approved : Bool
  pub remember_prefix : List String
