-- ===== src/Core/Engine/Checks.antt =====
-- The pre-checks of core/engine.py: which tool calls of a step run, which are refused, and which
-- wait for a decision. The digest of the guard and `params.get("command", "")` are parameters.
use text.Mathlib.Text.{starts_with}
use vishwakarma.Prelude.{
  String, Bool, not, ◌&&◌, ◌||◌, Option, none, some, List, [], ◌∷◌, ◌++◌, str_eq, Equality,
  if◌then◌else◌, str_append, any,
}
use vishwakarma.Prelude.Dict
use vishwakarma.Prelude.Dict.{Dict}
use vishwakarma.Core.Models.{ToolOutput, PendingApproval, ApprovalDecision}
use vishwakarma.Core.Safeguards.{LoopGuard, is_allowed, allowed}
use vishwakarma.Core.Conversation.{
  ToolCall, Content, refusal, policy_denial, bash_denial, tool_denial,
}

pub record Policy : Type 0 where
  pub require_approval : Bool
  pub bash_always_allow : Bool
  pub bash_always_deny : Bool
  pub decisions : Dict ApprovalDecision

-- `{d.tool_call_id: d for d in approval_decisions}`
unfoldable pub index_decisions :
    List ApprovalDecision → Dict ApprovalDecision → Dict ApprovalDecision
index_decisions [] index = index
index_decisions (d ∷ ds) index = index_decisions ds (Dict.put d.tool_call_id d index)

-- the prefixes that are approved from the start; a set, of which only membership is read
unfoldable pub remembered_prefixes : List ApprovalDecision → List String
remembered_prefixes [] = []
remembered_prefixes (d ∷ ds) = d.remember_prefix ++ remembered_prefixes ds

abbrev pub is_bash : String → Bool
is_bash name = str_eq name "bash" || (str_eq name "run_command" || str_eq name "execute_command")

-- what the checks have found so far; a blocked call has its reply, or none while it is pending
pub record Desk (P : Type 0) : Type 0 where
  pub guard : LoopGuard
  pub prefixes : List String
  pub pending : List (PendingApproval P)
  pub blocked : Dict (Option Content)
  pub to_execute : List (ToolCall P)

module _ {P : Type 0} where
  abbrev pub block : ToolCall P → Option Content → Desk P → Desk P
  block tc reply desk = record desk { blocked = Dict.put tc.id reply desk.blocked }

  abbrev pub approve : ToolCall P → Desk P → Desk P
  approve tc desk = record desk { to_execute = desk.to_execute ++ (tc ∷ []) }

  abbrev pub hold : ToolCall P → String → Desk P → Desk P
  hold tc description desk =
      let waiting : PendingApproval P = record {
        tool_call_id = tc.id;
        tool_name = tc.name;
        description = description;
        params = tc.params;
      } in
      block tc none (record desk { pending = desk.pending ++ (waiting ∷ []) })

  unfoldable pub decide_bash : ToolCall P → String → Option ApprovalDecision → Desk P → Desk P
  decide_bash tc cmd none desk = hold tc (str_append "Run bash: " cmd) desk
  decide_bash tc cmd (some decision) desk =
      if not decision.approved
      then block tc (some (bash_denial cmd)) desk
      else approve tc (record desk { prefixes = desk.prefixes ++ decision.remember_prefix })

  unfoldable pub decide_tool : ToolCall P → Option ApprovalDecision → Desk P → Desk P
  decide_tool tc none desk = hold tc (str_append "Call " tc.name) desk
  decide_tool tc (some decision) desk =
      if not decision.approved then block tc (some (tool_denial tc.name)) desk else approve tc desk

  unfoldable pub check_bash : Policy → ToolCall P → String → Desk P → Desk P
  unfolding decide_bash
  check_bash policy tc cmd desk =
      if policy.bash_always_deny
      then block tc (some (policy_denial cmd)) desk
      else if policy.bash_always_allow
      then approve tc desk
      else if not (any (λ p. starts_with cmd p) desk.prefixes) && policy.require_approval
      then decide_bash tc cmd (Dict.get tc.id policy.decisions) desk
      else approve tc desk

  unfoldable pub check_tool : Policy → ToolCall P → Desk P → Desk P
  unfolding decide_tool
  check_tool policy tc desk =
      if policy.require_approval
      then decide_tool tc (Dict.get tc.id policy.decisions) desk
      else approve tc desk

  module _ ⦃e : Equality P⦄ (fingerprint : String → P → String) (command : P → String)
      (enabled : Bool) (policy : Policy) (outputs : List (ToolOutput P)) where
    unfoldable pub check_call : ToolCall P → Desk P → Desk P
    unfolding check_bash check_tool
    check_call tc desk =
        let (guard, verdict) =
          is_allowed enabled fingerprint desk.guard tc.name tc.params outputs in
        let judged = record desk { guard = guard } in
        elim verdict [
          | allowed ↦
              if is_bash tc.name
              then check_bash policy tc (command tc.params) judged
              else check_tool policy tc judged
          | reason ↦ block tc (some (refusal reason)) judged
        ]

    unfoldable pub check_calls : List (ToolCall P) → Desk P → Desk P
    check_calls [] desk = desk
    check_calls (tc ∷ calls) desk = check_calls calls (check_call tc desk)
