-- ===== src/Core/Engine/Rulings.antt =====
-- The three things that a pre-check of core/engine.py can do with a call: refuse it, hold it for a
-- decision, or let it through.
use vishwakarma.Prelude.{
  String, Bool, true, false, not, Option, none, some, List, ◌++◌, Equality, if◌then◌else◌,
  str_append,
}
use vishwakarma.Prelude.Dict
use vishwakarma.Core.Models.{ToolOutput, ApprovalDecision}
use vishwakarma.Core.Safeguards.{LoopGuard, is_allowed, allowed, Verdict, already_called, too_many}
use vishwakarma.Core.Conversation.{
  ToolCall, Content, refusal, policy_denial, bash_denial, tool_denial,
}
use vishwakarma.Core.Engine.Checks.{
  Policy, Desk, is_bash, block, approve, hold, decide_bash, decide_tool, check_bash, check_tool,
  check_call,
}

if-holds : {A : Type 0} → (Q : A → Type 0) (b : Bool) (x y : A) → Q x → Q y → Q (if b then x else y)
if-holds Q true x y qx qy = qx
if-holds Q false x y qx qy = qy

verdict-holds :
    {A : Type 0}
    → (Q : A → Type 0) (v : Verdict) (x : A) (y : Verdict → A) → Q x
    → ((reason : Verdict) → Q (y reason))
    → Q (elim v [ allowed ↦ x | reason ↦ y reason ])
verdict-holds Q allowed x y qx qy = qx
verdict-holds Q (already_called t) x y qx qy = qy (already_called t)
verdict-holds Q (too_many t n) x y qx qy = qy (too_many t n)

module _ {P : Type 0} where
  -- the desk with what a check may write before it rules
  abbrev pub noted : LoopGuard → List String → Desk P → Desk P
  noted guard prefixes desk = record desk { guard = guard; prefixes = prefixes }

  -- `Q` holds after whatever the check of `tc` does
  pub record Ruled (Q : Desk P → Type 0) (tc : ToolCall P) (desk : Desk P) : Type 0 where
    pub on_refuse :
        (c : Content) (g : LoopGuard) (ps : List String) → Q (block tc (some c) (noted g ps desk))
    pub on_hold : (t : String) (g : LoopGuard) (ps : List String) → Q (hold tc t (noted g ps desk))
    pub on_approve : (g : LoopGuard) (ps : List String) → Q (approve tc (noted g ps desk))

  module _ (Q : Desk P → Type 0) (policy : Policy) (tc : ToolCall P) (desk : Desk P)
      (r : Ruled Q tc desk) (g : LoopGuard) where
    decide_bash-holds :
        (cmd : String) (o : Option ApprovalDecision)
        → Q (decide_bash tc cmd o (noted g desk.prefixes desk))
    unfolding decide_bash
    decide_bash-holds cmd none = r.on_hold (str_append "Run bash: " cmd) g desk.prefixes
    decide_bash-holds cmd (some d) =
        if-holds Q (not d.approved) _ _ (r.on_refuse (bash_denial cmd) g desk.prefixes)
          (r.on_approve g (desk.prefixes ++ d.remember_prefix))

    decide_tool-holds :
        (o : Option ApprovalDecision) → Q (decide_tool tc o (noted g desk.prefixes desk))
    unfolding decide_tool
    decide_tool-holds none = r.on_hold (str_append "Call " tc.name) g desk.prefixes
    decide_tool-holds (some d) =
        if-holds Q (not d.approved) _ _ (r.on_refuse (tool_denial tc.name) g desk.prefixes)
          (r.on_approve g desk.prefixes)

    check_bash-holds : (cmd : String) → Q (check_bash policy tc cmd (noted g desk.prefixes desk))
    unfolding check_bash
    check_bash-holds cmd = if-holds Q _ _ _ (r.on_refuse (policy_denial cmd) g desk.prefixes) (
        if-holds Q _ _ _ (r.on_approve g desk.prefixes) (
          if-holds Q _ _ _ (decide_bash-holds cmd (Dict.get tc.id policy.decisions))
            (r.on_approve g desk.prefixes)))

    check_tool-holds : Q (check_tool policy tc (noted g desk.prefixes desk))
    unfolding check_tool
    check_tool-holds =
        if-holds Q _ _ _ (decide_tool-holds (Dict.get tc.id policy.decisions))
          (r.on_approve g desk.prefixes)

  module _ ⦃e : Equality P⦄ (fingerprint : String → P → String) (command : P → String)
      (enabled : Bool) (policy : Policy) (outputs : List (ToolOutput P)) where
    pub check_call-holds :
        (Q : Desk P → Type 0) (tc : ToolCall P) (desk : Desk P)
        → Ruled Q tc desk
        → Q (check_call fingerprint command enabled policy outputs tc desk)
    unfolding check_call
    check_call-holds Q tc desk r =
        let (g, v) = is_allowed enabled fingerprint desk.guard tc.name tc.params outputs in
        verdict-holds Q v _
          (λ reason. block tc (some (refusal reason)) (noted g desk.prefixes desk))
          (if-holds Q (is_bash tc.name) _ _
            (check_bash-holds Q policy tc desk r g (command tc.params))
            (check_tool-holds Q policy tc desk r g))
          (λ reason. r.on_refuse (refusal reason) g desk.prefixes)
