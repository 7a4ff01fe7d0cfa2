-- ===== src/Core/Engine/Approval.antt =====
-- Which calls core/engine.py runs with and without the user's approval.
use vishwakarma.Core.Safeguards.{is_allowed}
use text.Mathlib.Text.{starts_with}
use vishwakarma.Prelude.{
  String, ◌≡◌, refl, inl, inr, Bool, true, false, not, ◌&&◌, ◌||◌, none, some, List, [], ◌∷◌, ◌++◌,
  arith, Equality, Option-cases, any, all,
}
use vishwakarma.Prelude.Dict
use vishwakarma.Prelude.Dict.{Dict}
use vishwakarma.Core.Models.{ToolOutput}
use vishwakarma.Core.Conversation.{ToolCall}
use vishwakarma.Core.Engine.Checks.{
  Policy, Desk, is_bash, approve, decide_bash, decide_tool, check_bash, check_tool, check_call,
  check_calls,
}

-- the user approved this very call
abbrev pub is_approved : {P : Type 0} → Policy → ToolCall P → Bool
is_approved policy tc = elim (Dict.get tc.id policy.decisions) [
  | none ↦ false
  | some decision ↦ decision.approved
]

abbrev pub starts_with_any : List String → String → Bool
starts_with_any prefixes cmd = any (λ p. starts_with cmd p) prefixes

starts_with_any-append :
    (ps qs : List String) (cmd : String)
    → starts_with_any (ps ++ qs) cmd ≡ starts_with_any ps cmd || starts_with_any qs cmd
starts_with_any-append [] qs cmd = refl
starts_with_any-append (p ∷ ps) qs cmd = ground (arith, starts_with_any-append ps qs cmd)

all-append :
    {A : Type 0} → (p : A → Bool) (xs ys : List A) → all p (xs ++ ys) ≡ all p xs && all p ys
all-append p [] ys = refl
all-append p (x ∷ xs) ys = ground (arith, all-append p xs ys)

-- the calls that may run: what is not a command was approved, and a command was approved or starts
-- with a prefix
abbrev pub may_run : {P : Type 0} → Policy → (P → String) → List String → ToolCall P → Bool
may_run policy command prefixes tc =
    is_approved policy tc || (is_bash tc.name && starts_with_any prefixes (command tc.params))

module _ {P : Type 0} ⦃e : Equality P⦄ (fingerprint : String → P → String) (command : P → String)
    (enabled : Bool) (policy : Policy) (outputs : List (ToolOutput P)) where
  all-may_run :
      (ps qs : List String) (tcs : List (ToolCall P))
      → all (may_run policy command ps) tcs ≡ true
      → all (may_run policy command (ps ++ qs)) tcs ≡ true
  all-may_run ps qs [] h = refl
  all-may_run ps qs (tc ∷ tcs) h =
      ground (arith, all-may_run ps qs tcs, starts_with_any-append ps qs (command tc.params))

  denied_call :
      (tc : ToolCall P) (desk : Desk P)
      → policy.bash_always_deny ≡ true
      → all (λ c. not (is_bash c.name)) desk.to_execute ≡ true
      → all
          (λ c. not (is_bash c.name))
          (check_call fingerprint command enabled policy outputs tc desk).to_execute
        ≡ true
  unfolding check_call check_bash check_tool decide_tool
  denied_call tc desk deny h =
      ground (arith, all-append (λ c. not (is_bash c.name)) desk.to_execute (tc ∷ []))

  -- Under the policy that denies commands no call of the command tools is let through, whatever the
  -- user approved, if none was before.
  pub check_calls-denied :
      (calls : List (ToolCall P)) (desk : Desk P)
      → policy.bash_always_deny ≡ true
      → all (λ c. not (is_bash c.name)) desk.to_execute ≡ true
      → all
          (λ c. not (is_bash c.name))
          (check_calls fingerprint command enabled policy outputs calls desk).to_execute
        ≡ true
  unfolding check_calls
  check_calls-denied [] desk deny h = h
  check_calls-denied (tc ∷ calls) desk deny h =
      check_calls-denied calls (check_call fingerprint command enabled policy outputs tc desk) deny
        (denied_call tc desk deny h)

  -- the property of a desk that the calls keep
  abbrev MayRun : Desk P → Type 0
  MayRun desk = all (may_run policy command desk.prefixes) desk.to_execute ≡ true

  approve-MayRun :
      (tc : ToolCall P) (more : List String) (desk : Desk P)
      → may_run policy command (desk.prefixes ++ more) tc ≡ true
      → MayRun desk
      → MayRun (approve tc (record desk { prefixes = desk.prefixes ++ more }))
  approve-MayRun tc more desk m h = ground (
    arith,
    all-append (may_run policy command (desk.prefixes ++ more)) desk.to_execute (tc ∷ []),
    all-may_run desk.prefixes more desk.to_execute,
  )

  approve_same-MayRun :
      (tc : ToolCall P) (desk : Desk P)
      → may_run policy command desk.prefixes tc ≡ true
      → MayRun desk
      → MayRun (approve tc desk)
  approve_same-MayRun tc desk m h =
      ground (arith, all-append (may_run policy command desk.prefixes) desk.to_execute (tc ∷ []))

  check_tool-MayRun :
      (tc : ToolCall P) (desk : Desk P)
      → policy.require_approval ≡ true
      → MayRun desk
      → MayRun (check_tool policy tc desk)
  unfolding check_tool decide_tool
  check_tool-MayRun tc desk require h = ground (arith, approve_same-MayRun tc desk)

  check_bash-MayRun :
      (tc : ToolCall P) (desk : Desk P)
      → policy.require_approval ≡ true
      → policy.bash_always_allow ≡ false
      → is_bash tc.name ≡ true
      → MayRun desk
      → MayRun (check_bash policy tc (command tc.params) desk)
  unfolding check_bash decide_bash
  check_bash-MayRun tc desk require asks bash h =
      elim (Option-cases (Dict.get tc.id policy.decisions)) [
        | inl undecided ↦ rw undecided (ground (arith, approve_same-MayRun tc desk))
        | inr (decision, e) ↦
            ground (
              arith,
              e,
              approve_same-MayRun tc desk,
              approve-MayRun tc decision.remember_prefix desk,
            )
      ]

  approved_call :
      (tc : ToolCall P) (desk : Desk P)
      → policy.require_approval ≡ true
      → policy.bash_always_allow ≡ false
      → MayRun desk
      → MayRun (check_call fingerprint command enabled policy outputs tc desk)
  unfolding check_call
  approved_call tc desk require asks h =
      let (guard, verdict) = is_allowed enabled fingerprint desk.guard tc.name tc.params outputs in
      let judged = record desk { guard = guard } in
      ground (arith, check_bash-MayRun tc judged, check_tool-MayRun tc judged)

  -- With approval required and commands not always allowed, every call that is let through was
  -- approved by the user under its id, or is a command that starts with an approved prefix, if that
  -- held of the calls before.
  pub check_calls-approved :
      (calls : List (ToolCall P)) (desk : Desk P)
      → policy.require_approval ≡ true
      → policy.bash_always_allow ≡ false
      → all (may_run policy command desk.prefixes) desk.to_execute ≡ true
      → all
          (may_run policy command
            (check_calls fingerprint command enabled policy outputs calls desk).prefixes)
          (check_calls fingerprint command enabled policy outputs calls desk).to_execute
        ≡ true
  unfolding check_calls
  check_calls-approved [] desk require asks h = h
  check_calls-approved (tc ∷ calls) desk require asks h =
      check_calls-approved calls (check_call fingerprint command enabled policy outputs tc desk)
        require asks (approved_call tc desk require asks h)
