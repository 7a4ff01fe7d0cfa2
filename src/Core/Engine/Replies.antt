-- ===== src/Core/Engine/Replies.antt =====
-- After a step of core/engine.py that goes on, every call of the assistant's message has its reply.
use vishwakarma.Core.Models.{ToolOutput, PendingApproval}
use vishwakarma.Core.Conversation.{ToolCall, Message, Content}
use vishwakarma.Core.Engine.Outputs.{Executed}
use vishwakarma.Core.Engine.Steps.{
  answer_calls, asking, complete_with_retries, run_tools, compress_executed,
}
use vishwakarma.Core.Engine.State.{Environment, Settings, Run, max_llm_retries, go_on}
use vishwakarma.Core.Engine.Loop.{prepare, judge, close_step, answered, act, respond, step}
use vishwakarma.Core.Engine.Pairing.{
  replied, ids, reply_ids, answer_calls-ids, on_desk, open_calls, check_calls-Advances,
  check_calls-on_desk,
}
use vishwakarma.Prelude.{
  ℕ, ◌+◌, String, ◌≡◌, refl, sym, ap, inl, inr, true, false, Option, none, some, List, [], ◌∷◌,
  ◌++◌, arith, Equality, Option-cases, all,
}
use vishwakarma.Core.Engine.Checks.{Desk, check_calls}
use vishwakarma.Prelude.Dict.{Dict, get-empty}
use vishwakarma.Core.Engine.Answers.{run_tools-replied, compress_executed-Holds}

on_some :
    {A B : Type 0}
    → (o : Option A) (a : A) (x : B) (f : A → B) (r : B) → o ≡ some a
    → (elim o [ none ↦ x | some d ↦ f d ]) ≡ r
    → f a ≡ r
on_some none a x f r e h = cc
on_some (some d) a x f r e h = ground (arith, e, h)

module _ {P : Type 0} where
  -- what a step adds to the conversation
  abbrev pub Adds : List (Message P) → List (Message P) → Type 0
  Adds before after =
      (content : String) × (calls : List (ToolCall P)) × (replies : List (Message P)) × (after
        ≡ before ++ (asking content calls ∷ replies))
      × (reply_ids replies ≡ ids calls)

module _ {P W : Type 0} where
  module _ ⦃e : Equality P⦄ (env : Environment P W) (s : Settings P) where
    act-replied :
        (k : String) (run : Run P W) (calls : List (ToolCall P)) (done : Executed P)
        → let desk = judge env s run calls in
          let ((executed, blocked), w) = run_tools env desk.to_execute [] desk.blocked run.world in
          open_calls desk ≡ false
          → on_desk desk k ≡ true
          → (compress_executed env desk.to_execute executed w).0 ≡ some done
          → replied done blocked k ≡ true
    unfolding judge
    act-replied k run calls done shut seen h =
        let desk = judge env s run calls in
        let ((executed, blocked), w) = run_tools env desk.to_execute [] desk.blocked run.world in
        let nothing = get-empty {V = ToolOutput P × Content} k in
        let moved =
          check_calls-Advances s.fingerprint s.command s.safeguards_enabled s.policy run.outputs k
            calls
            (record {
              guard = run.guard;
              prefixes = run.prefixes;
              pending = [];
              blocked = [];
              to_execute = [];
            }) in
        let settles = moved.closed (λ _. ground (arith, get-empty {V = Option Content} k)) shut in
        let answered =
          run_tools-replied env k desk.to_execute [] desk.blocked run.world settles
            (ground (arith, nothing)) in
        ground (arith, compress_executed-Holds env desk.to_execute executed done w h k)

    all-replied :
        (executed : Executed P) (blocked : Dict (Option Content)) (desk : Desk P)
        (calls : List (ToolCall P))
        → ((k : String) → on_desk desk k ≡ true → replied executed blocked k ≡ true)
        → all (on_desk desk) (ids calls) ≡ true
        → all (λ tc. replied executed blocked tc.id) calls ≡ true
    all-replied executed blocked desk [] f h = refl
    all-replied executed blocked desk (tc ∷ calls) f h =
        ground (arith, f tc.id, all-replied executed blocked desk calls f)

    close_step-go_on :
        (steps : ℕ) (run run' : Run P W) (pending : List (PendingApproval P))
        → close_step env s steps run pending ≡ go_on run'
        → (pending ≡ []) × (run ≡ run')
    unfolding close_step
    close_step-go_on steps run run' [] h = (refl, ground arith)
    close_step-go_on steps run run' (p ∷ ps) h = ground arith

    act-Adds :
        (steps : ℕ) (run run' : Run P W) (content : String) (calls : List (ToolCall P))
        → act env s steps run content calls ≡ go_on run'
        → Adds run.messages run'.messages
    unfolding act answered judge check_calls
    act-Adds steps run run' content calls h =
        let desk = judge env s run calls in
        let ((executed, blocked), w) = run_tools env desk.to_execute [] desk.blocked run.world in
        let (compressed, w') = compress_executed env desk.to_execute executed w in
        elim (Option-cases compressed) [
          | inl failed ↦ ground (arith, failed)
          | inr (done, e) ↦
              let after = answered env s run content calls desk done blocked w' in
              let (shut, same) = close_step-go_on steps after run' desk.pending (
                on_some compressed done _
                  (λ d.
                    close_step env s steps (answered env s run content calls desk d blocked w')
                      desk.pending)
                  (go_on run') e h) in
              let replied_all =
                all-replied done blocked desk calls
                  (λ k seen. act-replied k run calls done (ground (arith, shut)) seen e)
                  (check_calls-on_desk s.fingerprint s.command s.safeguards_enabled s.policy
                    run.outputs calls _) in
              (
                content,
                calls,
                (answer_calls done blocked calls).0,
                sym (ap (λ r. r.messages) same),
                answer_calls-ids done blocked calls replied_all,
              )
        ]

    respond-Adds :
        (steps : ℕ) (run run' : Run P W) (content : String) (calls : List (ToolCall P))
        → respond env s steps run content calls ≡ go_on run'
        → Adds run.messages run'.messages
    unfolding respond
    respond-Adds steps run run' content [] h = ground arith
    respond-Adds steps run run' content (tc ∷ calls) h =
        act-Adds steps run run' content (tc ∷ calls) h

    -- A step that the loop goes on from adds to the prepared conversation the assistant's message
    -- and the replies to its calls: a reply to every call and no other, in the order of the calls.
    pub step-Adds :
        (n : ℕ) (run run' : Run P W)
        → step env s n run ≡ go_on run'
        → Adds (prepare env s n run).messages run'.messages
    unfolding step
    step-Adds n run run' h =
        let ready = prepare env s n run in
        let (response, w) = complete_with_retries env max_llm_retries ready.messages ready.world in
        elim (Option-cases response) [
          | inl failed ↦ ground (arith, failed)
          | inr (r, e) ↦
              respond-Adds (n + 1) (record ready { world = w }) run' r.content r.tool_calls
                (on_some response r _
                  (λ a. respond env s (n + 1) (record ready { world = w }) a.content a.tool_calls)
                  (go_on run') e h)
        ]
