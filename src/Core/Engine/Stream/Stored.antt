-- ===== src/Core/Engine/Stream/Stored.antt =====
-- The conversation that a step of the streaming loop of core/engine.py leaves, and the one that it
-- stores.
use vishwakarma.Prelude.{
  ℕ, ◌+◌, String, ◌≡◌, refl, subst, Bool, true, false, List, [], ◌∷◌, ◌++◌, arith, str_eq, Equality,
  all,
}
use vishwakarma.Prelude.Dict.{Dict}
use vishwakarma.Core.Conversation.{
  ToolCall, Message, Content, message, user, assistant, text, no_tools_yet,
}
use vishwakarma.Core.Engine.Outputs.{Executed}
use vishwakarma.Core.Engine.Replies.{Adds}
use vishwakarma.Core.Engine.State.{Environment, Settings, max_llm_retries}
use vishwakarma.Core.Engine.Steps.{asking}
use vishwakarma.Core.Engine.Stream.Chunks.{Source, Stage, stream_with_retries, dispatch_rest}
use vishwakarma.Core.Engine.Stream.Kept.{
  if-holds, ok-holds, if-holds_eq, option-holds_eq, list-holds,
}
use vishwakarma.Core.Engine.Stream.Paired.{
  answered, stream_replies-ids, dispatch_rest-dealt, compress_results-Holds, all-answered,
}
use vishwakarma.Core.Engine.Stream.Rounds.{
  StreamRun, StreamOutcome, StreamStep, checkpoint, ask_aborted, say, stage_of, leave, conclude,
  compress_results, close_round, gather, gathered, act, respond, make_ready, ask_model, stream_step,
  raised, stop, go_on,
}
use vishwakarma.Core.Engine.Stream.Gather.{stream_replies}

module _ {P W : Type 0} ⦃e : Equality P⦄ (env : Environment P W) (source : Source P W)
    (s : Settings P) where
  module _ (incident : String) where
    -- the conversation of the run was stored last, if the run has an incident
    abbrev pub Stored : ℕ → StreamRun P W → Type 0
    Stored steps r =
        str_eq incident "" ≡ false
        → (w : W) × (r.run.world ≡ source.save incident r.run.messages steps w)

    checkpoint-Stored :
        (n : ℕ) (r : StreamRun P W) → Stored n (checkpoint env source s incident n r)
    unfolding checkpoint
    checkpoint-Stored n r h = rw h (r.run.world, refl)

    checkpoint-messages :
        (n : ℕ) (r : StreamRun P W)
        → (checkpoint env source s incident n r).run.messages ≡ r.run.messages
    unfolding checkpoint
    checkpoint-messages n r = ground arith

    -- what a step that goes on did
    pub data Advanced (n : ℕ) (nudged : Bool) (before : List (Message P)) (r : StreamRun P W)
        : Type 0 where
      replied : Adds before r.run.messages → Stored n r → Advanced n nudged before r
      directed :
          (content : String)
          → nudged ≡ false
          → r.nudged ≡ true
          → r.run.messages
            ≡ before ++ (message assistant (text content) ∷ message user no_tools_yet ∷ [])
          → Advanced n nudged before r

    close_round-Advanced :
        (n : ℕ) (nudged : Bool) (r : StreamRun P W) (content : String) (calls : List (ToolCall P))
        (blocked : Dict Content) (results : Executed P)
        → all (λ tc. answered blocked results tc.id) calls ≡ true
        → Advanced n nudged r.run.messages
            (close_round env source s incident n r content calls blocked results)
    unfolding close_round
    close_round-Advanced n nudged r content calls blocked results h =
        let replies = stream_replies blocked results calls in
        let said = say env source s incident (asking content calls ∷ replies) r in
        replied
          (
            content,
            calls,
            replies,
            checkpoint-messages n said,
            stream_replies-ids blocked results calls h,
          )
          (checkpoint-Stored n said)

    abbrev Goes : ℕ → Bool → List (Message P) → StreamStep P W → Type 0
    Goes n nudged before st = (r' : StreamRun P W) → st ≡ go_on r' → Advanced n nudged before r'

    stop-Goes :
        (n : ℕ) (nudged : Bool) (before : List (Message P)) (o : StreamOutcome P W)
        → Goes n nudged before (stop o)
    stop-Goes n nudged before o r' h = ground arith

    go_on-Goes :
        (n : ℕ) (nudged : Bool) (before : List (Message P)) (r : StreamRun P W)
        → Advanced n nudged before r
        → Goes n nudged before (go_on r)
    go_on-Goes n nudged before r a r' h = subst (Advanced n nudged before) (ground arith) a

    act-Goes :
        (n : ℕ) (r : StreamRun P W) (stage : Stage P W)
        → Goes n r.nudged r.run.messages (act env source s incident n r stage)
    unfolding act
    act-Goes n r streamed =
        let early = streamed.blocked in
        let stage = dispatch_rest env source s r.run.outputs early streamed.calls streamed in
        let seen =
          dispatch_rest-dealt env source s r.run.outputs early streamed.calls streamed
            (λ k m. ground (arith, m)) in
        let g = gather env source s incident stage in
        let (compressed, w) = compress_results env source s incident g.results stage.world in
        let left = gathered env source s incident (leave env source s incident stage r) g w in
        option-holds_eq (Goes n r.nudged r.run.messages) compressed _ _
          (stop-Goes n r.nudged r.run.messages (raised left))
          (λ results e. go_on-Goes n r.nudged r.run.messages _ (
            close_round-Advanced n r.nudged left streamed.content streamed.calls g.blocked results (
              all-answered env source s incident streamed.calls stage results
                (compress_results-Holds env source s incident g.results results stage.world e)
                seen)))

    conclude-Goes :
        (n : ℕ) (r : StreamRun P W) (content : String)
        → Goes n r.nudged r.run.messages (conclude env source s incident n r content)
    unfolding conclude
    conclude-Goes n r content =
        let done = stop-Goes n r.nudged r.run.messages _ in
        list-holds (Goes n r.nudged r.run.messages) r.run.outputs _ _
          (if-holds_eq (Goes n r.nudged r.run.messages) r.nudged _ _ (λ _. done)
            (λ e. go_on-Goes n r.nudged r.run.messages _ (directed content e refl refl)))
          done

    respond-Goes :
        (n : ℕ) (r : StreamRun P W) (stage : Stage P W)
        → Goes n r.nudged r.run.messages (respond env source s incident n r stage)
    unfolding respond
    respond-Goes n r stage =
        list-holds (Goes n r.nudged r.run.messages) stage.calls _ _
          (conclude-Goes n (leave env source s incident stage r) stage.content) (act-Goes n r stage)

    ask_model-Goes :
        (n : ℕ) (r : StreamRun P W)
        → Goes n r.nudged r.run.messages (ask_model env source s incident n r)
    unfolding ask_model
    ask_model-Goes n r =
        let (ok, stage) =
          stream_with_retries env source s r.run.outputs max_llm_retries r.run.messages
            (stage_of env source s incident r) in
        ok-holds (Goes n r.nudged r.run.messages) ok _ _ (λ _. respond-Goes n r stage)
          (λ _. stop-Goes n r.nudged r.run.messages _)

    -- the run when the model is asked
    unfoldable pub ready_run : ℕ → StreamRun P W → StreamRun P W
    unfolding make_ready ask_aborted
    ready_run n r = make_ready env source s incident n (ask_aborted env source s incident r).1

    ready_run-nudged : (n : ℕ) (r : StreamRun P W) → (ready_run n r).nudged ≡ r.nudged
    unfolding ready_run make_ready ask_aborted
    ready_run-nudged n r = ground arith

    stream_step-Goes :
        (n : ℕ) (r : StreamRun P W)
        → Goes
            (n + 1)
            (ready_run n r).nudged
            (ready_run n r).run.messages
            (stream_step env source s incident n r)
    unfolding stream_step ready_run
    stream_step-Goes n r =
        if-holds (Goes (n + 1) (ready_run n r).nudged (ready_run n r).run.messages)
          (ask_aborted env source s incident r).0 _ _ (stop-Goes (n + 1) _ _ _)
          (ask_model-Goes (n + 1) (ready_run n r))

    -- A step that the streaming loop goes on from adds to the prepared conversation the assistant's
    -- message and a reply to every call of it and no other, in the order of the calls, and the
    -- conversation is stored at once, if the run has an incident; or, if it has not done so yet, it
    -- adds an answer without calls, which it refuses, and a message that asks for tools.
    pub stream_step-Advanced :
        (n : ℕ) (r r' : StreamRun P W)
        → stream_step env source s incident n r ≡ go_on r'
        → Advanced (n + 1) r.nudged (ready_run n r).run.messages r'
    stream_step-Advanced n r r' h =
        subst (λ b. Advanced (n + 1) b (ready_run n r).run.messages r') (ready_run-nudged n r)
          (stream_step-Goes n r r' h)
