-- ===== src/Core/Engine/Stream/Paired.antt =====
-- The replies of a step of the streaming loop of core/engine.py against its calls: every call was
-- started or blocked, and then has a result or a reason.
use vishwakarma.Prelude.{
  String, ◌≡◌, refl, Bool, true, false, ◌||◌, Option, none, some, List, [], ◌∷◌, ◌++◌, arith,
  str_eq, eq_iff, Equality, if◌then◌else◌, all,
}
use vishwakarma.Prelude.Dict
use vishwakarma.Prelude.Dict.{Dict, get-put, get-empty}
use vishwakarma.Core.Models.{ToolOutput}
use vishwakarma.Core.Conversation.{ToolCall, Content, execution_error}
use vishwakarma.Core.Engine.Outputs.{Executed, large_outputs, compress_tool_outputs}
use vishwakarma.Core.Engine.Answers.{Holds, compress_large-Holds}
use vishwakarma.Core.Engine.Pairing.{ids, reply_ids, reply_ids-append}
use vishwakarma.Core.Engine.State.{Environment, Settings}
use vishwakarma.Core.Engine.Steps.{shown}
use vishwakarma.Core.Engine.Stream.Chunks.{
  Source, Stage, is_key, decide_bash, decide_tool, check_bash, check_tool, check_tool_allowed,
  dispatch, rule, admit, dispatch_rest, tool_call_result,
}
use vishwakarma.Core.Engine.Stream.Kept.{Kept, if-holds, if-holds_eq, dispatch_rest-holds}
use vishwakarma.Core.Engine.Stream.Rounds.{compress_results, gather}
use vishwakarma.Core.Engine.Stream.Gather.{Gathered, collect, stream_reply, stream_replies}

module _ {P : Type 0} where
  -- a reply is at hand
  abbrev pub answered : Dict Content → Executed P → String → Bool
  answered blocked results k = is_key k blocked || is_key k results

  stream_reply-id :
      (blocked : Dict Content) (results : Executed P) (tc : ToolCall P)
      → answered blocked results tc.id ≡ true
      → reply_ids (stream_reply blocked results tc) ≡ tc.id ∷ []
  unfolding stream_reply
  stream_reply-id blocked results tc h = ground arith

  pub stream_replies-ids :
      (blocked : Dict Content) (results : Executed P) (calls : List (ToolCall P))
      → all (λ tc. answered blocked results tc.id) calls ≡ true
      → reply_ids (stream_replies blocked results calls) ≡ ids calls
  unfolding stream_replies
  stream_replies-ids blocked results [] h = refl
  stream_replies-ids blocked results (tc ∷ calls) h = ground (
    arith,
    reply_ids-append (stream_reply blocked results tc) (stream_replies blocked results calls),
    stream_reply-id blocked results tc,
    stream_replies-ids blocked results calls,
  )

  -- a future that stands under an id leaves a result or an error under it
  collect-answered :
      (k : String) (futures : Dict (Option (ToolOutput P))) (g : Gathered P)
      → is_key k futures || answered g.blocked g.results k ≡ true
      → answered (collect futures g).blocked (collect futures g).results k ≡ true
  unfolding collect Dict.get
  collect-answered k [] g h = h
  collect-answered k ((id, none) ∷ futures) g h = ground (
    arith,
    get-put id k (execution_error id) g.blocked,
    collect-answered k futures (record g { blocked = Dict.put id (execution_error id) g.blocked }),
  )
  collect-answered k ((id, some o) ∷ futures) g h = ground (
    arith,
    get-put id k (o, shown o) g.results,
    collect-answered k futures (record g {
      results = Dict.put id (o, shown o) g.results;
      outputs = g.outputs ++ (o ∷ []);
      events = g.events ++ (tool_call_result o.tool_name o.status o.invocation ∷ []);
    }),
  )

module _ {P W : Type 0} where
  -- the call was started or blocked
  abbrev pub dealt : Stage P W → String → Bool
  dealt stage k = is_key k stage.futures || is_key k stage.blocked

module _ {P W : Type 0} ⦃e : Equality P⦄ (env : Environment P W) (source : Source P W)
    (s : Settings P) where
  module _ (outputs : List (ToolOutput P)) where
    rule-stays :
        (k : String) (overlap : Bool) (tc : ToolCall P) (reason : Option Content)
        (stage : Stage P W)
        → dealt stage k || str_eq tc.id k ≡ true
        → dealt (rule env source s outputs overlap tc reason stage) k ≡ true
    unfolding rule dispatch
    rule-stays k overlap tc none stage h =
        let (result, w) = env.execute tc.name tc.params stage.world in
        let future : Option (ToolOutput P) = elim result [
          | none ↦ none
          | some o ↦ some (record o { tool_call_id = tc.id; params = tc.params })
        ] in
        ground (arith, get-put tc.id k future stage.futures)
    rule-stays k overlap tc (some reason) stage h =
        ground (arith, get-put tc.id k reason stage.blocked)

    pub checked :
        (tc : ToolCall P) (stage : Stage P W) (k : String)
        → dealt (check_tool_allowed env source s outputs tc stage).1 k ≡ dealt stage k
    unfolding check_tool_allowed check_bash check_tool decide_bash decide_tool
    checked tc stage k = ground arith

    pub admit-stays :
        (k : String) (overlap : Bool) (tc : ToolCall P) (stage : Stage P W)
        → dealt stage k || str_eq tc.id k ≡ true
        → dealt (admit env source s outputs overlap tc stage) k ≡ true
    unfolding admit
    admit-stays k overlap tc stage h =
        let (reason, judged) = check_tool_allowed env source s outputs tc stage in
        rule-stays k overlap tc reason judged (ground (arith, checked tc stage k))

    dealt_kept : (k : String) → Kept env source s outputs (λ stage. dealt stage k ≡ true)
    dealt_kept k = record {
      on_admit = λ overlap tc stage h. admit-stays k overlap tc stage (ground (arith, h));
      on_chunk = λ chunk content calls stage h. h;
    }

    pub dispatch_rest-dealt :
        (early : Dict Content) (calls : List (ToolCall P)) (stage : Stage P W)
        → ((k : String) → is_key k early ≡ true → dealt stage k ≡ true)
        → all (λ tc. dealt (dispatch_rest env source s outputs early calls stage) tc.id) calls
          ≡ true
    unfolding dispatch_rest
    dispatch_rest-dealt early [] stage h = refl
    dispatch_rest-dealt early (tc ∷ calls) stage h =
        let known = is_key tc.id stage.futures || is_key tc.id early in
        let next : Stage P W = if known then stage else admit env source s outputs false tc stage in
        let dealt_with : dealt next tc.id ≡ true =
          if-holds_eq (λ (st : Stage P W). dealt st tc.id ≡ true) known stage
            (admit env source s outputs false tc stage) (λ e. ground (arith, e, h tc.id))
            (λ e. admit-stays tc.id false tc stage (ground (arith, eq_iff tc.id tc.id))) in
        let later =
          dispatch_rest-holds env source s outputs _ (dealt_kept tc.id) early calls next
            dealt_with in
        let rest = dispatch_rest-dealt early calls next (λ k m.
          if-holds (λ (st : Stage P W). dealt st k ≡ true) known stage
            (admit env source s outputs false tc stage) (h k m)
            (admit-stays k false tc stage (ground (arith, h k m)))) in
        ground (arith, later, rest)

  module _ (incident : String) where
    pub compress_results-Holds :
        (results after : Executed P) (w : W)
        → (compress_results env source s incident results w).0 ≡ some after
        → Holds results after
    unfolding compress_results compress_tool_outputs
    compress_results-Holds [] after w h k = ground arith
    compress_results-Holds (r ∷ results) after w h k =
        compress_large-Holds env.chars env.summarize env.parse
          (large_outputs env.chars env.summarize env.parse (r ∷ results)) (r ∷ results) after w h k

    pub all-answered :
        (calls : List (ToolCall P)) (stage : Stage P W) (results : Executed P)
        → Holds (gather env source s incident stage).results results
        → all (λ tc. dealt stage tc.id) calls ≡ true
        → all (λ tc. answered (gather env source s incident stage).blocked results tc.id) calls
          ≡ true
    unfolding gather
    all-answered [] stage results h d = refl
    all-answered (tc ∷ calls) stage results h d =
        let seen =
          collect-answered tc.id stage.futures (record {
            results = [];
            blocked = stage.blocked;
            outputs = [];
            events = stage.events;
          }) in
        ground (arith, seen, h tc.id, all-answered calls stage results h)
