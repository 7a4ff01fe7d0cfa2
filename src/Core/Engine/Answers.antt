-- ===== src/Core/Engine/Answers.antt =====
-- What the tools of core/engine.py leave, and that the compression of their outputs drops none.

use vishwakarma.Core.Conversation.{ToolCall, Content, text, execution_error}
use vishwakarma.Core.Engine.Outputs.{
  Prompt, Executed, set_content, sections_of, large_outputs, set_sections, compress_each,
  compress_large, compress_tool_outputs, capped, whole, batch,
}
use vishwakarma.Core.Engine.Steps.{shown, run_tools, compress_executed}
use vishwakarma.Core.Engine.State.{Environment}
use vishwakarma.Core.Engine.Pairing.{is_some, settled, replied, has_id}
use vishwakarma.Prelude.{
  ℕ, String, ◌≡◌, refl, ◌∙◌, inl, inr, Bool, true, ◌||◌, Option, some, List, [], ◌∷◌, map, arith,
  Option-cases, length,
}
use vishwakarma.Prelude.Dict
use vishwakarma.Prelude.Dict.{Dict, get-put, get-empty}

module _ {P : Type 0} where
  -- a reply is at hand, or the call is still to be run
  abbrev pub expected : List (ToolCall P) → Executed P → Dict (Option Content) → String → Bool
  expected calls executed blocked k =
      is_some (Dict.get k blocked) || (is_some (Dict.get k executed) || has_id k calls)

  abbrev pub Holds : Executed P → Executed P → Type 0
  Holds before after = (k : String) → is_some (Dict.get k after) ≡ is_some (Dict.get k before)

  set_content-Holds :
      (cid : String) (c : Content) (ex : Executed P) → Holds ex (set_content cid c ex)
  unfolding set_content Dict.get
  set_content-Holds cid c [] k = refl
  set_content-Holds cid c ((j, (o, old)) ∷ ex) k = ground (arith, set_content-Holds cid c ex k)

module _ {P W : Type 0} where
  pub run_tools-replied :
      (env : Environment P W) (k : String) (calls : List (ToolCall P)) (executed : Executed P)
      (blocked : Dict (Option Content)) (w : W)
      → settled blocked k ≡ true
      → expected calls executed blocked k ≡ true
      → let ((executed', blocked'), _) = run_tools env calls executed blocked w in
        replied executed' blocked' k ≡ true
  unfolding run_tools
  run_tools-replied env k [] executed blocked w s h = ground arith
  run_tools-replied env k (tc ∷ calls) executed blocked w s h =
      let (result, w') = env.execute tc.name tc.params w in
      elim (Option-cases result) [
        | inl failed ↦
            let blocked' = Dict.put tc.id (some (execution_error tc.name)) blocked in
            let step = get-put tc.id k (some (execution_error tc.name)) blocked in
            ground (arith, failed, step, run_tools-replied env k calls executed blocked' w')
        | inr (o, e) ↦
            let output = record o { tool_call_id = tc.id; params = tc.params } in
            let executed' = Dict.put tc.id (output, shown output) executed in
            let step = get-put tc.id k (output, shown output) executed in
            ground (arith, e, step, run_tools-replied env k calls executed' blocked w')
      ]

  module _ (chars : Content → ℕ) (summarize : Prompt → W → Option String × W)
      (parse : String → ℕ → Option (List String)) where
    set_sections-Holds :
        (large : List (String × (String × Content))) (sections : List String) (ex : Executed P)
        → Holds ex (set_sections chars summarize parse large sections ex)
    unfolding set_sections
    set_sections-Holds [] sections ex k = refl
    set_sections-Holds (l ∷ large) [] ex k = refl
    set_sections-Holds ((cid, l) ∷ large) (s ∷ sections) ex k =
        set_sections-Holds large sections (set_content cid (text s) ex) k
        ∙ set_content-Holds cid (text s) ex k

    compress_each-Holds :
        (large : List (String × (String × Content))) (ex : Executed P) (w : W)
        → Holds ex (compress_each chars summarize parse large ex w).0
    unfolding compress_each
    compress_each-Holds [] ex w k = refl
    compress_each-Holds ((cid, (name, content)) ∷ large) ex w k =
        let (answer, w') = summarize (whole name content) w in
        elim (Option-cases answer) [
          | inl failed ↦ rw (compress_each, failed) (compress_each-Holds large ex w' k)
          | inr (s, e) ↦
              rw (compress_each, e)
                (compress_each-Holds large (set_content cid (text s) ex) w' k
                  ∙ set_content-Holds cid (text s) ex k)
        ]

    pub compress_large-Holds :
        (large : List (String × (String × Content))) (ex after : Executed P) (w : W)
        → (compress_large chars summarize parse large ex w).0 ≡ some after
        → Holds ex after
    unfolding compress_large
    compress_large-Holds [] ex after w h k = ground arith
    compress_large-Holds ((cid, (name, content)) ∷ []) ex after w h k =
        let (answer, w') = summarize (capped name content) w in
        elim (Option-cases answer) [
          | inl failed ↦ ground (arith, failed)
          | inr (s, e) ↦ ground (arith, e, set_content-Holds cid (text s) ex k)
        ]
    compress_large-Holds (l ∷ l' ∷ large) ex after w h k =
        let all_large = l ∷ l' ∷ large in
        let (answer, w') = summarize (batch (map (λ x. x.1) all_large)) w in
        elim (Option-cases (sections_of parse answer (length all_large))) [
          | inl failed ↦ ground (arith, failed, compress_each-Holds all_large ex w' k)
          | inr (sections, e) ↦ ground (arith, e, set_sections-Holds all_large sections ex k)
        ]

  pub compress_executed-Holds :
      (env : Environment P W) (calls : List (ToolCall P)) (ex after : Executed P) (w : W)
      → (compress_executed env calls ex w).0 ≡ some after
      → Holds ex after
  unfolding compress_executed compress_tool_outputs
  compress_executed-Holds env [] ex after w h k = ground arith
  compress_executed-Holds env (tc ∷ calls) ex after w h k =
      compress_large-Holds env.chars env.summarize env.parse
        (large_outputs env.chars env.summarize env.parse ex) ex after w h k
