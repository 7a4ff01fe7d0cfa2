-- ===== src/Core/Engine/Stream/Overlap.antt =====
-- That the streaming loop of core/engine.py starts tools while the model still writes, against
-- starting them after.
use vishwakarma.Prelude.Dict.{Dict, get-empty, get-put}
use vishwakarma.Prelude.{
  String, ◌≡◌, refl, sym, ap, subst, ◌∙◌, Bool, true, false, not, Option, none, some, List, [], ◌∷◌,
  ◌++◌, arith, str_eq, Equality, all,
}
use vishwakarma.Core.Models.{ToolOutput}
use vishwakarma.Core.Conversation.{ToolCall, Content}
use vishwakarma.Core.Engine.State.{Environment, Settings}
use vishwakarma.Core.Engine.Stream.Paired.{dealt, checked}
use vishwakarma.Core.Engine.Stream.Chunks.{
  Source, Stage, Chunk, is_key, check_tool_allowed, dispatch, rule, admit, read_chunk, read_chunks,
  dispatch_rest, finished, cleared,
}
use vishwakarma.Core.Engine.Stream.Admitted.{
  admit_all, admit_all-quiet, admit_all-same, read_chunks-announced, read_chunks-append,
  admit_all-append, admit_all-dealt, all-rest, Distinct-rest, quiet, Distinct, announced,
}

module _ {P W : Type 0} ⦃e : Equality P⦄ (env : Environment P W) (source : Source P W)
    (s : Settings P) (outputs : List (ToolOutput P)) where
  -- calls that were all dealt with are left alone
  dispatch_rest-dealt_with :
      (calls late : List (ToolCall P)) (stage : Stage P W)
      → all (λ tc. dealt stage tc.id) calls ≡ true
      → dispatch_rest env source s outputs stage.blocked (calls ++ late) stage
        ≡ dispatch_rest env source s outputs stage.blocked late stage
  unfolding dispatch_rest
  dispatch_rest-dealt_with [] late stage h = refl
  dispatch_rest-dealt_with (tc ∷ calls) late stage h =
      ground (arith, dispatch_rest-dealt_with calls late stage)

  rule-fresh :
      (k : String) (overlap : Bool) (tc : ToolCall P) (reason : Option Content) (stage : Stage P W)
      → str_eq tc.id k ≡ false
      → dealt (rule env source s outputs overlap tc reason stage) k ≡ dealt stage k
  unfolding rule dispatch
  rule-fresh k overlap tc none stage h =
      let (result, w) = env.execute tc.name tc.params stage.world in
      let future : Option (ToolOutput P) = elim result [
        | none ↦ none
        | some o ↦ some (record o { tool_call_id = tc.id; params = tc.params })
      ] in
      ground (arith, get-put tc.id k future stage.futures)
  rule-fresh k overlap tc (some reason) stage h =
      ground (arith, get-put tc.id k reason stage.blocked)

  admit-fresh :
      (k : String) (overlap : Bool) (tc : ToolCall P) (stage : Stage P W)
      → str_eq tc.id k ≡ false
      → dealt (admit env source s outputs overlap tc stage) k ≡ dealt stage k
  unfolding admit
  admit-fresh k overlap tc stage h =
      let (reason, judged) = check_tool_allowed env source s outputs tc stage in
      rule-fresh k overlap tc reason judged h ∙ checked env source s outputs tc stage k

  Fresh : List (ToolCall P) → Stage P W → Type 0
  Fresh calls stage = all (λ tc. not (dealt stage tc.id)) calls ≡ true

  admit-Fresh :
      (overlap : Bool) (tc : ToolCall P) (calls : List (ToolCall P)) (stage : Stage P W)
      → all (λ d. not (str_eq tc.id d.id)) calls ≡ true
      → Fresh calls stage
      → Fresh calls (admit env source s outputs overlap tc stage)
  unfolding Fresh
  admit-Fresh overlap tc [] stage h f = refl
  admit-Fresh overlap tc (d ∷ calls) stage h f =
      ground (arith, admit-fresh d.id overlap tc stage, admit-Fresh overlap tc calls stage)

  admit_all-Fresh :
      (overlap : Bool) (early late : List (ToolCall P)) (stage : Stage P W)
      → Distinct (early ++ late)
      → Fresh late stage
      → Fresh late (admit_all env source s outputs overlap early stage)
  admit_all-Fresh overlap [] late stage d f = f
  admit_all-Fresh overlap (tc ∷ early) late stage d f =
      admit_all-Fresh overlap early late (admit env source s outputs overlap tc stage) d.1 (
        admit-Fresh overlap tc late stage (all-rest (λ c. not (str_eq tc.id c.id)) early late d.0)
          f)

  -- calls that were not dealt with are admitted one after the other
  dispatch_rest-all :
      (blocked : Dict Content) (calls : List (ToolCall P)) (stage : Stage P W)
      → Distinct calls
      → Fresh calls stage
      → all (λ tc. not (is_key tc.id blocked)) calls ≡ true
      → dispatch_rest env source s outputs blocked calls stage
        ≡ admit_all env source s outputs false calls stage
  unfolding dispatch_rest Fresh
  dispatch_rest-all blocked [] stage d f b = refl
  dispatch_rest-all blocked (tc ∷ calls) stage d f b =
      let ih =
        dispatch_rest-all blocked calls (admit env source s outputs false tc stage) d.1
          (admit-Fresh false tc calls stage d.0 (ground (arith, f))) (ground (arith, b)) in
      ground (arith, f, b, ih)

  unblocked-Fresh :
      (calls : List (ToolCall P)) (stage : Stage P W)
      → Fresh calls stage
      → all (λ tc. not (is_key tc.id stage.blocked)) calls ≡ true
  unfolding Fresh
  unblocked-Fresh [] stage f = refl
  unblocked-Fresh (tc ∷ calls) stage f = ground (arith, f, unblocked-Fresh calls stage)

  empty-Fresh :
      (calls : List (ToolCall P)) (stage : Stage P W)
      → stage.futures ≡ []
      → stage.blocked ≡ []
      → Fresh calls stage
  unfolding Fresh
  empty-Fresh [] stage h g = refl
  empty-Fresh (tc ∷ calls) stage h g = ground (
    arith,
    h,
    g,
    get-empty {V = Option (ToolOutput P)} tc.id,
    get-empty {V = Content} tc.id,
    empty-Fresh calls stage h g,
  )

  -- the stage when all calls of an answer were dealt with
  abbrev pub dispatched : List (Chunk P) → Stage P W → Stage P W
  dispatched chunks start =
      let stage = read_chunks env source s outputs chunks start in
      dispatch_rest env source s outputs stage.blocked stage.calls stage

  -- what is left to do after an answer of which `early` was announced
  dispatched-late :
      (early late : List (ToolCall P)) (stage : Stage P W)
      → Distinct (early ++ late)
      → all (λ tc. dealt stage tc.id) early ≡ true
      → Fresh late stage
      → dispatch_rest env source s outputs stage.blocked (early ++ late) stage
        ≡ admit_all env source s outputs false late stage
  dispatched-late early late stage d h f =
      dispatch_rest-dealt_with early late stage h
      ∙ dispatch_rest-all stage.blocked late stage (Distinct-rest early late d) f
          (unblocked-Fresh late stage f)

  -- `finish` takes in the end of the answer, and `read` what a stream that announced `early` left
  dispatched-same :
      (finish : Stage P W → Stage P W) (early late : List (ToolCall P)) (read empty : Stage P W)
      → ((stage : Stage P W) → quiet (finish stage) ≡ quiet stage)
      → quiet read ≡ quiet (admit_all env source s outputs true early empty)
      → Distinct (early ++ late)
      → empty.futures ≡ []
      → empty.blocked ≡ []
      → quiet
          (dispatch_rest env source s outputs (finish read).blocked (early ++ late) (finish read))
        ≡ quiet (
            dispatch_rest env source s outputs
              (finish empty).blocked
              (early ++ late)
              (finish empty))
  unfolding Fresh
  dispatched-same finish early late read empty same q d h g =
      let calls = early ++ late in
      let begun = admit_all env source s outputs true early empty in
      let q' : quiet (finish read) ≡ quiet begun = same read ∙ q in
      let seen =
        subst (λ st. all (λ tc. dealt st tc.id) early ≡ true) (sym q')
          (admit_all-dealt env source s outputs true early empty) in
      let fresh =
        subst (λ st. Fresh late st) (sym q')
          (admit_all-Fresh true early late empty d (empty-Fresh late empty h g)) in
      let all_fresh =
        subst (λ st. Fresh calls st) (sym (same empty)) (empty-Fresh calls empty h g) in
      ap quiet (dispatched-late early late (finish read) d seen fresh)
      ∙ admit_all-same env source s outputs false late (finish read) begun q'
      ∙ admit_all-same env source s outputs false late begun
          (admit_all env source s outputs false early (finish empty))
          (admit_all-quiet env source s outputs true early empty (finish empty) (sym (same empty)))
      ∙ sym (
          ap quiet (
            dispatched-late [] calls (finish empty) d refl all_fresh
            ∙ admit_all-append env source s outputs false early late (finish empty)))

  -- Tool calls that a stream announces while the model still writes are checked, run and blocked as
  -- they are when the answer is read to its end first: guard, approvals, futures, reasons and world
  -- are the same, if the calls that are announced are the first of the answer, in its order, and no
  -- two calls of the answer have one id. Texts may come between, and the rest of the calls is started
  -- after the stream.
  pub dispatched-announced :
      (chunks : List (Chunk P)) (late : List (ToolCall P)) (content : Option String) (w : W)
      (start : Stage P W)
      → Distinct (announced chunks ++ late)
      → (let last = finished content (announced chunks ++ late) ∷ [] in
          let empty = cleared env source s outputs w start in
          quiet (dispatched (chunks ++ last) empty) ≡ quiet (dispatched last empty))
  unfolding read_chunks read_chunk
  dispatched-announced chunks late none w start d =
      let empty = cleared env source s outputs w start in
      let calls = announced chunks ++ late in
      rw (read_chunks-append env source s outputs chunks (finished none calls ∷ []) empty) (
        dispatched-same (read_chunk env source s outputs (finished none calls)) (announced chunks)
          late (read_chunks env source s outputs chunks empty) empty (λ st. refl)
          (read_chunks-announced env source s outputs chunks empty) d refl refl)
  dispatched-announced chunks late (some t) w start d =
      let empty = cleared env source s outputs w start in
      let calls = announced chunks ++ late in
      rw (read_chunks-append env source s outputs chunks (finished (some t) calls ∷ []) empty) (
        dispatched-same (read_chunk env source s outputs (finished (some t) calls))
          (announced chunks) late (read_chunks env source s outputs chunks empty) empty (λ st. refl)
          (read_chunks-announced env source s outputs chunks empty) d refl refl)
