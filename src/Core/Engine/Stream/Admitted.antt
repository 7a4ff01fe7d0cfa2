-- ===== src/Core/Engine/Stream/Admitted.antt =====
-- What it takes to admit tool calls in the streaming loop of core/engine.py, while the model writes or
-- after it.
use vishwakarma.Prelude.{
  String, ◌≡◌, refl, sym, ap, ◌∙◌, Bool, true, false, not, none, some, List, [], ◌∷◌, ◌++◌, arith,
  str_eq, eq_iff, Equality, all,
}
use vishwakarma.Core.Models.{ToolOutput}
use vishwakarma.Core.Conversation.{ToolCall}
use vishwakarma.Core.Engine.State.{Environment, Settings}
use vishwakarma.Core.Engine.Stream.Paired.{dealt, admit-stays}
use vishwakarma.Core.Engine.Stream.Chunks.{
  Source, Stage, Chunk, decide_bash, decide_tool, check_bash, check_tool, check_tool_allowed,
  dispatch, rule, admit, read_chunk, read_chunks, tool_call_complete, finished, text_delta, other,
}

-- what a stage holds but for the events and the text
abbrev pub quiet : {P W : Type 0} → Stage P W → Stage P W
quiet stage = record stage { events = []; content = ""; calls = [] }

pub all-rest :
    {A : Type 0} → (p : A → Bool) (xs ys : List A) → all p (xs ++ ys) ≡ true → all p ys ≡ true
all-rest p [] ys h = h
all-rest p (x ∷ xs) ys h = all-rest p xs ys (ground (arith, h))

module _ {P : Type 0} where
  -- no id stands twice
  abbrev pub Distinct : List (ToolCall P) → Type 0
  Distinct [] = Unit
  Distinct (tc ∷ calls) = (all (λ d. not (str_eq tc.id d.id)) calls ≡ true) × Distinct calls

  -- the calls that a stream announces, in their order
  abbrev pub announced : List (Chunk P) → List (ToolCall P)
  announced [] = []
  announced (tool_call_complete tc ∷ chunks) = tc ∷ announced chunks
  announced (_ ∷ chunks) = announced chunks

  pub Distinct-rest : (xs ys : List (ToolCall P)) → Distinct (xs ++ ys) → Distinct ys
  Distinct-rest [] ys d = d
  Distinct-rest (x ∷ xs) ys d = Distinct-rest xs ys d.1

module _ {P W : Type 0} ⦃e : Equality P⦄ (env : Environment P W) (source : Source P W)
    (s : Settings P) (outputs : List (ToolOutput P)) where
  abbrev pub admit_all : Bool → List (ToolCall P) → Stage P W → Stage P W
  admit_all overlap [] stage = stage
  admit_all overlap (tc ∷ calls) stage =
      admit_all overlap calls (admit env source s outputs overlap tc stage)

  admit-quiet :
      (overlap : Bool) (tc : ToolCall P) (stage : Stage P W)
      → quiet (admit env source s outputs overlap tc stage)
        ≡ quiet (admit env source s outputs false tc (quiet stage))
  unfolding admit check_tool_allowed rule dispatch check_bash check_tool decide_bash decide_tool
  admit-quiet overlap tc stage = ground arith

  pub admit_all-quiet :
      (overlap : Bool) (calls : List (ToolCall P)) (a b : Stage P W)
      → quiet a ≡ quiet b
      → quiet (admit_all overlap calls a) ≡ quiet (admit_all false calls b)
  admit_all-quiet overlap [] a b h = h
  admit_all-quiet overlap (tc ∷ calls) a b h =
      admit_all-quiet overlap calls (admit env source s outputs overlap tc a)
        (admit env source s outputs false tc b)
        (admit-quiet overlap tc a
          ∙ ap (λ st. quiet (admit env source s outputs false tc st)) h
          ∙ sym (admit-quiet false tc b))

  pub admit_all-same :
      (overlap : Bool) (calls : List (ToolCall P)) (a b : Stage P W)
      → quiet a ≡ quiet b
      → quiet (admit_all overlap calls a) ≡ quiet (admit_all overlap calls b)
  admit_all-same overlap calls a b h =
      admit_all-quiet overlap calls a b h ∙ sym (admit_all-quiet overlap calls b b refl)

  read_chunk-plain :
      (c : Chunk P) (chunks : List (Chunk P)) (stage : Stage P W)
      → quiet (read_chunk env source s outputs c stage) ≡ quiet stage
      → quiet (read_chunks env source s outputs chunks (read_chunk env source s outputs c stage))
        ≡ quiet (admit_all true (announced chunks) (read_chunk env source s outputs c stage))
      → quiet (read_chunks env source s outputs (c ∷ chunks) stage)
        ≡ quiet (admit_all true (announced chunks) stage)
  unfolding read_chunks
  read_chunk-plain c chunks stage same h =
      h
      ∙ admit_all-same true (announced chunks) (read_chunk env source s outputs c stage) stage same

  -- reading a stream admits the calls that it announces
  pub read_chunks-announced :
      (chunks : List (Chunk P)) (stage : Stage P W)
      → quiet (read_chunks env source s outputs chunks stage)
        ≡ quiet (admit_all true (announced chunks) stage)
  unfolding read_chunks read_chunk
  read_chunks-announced [] stage = refl
  read_chunks-announced (tool_call_complete tc ∷ chunks) stage =
      read_chunks-announced chunks (admit env source s outputs true tc stage)
  read_chunks-announced (text_delta t ∷ chunks) stage =
      read_chunk-plain (text_delta t) chunks stage refl (read_chunks-announced chunks _)
  read_chunks-announced (finished none calls ∷ chunks) stage =
      read_chunk-plain (finished none calls) chunks stage refl (read_chunks-announced chunks _)
  read_chunks-announced (finished (some t) calls ∷ chunks) stage =
      read_chunk-plain (finished (some t) calls) chunks stage refl (read_chunks-announced chunks _)
  read_chunks-announced (other t ∷ chunks) stage =
      read_chunk-plain (other t) chunks stage refl (read_chunks-announced chunks _)

  pub read_chunks-append :
      (xs ys : List (Chunk P)) (stage : Stage P W)
      → read_chunks env source s outputs (xs ++ ys) stage
        ≡ read_chunks env source s outputs ys (read_chunks env source s outputs xs stage)
  unfolding read_chunks
  read_chunks-append [] ys stage = refl
  read_chunks-append (x ∷ xs) ys stage =
      read_chunks-append xs ys (read_chunk env source s outputs x stage)

  pub admit_all-append :
      (overlap : Bool) (xs ys : List (ToolCall P)) (stage : Stage P W)
      → admit_all overlap (xs ++ ys) stage ≡ admit_all overlap ys (admit_all overlap xs stage)
  admit_all-append overlap [] ys stage = refl
  admit_all-append overlap (x ∷ xs) ys stage =
      admit_all-append overlap xs ys (admit env source s outputs overlap x stage)

  admit_all-stays :
      (k : String) (overlap : Bool) (calls : List (ToolCall P)) (stage : Stage P W)
      → dealt stage k ≡ true
      → dealt (admit_all overlap calls stage) k ≡ true
  admit_all-stays k overlap [] stage h = h
  admit_all-stays k overlap (tc ∷ calls) stage h =
      admit_all-stays k overlap calls _
        (admit-stays env source s outputs k overlap tc stage (ground (arith, h)))

  pub admit_all-dealt :
      (overlap : Bool) (calls : List (ToolCall P)) (stage : Stage P W)
      → all (λ tc. dealt (admit_all overlap calls stage) tc.id) calls ≡ true
  admit_all-dealt overlap [] stage = refl
  admit_all-dealt overlap (tc ∷ calls) stage =
      let next = admit env source s outputs overlap tc stage in
      let now =
        admit-stays env source s outputs tc.id overlap tc stage
          (ground (arith, eq_iff tc.id tc.id)) in
      ground
        (arith, admit_all-stays tc.id overlap calls next now, admit_all-dealt overlap calls next)
