-- ===== src/Core/Engine/Stream/Kept.antt =====
-- What a rule about the stage of a step needs, to hold after a stream of chunks was read and after
-- the rest of the calls was dispatched.
use vishwakarma.Prelude.{
  String, ◌≡◌, refl, Bool, true, false, Option, none, some, List, [], ◌∷◌, ◌++◌, Equality,
  if◌then◌else◌, str_append,
}
use vishwakarma.Prelude.Dict.{Dict}
use vishwakarma.Core.Models.{ToolOutput}
use vishwakarma.Core.Conversation.{ToolCall, Content}
use vishwakarma.Core.Engine.State.{Environment, Settings}
use vishwakarma.Core.Engine.Stream.Rounds.{StreamRun, StreamOutcome, StreamStep, stop, go_on}
use vishwakarma.Core.Engine.Stream.Chunks.{
  Source, Stage, Chunk, admit, read_chunk, read_chunks, dispatch_rest, text_delta,
  tool_call_complete, finished, other, forwarded,
}

pub if-holds :
    {A : Type 0} → (Q : A → Type 0) (b : Bool) (x y : A) → Q x → Q y → Q (if b then x else y)
if-holds Q true x y qx qy = qx
if-holds Q false x y qx qy = qy

pub ok-holds :
    {A : Type 0}
    → (Q : A → Type 0) (b : Bool) (x y : A) → (b ≡ true → Q x)
    → (b ≡ false → Q y)
    → Q (elim b [ true ↦ x | false ↦ y ])
ok-holds Q true x y qx qy = qx refl
ok-holds Q false x y qx qy = qy refl

pub if-holds_eq :
    {A : Type 0}
    → (Q : A → Type 0) (b : Bool) (x y : A) → (b ≡ true → Q x)
    → (b ≡ false → Q y)
    → Q (if b then x else y)
if-holds_eq Q true x y qx qy = qx refl
if-holds_eq Q false x y qx qy = qy refl

pub option-holds :
    {A B : Type 0}
    → (Q : A → Type 0) (o : Option B) (x : A) (y : B → A) → Q x
    → ((b : B) → Q (y b))
    → Q (elim o [ none ↦ x | some b ↦ y b ])
option-holds Q none x y qx qy = qx
option-holds Q (some b) x y qx qy = qy b

pub option-holds_eq :
    {A B : Type 0}
    → (Q : A → Type 0) (o : Option B) (x : A) (y : B → A) → Q x
    → ((b : B) → o ≡ some b → Q (y b))
    → Q (elim o [ none ↦ x | some b ↦ y b ])
option-holds_eq Q none x y qx qy = qx
option-holds_eq Q (some b) x y qx qy = qy b refl

pub list-holds :
    {A B : Type 0}
    → (Q : A → Type 0) (bs : List B) (x y : A) → Q x
    → Q y
    → Q (elim bs [ [] ↦ x | b ∷ bs' ↦ y ])
list-holds Q [] x y qx qy = qx
list-holds Q (b ∷ bs) x y qx qy = qy

pub step-holds :
    {P W : Type 0}
    → (Q : StreamOutcome P W → Type 0) (st : StreamStep P W) (f : StreamRun P W → StreamOutcome P W)
    → ((o : StreamOutcome P W) → st ≡ stop o → Q o)
    → ((r : StreamRun P W) → st ≡ go_on r → Q (f r))
    → Q (elim st [ stop o ↦ o | go_on r ↦ f r ])
step-holds Q (stop o) f qs qg = qs o refl
step-holds Q (go_on r) f qs qg = qg r refl

module _ {P W : Type 0} ⦃e : Equality P⦄ (env : Environment P W) (source : Source P W)
    (s : Settings P) (outputs : List (ToolOutput P)) where
  pub record Kept (Q : Stage P W → Type 0) : Type 0 where
    pub on_admit :
        (overlap : Bool) (tc : ToolCall P) (stage : Stage P W)
        → Q stage
        → Q (admit env source s outputs overlap tc stage)
    pub on_chunk :
        (chunk : Chunk P) (content : String) (calls : List (ToolCall P)) (stage : Stage P W)
        → Q stage
        → Q (record stage {
          content = content;
          calls = calls;
          events = stage.events ++ (forwarded chunk ∷ []);
        })

  module _ (Q : Stage P W → Type 0) (k : Kept Q) where
    read_chunk-holds :
        (chunk : Chunk P) (stage : Stage P W)
        → Q stage
        → Q (read_chunk env source s outputs chunk stage)
    unfolding read_chunk
    read_chunk-holds (text_delta t) stage h =
        k.on_chunk (text_delta t) (str_append stage.content t) stage.calls stage h
    read_chunk-holds (tool_call_complete tc) stage h = k.on_admit true tc stage h
    read_chunk-holds (finished none calls) stage h =
        k.on_chunk (finished none calls) stage.content calls stage h
    read_chunk-holds (finished (some t) calls) stage h =
        k.on_chunk (finished (some t) calls) t calls stage h
    read_chunk-holds (other t) stage h = k.on_chunk (other t) stage.content stage.calls stage h

    pub read_chunks-holds :
        (chunks : List (Chunk P)) (stage : Stage P W)
        → Q stage
        → Q (read_chunks env source s outputs chunks stage)
    unfolding read_chunks
    read_chunks-holds [] stage h = h
    read_chunks-holds (c ∷ chunks) stage h =
        read_chunks-holds chunks (read_chunk env source s outputs c stage)
          (read_chunk-holds c stage h)

    pub dispatch_rest-holds :
        (early : Dict Content) (calls : List (ToolCall P)) (stage : Stage P W)
        → Q stage
        → Q (dispatch_rest env source s outputs early calls stage)
    unfolding dispatch_rest
    dispatch_rest-holds early [] stage h = h
    dispatch_rest-holds early (tc ∷ calls) stage h =
        dispatch_rest-holds early calls _ (if-holds Q _ stage _ h (k.on_admit false tc stage h))
