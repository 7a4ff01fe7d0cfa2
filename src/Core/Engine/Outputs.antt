-- ===== src/Core/Engine/Outputs.antt =====
-- core/engine.py: the compression of large tool outputs. The model that summarises is a parameter
-- and may raise; `parse` splits its answer to a batch by the headers, with a regular expression.
use vishwakarma.Prelude.{
  ℕ, String, Option, none, some, List, [], ◌∷◌, map, str_eq, ltb, nat_eq, if◌then◌else◌, length,
}
use vishwakarma.Prelude.Dict.{Dict}
use vishwakarma.Core.Models.{ToolOutput}
use vishwakarma.Core.Conversation.{Content, text}

abbrev pub max_tool_output : ℕ
max_tool_output = 12000

-- what the model is asked to shorten: one output that is capped, a batch, or one output whole
pub data Prompt : Type 0 where
  capped whole : String → Content → Prompt
  batch : List (String × Content) → Prompt

-- call id → output and content
abbrev pub Executed : Type 0 → Type 0
Executed P = Dict (ToolOutput P × Content)

-- `executed[cid] = (output, content)` for an id that is there
unfoldable pub set_content : {P : Type 0} → String → Content → Executed P → Executed P
set_content cid content [] = []
set_content cid content ((k, (output, old)) ∷ executed) =
    (k, (output, (if str_eq k cid then content else old))) ∷ set_content cid content executed

-- the sections, if the answer has as many as there are outputs
unfoldable pub sections_of :
    (String → ℕ → Option (List String)) → Option String → ℕ → Option (List String)
sections_of parse none expected = none
sections_of parse (some answer) expected = elim (parse answer expected) [
  | none ↦ none
  | some sections ↦ if nat_eq (length sections) expected then some sections else none
]

module _ {P W : Type 0} (chars : Content → ℕ) (summarize : Prompt → W → Option String × W)
    (parse : String → ℕ → Option (List String)) where
  unfoldable pub large_outputs : Executed P → List (String × (String × Content))
  large_outputs [] = []
  large_outputs ((cid, (output, content)) ∷ executed) =
      let rest = large_outputs executed in
      if ltb max_tool_output (chars content)
      then (cid, (output.tool_name, content)) ∷ rest
      else rest

  -- the sections of the batch, one to each large output
  unfoldable pub set_sections :
      List (String × (String × Content)) → List String → Executed P → Executed P
  set_sections ((cid, _) ∷ large) (s ∷ sections) executed =
      set_sections large sections (set_content cid (text s) executed)
  set_sections _ _ executed = executed

  -- one by one; an output that the model fails on stays as it is
  unfoldable pub compress_each :
      List (String × (String × Content)) → Executed P → W → Executed P × W
  compress_each [] executed w = (executed, w)
  compress_each ((cid, (name, content)) ∷ large) executed w =
      let (answer, w') = summarize (whole name content) w in
      compress_each large
        (elim answer [ none ↦ executed | some s ↦ set_content cid (text s) executed ]) w'

  -- `none`: the model raised on the only large output, and nothing catches it
  unfoldable pub compress_large :
      List (String × (String × Content)) → Executed P → W → Option (Executed P) × W
  unfolding set_sections compress_each sections_of
  compress_large [] executed w = (some executed, w)
  compress_large ((cid, (name, content)) ∷ []) executed w =
      let (answer, w') = summarize (capped name content) w in
      (elim answer [ none ↦ none | some s ↦ some (set_content cid (text s) executed) ], w')
  compress_large (l ∷ l' ∷ large) executed w =
      let all_large = l ∷ l' ∷ large in
      let (answer, w') = summarize (batch (map (λ x. x.1) all_large)) w in
      elim (sections_of parse answer (length all_large)) [
        | some sections ↦ (some (set_sections all_large sections executed), w')
        | none ↦ let (executed', w'') = compress_each all_large executed w' in (some executed', w'')
      ]

  unfoldable pub compress_tool_outputs : Executed P → W → Option (Executed P) × W
  unfolding large_outputs compress_large
  compress_tool_outputs executed w = compress_large (large_outputs executed) executed w
