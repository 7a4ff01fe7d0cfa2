-- ===== src/Core/Compaction.antt =====
-- vishwakarma/core/compaction.py: how a conversation is made shorter. The token counter and the
-- model table of litellm, and the model that writes the summary, are parameters; `chars` is the
-- number of characters of a content.
mod Budget
mod Kept
mod Shape
mod Tests
use vishwakarma.Prelude.{
  ℕ, zero, suc, ◌+◌, ◌-◌, ◌*◌, ◌/◌, max, String, Bool, true, false, not, Option, none, some, List,
  [], ◌∷◌, ◌++◌, map, ltb, leb, if◌then◌else◌, length, keep,
}
use vishwakarma.Prelude.Dict
use vishwakarma.Prelude.Dict.{Dict}
use vishwakarma.Core.Conversation.{
  Message, Content, message, is_system, is_user, is_tool, user, assistant, summary, continue_marker,
  cut,
}

abbrev pub compaction_threshold_pct : ℕ
compaction_threshold_pct = 80

abbrev pub min_output_reservation : ℕ
min_output_reservation = 4096

abbrev pub default_window : ℕ
default_window = 128000

-- `info.get("max_input_tokens") or info.get("max_tokens") or 128_000`
abbrev pub positive_or : Option ℕ → ℕ → ℕ
positive_or none d = d
positive_or (some zero) d = d
positive_or (some (suc n)) d = suc n

-- the window of a model, from the cache or else from litellm's table, which may raise
unfoldable pub get_context_window :
    (String → Option (Option ℕ × Option ℕ)) → String → Dict ℕ → ℕ × Dict ℕ
get_context_window model_info model windows = elim (Dict.get model windows) [
  | some win ↦ (win, windows)
  | none ↦
      let win : ℕ = elim (model_info model) [
        | none ↦ default_window
        | some (input, total) ↦ positive_or input (positive_or total default_window)
      ] in
      (win, Dict.put model win windows)
]

-- the characters of a history, for the prefilter and for the rough count
unfoldable pub total_chars : {P : Type 0} → (Content → ℕ) → List (Message P) → ℕ
total_chars chars [] = 0
total_chars chars (m ∷ ms) = chars m.content + total_chars chars ms

module _ {P : Type 0} where
  -- `sorted` by size is stable: an element goes before those of its size, which stood behind it
  unfoldable pub insert_by_size : Message P × ℕ → List (Message P × ℕ) → List (Message P × ℕ)
  insert_by_size x [] = x ∷ []
  insert_by_size x (y ∷ ys) = if leb x.1 y.1 then x ∷ y ∷ ys else y ∷ insert_by_size x ys

  unfoldable pub sort_by_size : List (Message P × ℕ) → List (Message P × ℕ)
  unfolding insert_by_size
  sort_by_size [] = []
  sort_by_size (x ∷ xs) = insert_by_size x (sort_by_size xs)

  -- content[:max_chars] + TRUNCATION_NOTICE
  unfoldable pub truncated : ℕ → Message P → Message P
  truncated max_allocation msg = record msg {
    content = cut (max 100 (max_allocation * 3)) msg.content;
  }

  -- the loop over the sorted messages: a message that fits its share of what remains is kept, and
  -- another is cut to the share
  unfoldable pub allocate : ℕ → List (Message P × ℕ) → List (Message P)
  unfolding truncated
  allocate remaining [] = []
  allocate remaining ((msg, size) ∷ rest) =
      let share = remaining / length ((msg, size) ∷ rest) in
      (if leb size share then msg else truncated share msg)
      ∷ allocate (remaining - (if leb size share then size else share)) rest

  -- `next(tool_iter, msg)` at each tool message
  unfoldable pub rebuild : List (Message P) → List (Message P) → List (Message P)
  rebuild [] tools = []
  rebuild (msg ∷ messages) [] = msg ∷ rebuild messages []
  rebuild (msg ∷ messages) (t ∷ tools) =
      (if is_tool msg.role then t else msg)
      ∷ rebuild messages (if is_tool msg.role then tools else t ∷ tools)

  unfoldable pub tool_messages : List (Message P) → List (Message P)
  tool_messages = keep (λ m. is_tool m.role)

  unfoldable pub non_tool_messages : List (Message P) → List (Message P)
  non_tool_messages = keep (λ m. not (is_tool m.role))

module _ {P : Type 0} (litellm_count : List (Message P) → Option ℕ) (chars : Content → ℕ) where
  -- litellm's count, or a third of the characters where it raises
  unfoldable pub count_tokens : List (Message P) → ℕ
  unfolding total_chars
  count_tokens messages = elim (litellm_count messages) [
    | some n ↦ n
    | none ↦ total_chars chars messages / 3
  ]

  unfoldable pub with_sizes : List (Message P) → List (Message P × ℕ)
  with_sizes = map (λ m. (m, count_tokens (m ∷ [])))

  -- the messages with their tool messages replaced; where there are none, as they are
  unfoldable pub truncate_tools : List (Message P) → ℕ → List (Message P) → List (Message P)
  unfolding sort_by_size allocate rebuild with_sizes
  truncate_tools messages space_for_tools [] = messages
  truncate_tools messages space_for_tools (t ∷ tools) =
      rebuild messages (allocate space_for_tools (sort_by_size (with_sizes (t ∷ tools))))

  unfoldable pub proportional_truncate : List (Message P) → ℕ → List (Message P)
  unfolding truncate_tools
  proportional_truncate messages available =
      let used = count_tokens (non_tool_messages messages) in
      if leb available used
      then messages
      else truncate_tools messages (available - used) (tool_messages messages)

-- `llm.cfg.model if llm else "gpt-4o"`
unfoldable pub model_of : Option String → String
model_of none = "gpt-4o"
model_of (some model) = model

abbrev pub first {ℓ} : {A : Type ℓ} → List A → List A
first [] = []
first (x ∷ xs) = x ∷ []

-- system prompt, first question, summary and marker
unfoldable pub rebuilt : {P : Type 0} → List (Message P) → String → List (Message P)
rebuilt messages written =
    keep (λ m. is_system m.role) messages
    ++ (first (keep (λ m. is_user m.role) messages)
        ++ (message assistant (summary written) ∷ message user continue_marker ∷ []))

module _ {P W : Type 0} (summarize : List (Message P) → W → Option String × W) where
  -- where the model raises, the messages stay; it reads all but the system messages
  unfoldable pub llm_compact : List (Message P) → W → List (Message P) × W
  unfolding rebuilt
  llm_compact messages w =
      let (written, w') = summarize (keep (λ m. not (is_system m.role)) messages) w in
      (elim written [ none ↦ messages | some s ↦ rebuilt messages s ], w')

  module _ (litellm_count : String → List (Message P) → Option ℕ) (chars : Content → ℕ) where
    -- the model's summary, if it is shorter by the count; without a model the messages stay
    unfoldable pub summary_step : Option String → List (Message P) → W → List (Message P) × W
    summary_step none messages w = (messages, w)
    summary_step (some model) messages w =
        let (compacted, w') = llm_compact messages w in
        let shorter =
          ltb (count_tokens (litellm_count model) chars compacted)
            (count_tokens (litellm_count model) chars messages) in
        ((if shorter then compacted else messages), w')

    -- the summary, and then the truncation if the count is still above what is available
    unfoldable pub shorten : Option String → ℕ → List (Message P) → W → List (Message P) × W
    unfolding summary_step
    shorten llm window messages w =
        let count = litellm_count (model_of llm) in
        let available = window - max min_output_reservation (window * 15 / 100) in
        let (shorter, w') = summary_step llm messages w in
        (
          (if ltb available (count_tokens count chars shorter)
              then proportional_truncate count chars shorter available
              else shorter),
          w',
        )

    -- the messages, whether they were compacted, the cache of windows and the model's state
    unfoldable pub compact_messages :
        (String → Option (Option ℕ × Option ℕ))
        → Option String
        → List (Message P)
        → Dict ℕ
        → W
        → (List (Message P) × Bool) × (Dict ℕ × W)
    compact_messages model_info llm [] windows w = (([], false), (windows, w))
    compact_messages model_info llm (m ∷ ms) windows w =
        let messages = m ∷ ms in
        let (window, windows') = get_context_window model_info (model_of llm) windows in
        let threshold = window * compaction_threshold_pct / 100 in
        if ltb (total_chars chars messages) (threshold * 2)
        then ((messages, false), (windows', w))
        else if ltb (count_tokens (litellm_count (model_of llm)) chars messages) threshold
        then ((messages, false), (windows', w))
        else let (compacted, w') = shorten llm window messages w in
          ((compacted, true), (windows', w'))
