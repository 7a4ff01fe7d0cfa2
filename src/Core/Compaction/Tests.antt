-- ===== src/Core/Compaction/Tests.antt =====
-- Runs of core/compaction.py on small conversations.
use vishwakarma.Prelude.{
  ℕ, suc, String, ◌≡◌, refl, true, Option, none, some, List, [], ◌∷◌, str_eq, if◌then◌else◌,
}
use vishwakarma.Prelude.Dict
use vishwakarma.Core.Conversation.{
  Message, Content, message, system, user, assistant, tool, text, summary, continue_marker,
}
use vishwakarma.Core.Compaction.{
  get_context_window, total_chars, insert_by_size, sort_by_size, truncated, allocate, rebuild,
  tool_messages, non_tool_messages, count_tokens, with_sizes, truncate_tools, proportional_truncate,
  model_of, rebuilt, llm_compact, summary_step, shorten, compact_messages,
}
use vishwakarma.Core.Compaction.Shape.{ids}
use vishwakarma.Core.Compaction.Kept.{Keeps, compact_messages-Keeps}

program : Unit {0}
unfolding get_context_window total_chars count_tokens insert_by_size sort_by_size truncated allocate
    rebuild tool_messages non_tool_messages with_sizes truncate_tools proportional_truncate rebuilt
    llm_compact summary_step shorten compact_messages model_of Dict.get Dict.put
program = tt

-- ten characters to an `a` and one to the rest
abbrev chars : Content → ℕ
chars (text s) = if str_eq s "long" then 30 else 3
chars _ = 3

abbrev no_count : List (Message ℕ) → Option ℕ
no_count ms = none

abbrev reply : String → String → Message ℕ
reply id s = record { role = tool; content = text s; tool_calls = []; tool_call_id = id }

abbrev talk : List (Message ℕ)
talk =
    message system (text "s") ∷ message user (text "q") ∷ reply "1" "long" ∷ reply "2" "short" ∷ []

-- the two replies change places
swapped : ids (tool_messages (proportional_truncate no_count chars talk 40)) ≡ "2" ∷ "1" ∷ []
unfolding program
swapped = refl

abbrev sized : List (Message ℕ × ℕ)
sized = (reply "2" "short", 1) ∷ (reply "1" "long", 10) ∷ []

abbrev writes : List (Message ℕ) → ℕ → Option String × ℕ
writes ms w = (some "brief", suc w)

abbrev small_window : String → Option (Option ℕ × Option ℕ)
small_window model = some (some 8, none)

compacted : compact_messages writes (λ m. no_count) chars small_window (some "m") talk [] 0 ≡ (
  (
    message system (text "s")
        ∷ message user (text "q")
        ∷ message assistant (summary "brief")
        ∷ message user continue_marker
        ∷ [],
    true,
  ),
  (("m", 8) ∷ [], 1),
)
unfolding program
compacted = refl

compact_messages-Keeps_example :
    Keeps
      (message user (text "q"))
      talk
      (compact_messages writes (λ m. no_count) chars small_window (some "m") talk [] 0).0.0
compact_messages-Keeps_example =
    compact_messages-Keeps writes (λ m. no_count) chars small_window (message user (text "q"))
      (some "m") talk [] 0 refl
