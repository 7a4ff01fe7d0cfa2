-- ===== src/Core/Compaction/Kept.antt =====
-- What every compaction by core/compaction.py keeps: the system messages and the first question.
use mathlib.Core.Bool.{false}
use mathlib.Core.List.{append-nil}
use vishwakarma.Prelude.{
  ℕ, ◌-◌, ◌*◌, ◌/◌, max, String, ◌≡◌, refl, sym, ap, ◌∙◌, inl, inr, Bool, true, false, not, Option,
  none, some, List, [], ◌∷◌, ◌++◌, arith, if◌then◌else◌, Option-cases, keep,
}
use vishwakarma.Prelude.Dict.{Dict}
use vishwakarma.Core.Conversation.{
  Message, Role, Content, message, is_system, is_user, system, user, assistant, summary,
  continue_marker,
}
use vishwakarma.Core.Compaction.Shape.{proportional_truncate-rest}
use vishwakarma.Core.Compaction.{
  non_tool_messages, proportional_truncate, model_of, first, rebuilt, llm_compact, summary_step,
  shorten, compact_messages, get_context_window,
}

user-not-system : (r : Role) → is_user r ≡ true → is_system r ≡ false
user-not-system system h = cc
user-not-system _ h = refl

module _ {P : Type 0} where
  abbrev pub systems : List (Message P) → List (Message P)
  systems = keep (λ m. is_system m.role)

  abbrev pub questions : List (Message P) → List (Message P)
  questions = keep (λ m. is_user m.role)

  -- the first question is `q`
  abbrev pub Asks : List (Message P) → Message P → Type 0
  Asks ms q = first (questions ms) ≡ q ∷ []

  systems-systems :
      (ms rest : List (Message P)) → systems (systems ms ++ rest) ≡ systems ms ++ systems rest
  systems-systems [] rest = refl
  systems-systems (m ∷ ms) rest = ground (arith, systems-systems ms rest)

  questions-systems : (ms rest : List (Message P)) → questions (systems ms ++ rest) ≡ questions rest
  questions-systems [] rest = refl
  questions-systems (m ∷ ms) rest = ground (arith, questions-systems ms rest)

  user_of-first : (ms : List (Message P)) (q : Message P) → Asks ms q → is_user q.role ≡ true
  user_of-first [] q h = cc
  user_of-first (m ∷ ms) q h = ground (arith, user_of-first ms q)

  systems-non_tool : (ms : List (Message P)) → systems (non_tool_messages ms) ≡ systems ms
  unfolding non_tool_messages
  systems-non_tool [] = refl
  systems-non_tool (m ∷ ms) = ground (arith, systems-non_tool ms)

  questions-non_tool : (ms : List (Message P)) → questions (non_tool_messages ms) ≡ questions ms
  unfolding non_tool_messages
  questions-non_tool [] = refl
  questions-non_tool (m ∷ ms) = ground (arith, questions-non_tool ms)

  -- the same system messages and the same first question
  pub record Keeps (q : Message P) (before after : List (Message P)) : Type 0 where
    pub same_systems : systems after ≡ systems before
    pub asks : Asks after q

  Keeps-refl : (q : Message P) (ms : List (Message P)) → Asks ms q → Keeps q ms ms
  Keeps-refl q ms h = record { same_systems = refl; asks = h }

  Keeps-non_tool :
      (q : Message P) (ms ms' : List (Message P))
      → non_tool_messages ms' ≡ non_tool_messages ms
      → Asks ms q
      → Keeps q ms ms'
  Keeps-non_tool q ms ms' e h = record {
    same_systems = sym (systems-non_tool ms') ∙ ap systems e ∙ systems-non_tool ms;
    asks = ap first (sym (questions-non_tool ms') ∙ ap questions e ∙ questions-non_tool ms) ∙ h;
  }

  -- a user message and what follows the first question hold no system message
  systems-coda :
      (q : Message P) (written : String)
      → is_user q.role ≡ true
      → systems (q ∷ message assistant (summary written) ∷ message user continue_marker ∷ []) ≡ []
  systems-coda q written h = rw (user-not-system q.role h)

  Keeps-rebuilt :
      (q : Message P) (ms : List (Message P)) (written : String)
      → Asks ms q
      → Keeps q ms (rebuilt ms written)
  unfolding rebuilt
  Keeps-rebuilt q ms written h =
      let rest =
        first (questions ms)
        ++ (message assistant (summary written) ∷ message user continue_marker ∷ []) in
      let asked = user_of-first ms q h in
      record {
        same_systems =
            systems-systems ms rest
            ∙ rw (h, systems-coda q written asked) (append-nil (systems ms));
        asks = ap first (questions-systems ms rest) ∙ rw (h, asked);
      }

module _ {P W : Type 0} (summarize : List (Message P) → W → Option String × W)
    (litellm_count : String → List (Message P) → Option ℕ) (chars : Content → ℕ) where
  Keeps-if :
      (q : Message P) (b : Bool) (ms xs ys : List (Message P))
      → Keeps q ms xs
      → Keeps q ms ys
      → Keeps q ms (if b then xs else ys)
  Keeps-if q true ms xs ys k l = k
  Keeps-if q false ms xs ys k l = l

  Keeps-trans :
      (q : Message P) (ms xs ys : List (Message P)) → Keeps q ms xs → Keeps q xs ys → Keeps q ms ys
  Keeps-trans q ms xs ys k l = record {
    same_systems = l.same_systems ∙ k.same_systems;
    asks = l.asks;
  }

  Keeps-llm_compact :
      (q : Message P) (ms : List (Message P)) (w : W)
      → Asks ms q
      → Keeps q ms (llm_compact summarize ms w).0
  unfolding llm_compact
  Keeps-llm_compact q ms w h =
      elim (Option-cases (summarize (keep (λ m. not (is_system m.role)) ms) w).0) [
        | inl failed ↦ rw failed (Keeps-refl q ms h)
        | inr (written, e) ↦ rw e (Keeps-rebuilt q ms written h)
      ]

  Keeps-summary_step :
      (q : Message P) (llm : Option String) (ms : List (Message P)) (w : W)
      → Asks ms q
      → Keeps q ms (summary_step summarize litellm_count chars llm ms w).0
  unfolding summary_step
  Keeps-summary_step q none ms w h = Keeps-refl q ms h
  Keeps-summary_step q (some model) ms w h =
      Keeps-if q _ ms (llm_compact summarize ms w).0 ms (Keeps-llm_compact q ms w h)
        (Keeps-refl q ms h)

  Keeps-shorten :
      (q : Message P) (llm : Option String) (window : ℕ) (ms : List (Message P)) (w : W)
      → Asks ms q
      → Keeps q ms (shorten summarize litellm_count chars llm window ms w).0
  unfolding shorten
  Keeps-shorten q llm window ms w h =
      let short = (summary_step summarize litellm_count chars llm ms w).0 in
      let kept = Keeps-summary_step q llm ms w h in
      let count = litellm_count (model_of llm) in
      let available = window - max 4096 (window * 15 / 100) in
      Keeps-if q _ ms (proportional_truncate count chars short available) short
        (Keeps-trans q ms short (proportional_truncate count chars short available) kept (
          Keeps-non_tool q short (proportional_truncate count chars short available)
            (proportional_truncate-rest count chars short available).0 kept.asks))
        kept

  Keeps-branch :
      (q : Message P) (ms : List (Message P)) (b : Bool)
      (r s : (List (Message P) × Bool) × (Dict ℕ × W))
      → Keeps q ms r.0.0
      → Keeps q ms s.0.0
      → Keeps q ms (if b then r else s).0.0
  Keeps-branch q ms true r s k l = k
  Keeps-branch q ms false r s k l = l

  -- A compaction, whichever way it goes and whatever the model writes, leaves the system messages
  -- of the conversation as they are, and its first question is still the first.
  pub compact_messages-Keeps :
      (model_info : String → Option (Option ℕ × Option ℕ)) (q : Message P) (llm : Option String)
      (ms : List (Message P)) (windows : Dict ℕ) (w : W)
      → Asks ms q
      → Keeps q ms (compact_messages summarize litellm_count chars model_info llm ms windows w).0.0
  unfolding compact_messages
  compact_messages-Keeps model_info q llm [] windows w h = cc
  compact_messages-Keeps model_info q llm (m ∷ ms) windows w h =
      let unchanged = Keeps-refl q (m ∷ ms) h in
      let (window, windows') = get_context_window model_info (model_of llm) windows in
      let same : (List (Message P) × Bool) × (Dict ℕ × W) = ((m ∷ ms, false), (windows', w)) in
      let (compacted, w') = shorten summarize litellm_count chars llm window (m ∷ ms) w in
      let done : (List (Message P) × Bool) × (Dict ℕ × W) = ((compacted, true), (windows', w')) in
      Keeps-branch q (m ∷ ms) _ same _ unchanged
        (Keeps-branch q (m ∷ ms) _ same done unchanged (Keeps-shorten q llm window (m ∷ ms) w h))
