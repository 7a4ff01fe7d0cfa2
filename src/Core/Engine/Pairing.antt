-- ===== src/Core/Engine/Pairing.antt =====
-- The replies of a step of core/engine.py against its tool calls: the model's API wants a reply to
-- every call of a message, in the order of the calls.
use mathlib.Core.Bool.{◌||◌}
use mathlib.Core.List.{[], ◌∷◌}
use vishwakarma.Prelude.{
  String, ◌≡◌, refl, ap, Bool, true, false, ◌||◌, Option, none, some, List, [], ◌∷◌, ◌++◌, map,
  arith, str_eq, eq_iff, Equality, any, all,
}
use vishwakarma.Core.Safeguards.{LoopGuard}
use vishwakarma.Core.Engine.Rulings.{noted, check_call-holds}
use vishwakarma.Prelude.Dict
use vishwakarma.Prelude.Dict.{Dict, get-put}
use vishwakarma.Core.Models.{ToolOutput}
use vishwakarma.Core.Conversation.{ToolCall, Message, Content}
use vishwakarma.Core.Engine.Checks.{Policy, Desk, block, approve, hold, check_call, check_calls}
use vishwakarma.Core.Engine.Outputs.{Executed}
use vishwakarma.Core.Engine.Steps.{answer_call, answer_calls}

abbrev pub is_some : {A : Type 0} → Option A → Bool
is_some none = false
is_some (some a) = true

abbrev pub is_none : {A : Type 0} → Option A → Bool
is_none none = true
is_none (some a) = false

-- no call under this id waits for a decision
abbrev pub settled : Dict (Option Content) → String → Bool
settled blocked k = elim (Dict.get k blocked) [ none ↦ true | some reply ↦ is_some reply ]

-- a reply is at hand for a call
abbrev pub replied : {P : Type 0} → Executed P → Dict (Option Content) → String → Bool
replied executed blocked k = elim (Dict.get k blocked) [
  | none ↦ is_some (Dict.get k executed)
  | some reply ↦ is_some reply
]

abbrev pub ids : {P : Type 0} → List (ToolCall P) → List String
ids = map (λ tc. tc.id)

abbrev pub reply_ids : {P : Type 0} → List (Message P) → List String
reply_ids = map (λ m. m.tool_call_id)

abbrev pub has_id : {P : Type 0} → String → List (ToolCall P) → Bool
has_id k = any (λ tc. str_eq tc.id k)

pub reply_ids-append :
    {P : Type 0} → (xs ys : List (Message P)) → reply_ids (xs ++ ys) ≡ reply_ids xs ++ reply_ids ys
reply_ids-append [] ys = refl
reply_ids-append (x ∷ xs) ys = ap (λ r. x.tool_call_id ∷ r) (reply_ids-append xs ys)

has_id-append :
    {P : Type 0}
    → (k : String) (xs ys : List (ToolCall P)) → has_id k (xs ++ ys) ≡ has_id k xs || has_id k ys
has_id-append k [] ys = refl
has_id-append k (x ∷ xs) ys = ground (arith, has_id-append k xs ys)

module _ {P : Type 0} where
  answer_call-id :
      (executed : Executed P) (blocked : Dict (Option Content)) (tc : ToolCall P)
      → replied executed blocked tc.id ≡ true
      → reply_ids (answer_call executed blocked tc).0 ≡ tc.id ∷ []
  unfolding answer_call
  answer_call-id executed blocked tc h = ground arith

  pub answer_calls-ids :
      (executed : Executed P) (blocked : Dict (Option Content)) (calls : List (ToolCall P))
      → all (λ tc. replied executed blocked tc.id) calls ≡ true
      → reply_ids (answer_calls executed blocked calls).0 ≡ ids calls
  unfolding answer_calls
  answer_calls-ids executed blocked [] h = refl
  answer_calls-ids executed blocked (tc ∷ calls) h = ground (
    arith,
    reply_ids-append (answer_call executed blocked tc).0 (answer_calls executed blocked calls).0,
    answer_call-id executed blocked tc,
    answer_calls-ids executed blocked calls,
  )

  -- a call of the step was dealt with
  abbrev pub on_desk : Desk P → String → Bool
  on_desk desk k = is_some (Dict.get k desk.blocked) || has_id k desk.to_execute

  -- nothing waits, or no entry is left open
  abbrev pub open_calls : Desk P → Bool
  open_calls desk = elim desk.pending [ [] ↦ false | p ∷ ps ↦ true ]

  -- what the checks keep of an id
  pub record Advances (k : String) (d d' : Desk P) : Type 0 where
    pub waits : open_calls d ≡ true → open_calls d' ≡ true
    pub stays : on_desk d k ≡ true → on_desk d' k ≡ true
    pub closed :
        (open_calls d ≡ false → settled d.blocked k ≡ true)
        → open_calls d' ≡ false
        → settled d'.blocked k ≡ true

  block-Advances :
      (k : String) (tc : ToolCall P) (c : Content) (d : Desk P) (g : LoopGuard) (ps : List String)
      → Advances k d (block tc (some c) (noted g ps d))
  block-Advances k tc c d g ps =
      let step = get-put tc.id k (some c) d.blocked in
      record {
        waits = λ h. h;
        stays = λ h. ground (arith, step);
        closed = λ h h'. ground (arith, step);
      }

  hold-Advances :
      (k : String) (tc : ToolCall P) (t : String) (d : Desk P) (g : LoopGuard) (ps : List String)
      → Advances k d (hold tc t (noted g ps d))
  hold-Advances k tc t d g ps =
      let step = get-put tc.id k none d.blocked in
      record {
        waits = λ h. ground arith;
        stays = λ h. ground (arith, step);
        closed = λ h h'. ground arith;
      }

  approve-Advances :
      (k : String) (tc : ToolCall P) (d : Desk P) (g : LoopGuard) (ps : List String)
      → Advances k d (approve tc (noted g ps d))
  approve-Advances k tc d g ps = record {
    waits = λ h. h;
    stays = λ h. ground (arith, has_id-append k d.to_execute (tc ∷ []));
    closed = λ h h'. ground arith;
  }

  module _ ⦃e : Equality P⦄ (fingerprint : String → P → String) (command : P → String)
      (enabled : Bool) (policy : Policy) (outputs : List (ToolOutput P)) where
    check_call-on_desk :
        (tc : ToolCall P) (desk : Desk P)
        → on_desk (check_call fingerprint command enabled policy outputs tc desk) tc.id ≡ true
    check_call-on_desk tc desk =
        check_call-holds fingerprint command enabled policy outputs (λ d. on_desk d tc.id ≡ true) tc
          desk
          (record {
            on_refuse = λ c g ps.
                ground (arith, eq_iff tc.id tc.id, get-put tc.id tc.id (some c) desk.blocked);
            on_hold =
                λ t g ps. ground (arith, eq_iff tc.id tc.id, get-put tc.id tc.id none desk.blocked);
            on_approve = λ g ps.
                ground (arith, eq_iff tc.id tc.id, has_id-append tc.id desk.to_execute (tc ∷ []));
          })

    check_call-Advances :
        (k : String) (tc : ToolCall P) (desk : Desk P)
        → Advances k desk (check_call fingerprint command enabled policy outputs tc desk)
    check_call-Advances k tc desk =
        check_call-holds fingerprint command enabled policy outputs (Advances k desk) tc desk
          (record {
            on_refuse = λ c g ps. block-Advances k tc c desk g ps;
            on_hold = λ t g ps. hold-Advances k tc t desk g ps;
            on_approve = λ g ps. approve-Advances k tc desk g ps;
          })

    pub check_calls-Advances :
        (k : String) (calls : List (ToolCall P)) (desk : Desk P)
        → Advances k desk (check_calls fingerprint command enabled policy outputs calls desk)
    unfolding check_calls
    check_calls-Advances k [] desk = record {
      waits = λ h. h;
      stays = λ h. h;
      closed = λ h h'. h h';
    }
    check_calls-Advances k (tc ∷ calls) desk =
        let desk' = check_call fingerprint command enabled policy outputs tc desk in
        let a = check_call-Advances k tc desk in
        let b = check_calls-Advances k calls desk' in
        record {
          waits = λ h. b.waits (a.waits h);
          stays = λ h. b.stays (a.stays h);
          closed = λ h h'. b.closed (a.closed h) h';
        }

    pub check_calls-on_desk :
        (calls : List (ToolCall P)) (desk : Desk P)
        → all
            (on_desk (check_calls fingerprint command enabled policy outputs calls desk))
            (ids calls)
          ≡ true
    unfolding check_calls
    check_calls-on_desk [] desk = refl
    check_calls-on_desk (tc ∷ calls) desk =
        let desk' = check_call fingerprint command enabled policy outputs tc desk in
        let seen = (check_calls-Advances tc.id calls desk').stays (check_call-on_desk tc desk) in
        ground (arith, check_calls-on_desk calls desk')
