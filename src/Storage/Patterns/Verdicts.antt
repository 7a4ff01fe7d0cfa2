-- ===== src/Storage/Patterns/Verdicts.antt =====
-- When a replay of storage/patterns.py says that a pattern matched.
use vishwakarma.Prelude.{
  ◌*◌, ◌≤◌, ◌<◌, String, ◌≡◌, refl, ◌↔◌, ◌⊎◌, inl, inr, Bool, true, false, Option, none, some, List,
  [], ◌∷◌, arith, ltb, length, any, keep, length-keep-le,
}
use vishwakarma.Storage.Patterns.{
  PatternStep, Pattern, Replay, validate, run_steps, replay_pattern, matched,
}

abbrev pub is_matched : Option Replay → Bool
is_matched none = false
is_matched (some (matched high found missing)) = true
is_matched (some r) = false

length-keep-zero :
    {A : Type 0}
    → (p : A → Bool) (xs : List A) → (ltb 0 (length (keep p xs)) ≡ false) ↔ (any p xs ≡ false)
length-keep-zero p [] = (λ h. refl, λ h. refl)
length-keep-zero p (x ∷ xs) =
    (λ h. ground (arith, length-keep-zero p xs), λ h. ground (arith, length-keep-zero p xs))

List-cases : {A : Type 0} → (xs : List A) → (xs ≡ []) ⊎ ((x : A) × (ys : List A) × (xs ≡ x ∷ ys))
List-cases [] = inl refl
List-cases (x ∷ xs) = inr (x, xs, refl)

-- what a verdict on the outputs asks for
abbrev pub Confirms : {P : Type 0} → (String → Bool) → Pattern P → Type 0
Confirms matches p =
    (any matches p.verification_anti_keywords ≡ false)
    × (0 < length (keep matches p.verification_keywords))
    × (3 * length p.verification_keywords ≤ 5 * length (keep matches p.verification_keywords))

is_matched-validate_iff :
    {P : Type 0}
    → (matches : String → Bool) (p : Pattern P)
    → (is_matched (some (validate matches p)) ≡ true) ↔ Confirms matches p
unfolding validate
is_matched-validate_iff matches p =
    let anti = length-keep-zero matches p.verification_anti_keywords in
    let some_of = length-keep-le matches p.verification_keywords in
    (λ h. ground (arith, anti, some_of), λ h. ground (arith, anti, some_of))

-- A replay matches exactly when the pattern has a step, no anti-keyword is found in what the first
-- five steps put out, and at least three of five keywords are, of at least one.
pub is_matched-replay_pattern_iff :
    {P O : Type 0}
    → (run : PatternStep P → O) (matches : List O → String → Bool) (p : Pattern P)
    → (is_matched (replay_pattern run matches p) ≡ true) ↔ (
        (0 < length p.investigation_steps)
        × Confirms (matches (run_steps run p.investigation_steps)) p)
unfolding replay_pattern
is_matched-replay_pattern_iff run matches p =
    let verdict = is_matched-validate_iff (matches (run_steps run p.investigation_steps)) p in
    elim (List-cases p.investigation_steps) [
      | inl no_steps ↦ (λ h. ground (arith, no_steps), λ h. ground (arith, no_steps))
      | inr (s, steps, e) ↦ (λ h. ground (arith, e, verdict), λ h. ground (arith, e, verdict))
    ]
