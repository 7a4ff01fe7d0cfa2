-- ===== src/Plugins/Bash/Clean.antt =====
-- Which commands plugins/toolsets/bash/bash.py lets through.
use vishwakarma.Prelude.{
  String, ◌≡◌, refl, Bool, true, false, not, ◌&&◌, ◌||◌, Option, none, some, List, [], ◌∷◌, map,
  arith, any, all,
}
use vishwakarma.Plugins.Bash.Rules.{
  Config, Matchers, hardcoded_block, occurs, first_of, first_hardcoded, split_chain, blocked_part,
  check_subshell, check_subshells, is_safe_word, check_allow, is_allowed,
}
use package.text.Mathlib.Text.{starts_with}

abbrev pub is_none {ℓ} : {A : Type ℓ} → Option A → Bool
is_none none = true
is_none (some a) = false

is_none-first_of : (p : String → Bool) (xs : List String) → is_none (first_of p xs) ≡ not (any p xs)
is_none-first_of p [] = refl
is_none-first_of p (x ∷ xs) = ground (arith, is_none-first_of p xs)

-- one of the patterns that are always blocked is found
unfoldable pub has_hardcoded : String → Bool
has_hardcoded cmd = any (λ p. occurs p cmd) hardcoded_block

is_none-first_hardcoded : (cmd : String) → is_none (first_hardcoded cmd) ≡ not (has_hardcoded cmd)
unfolding first_hardcoded has_hardcoded
is_none-first_hardcoded cmd = is_none-first_of (λ p. occurs p cmd) hardcoded_block

module _ (config : Config) (m : Matchers) where
  -- a part of the command starts with a rule of the block list
  abbrev pub hits_rule : String → Bool
  hits_rule cmd =
      any (λ rule. any (λ part. starts_with part rule) (map m.strip (split_chain cmd))) config.block

  abbrev pub is_clean_subshell : String → Bool
  is_clean_subshell sub =
      not (has_hardcoded sub) && (not (m.infra_mutation sub) && not (hits_rule sub))

  -- the rules that no list lifts, and then the lists
  abbrev pub is_clean : String → Bool
  is_clean cmd =
      not (has_hardcoded cmd)
      && (not (m.destructive_sql cmd)
          && (not (m.infra_mutation cmd)
              && (not (hits_rule cmd) && all is_clean_subshell (m.subshells cmd))))

  abbrev pub is_permitted : String → Bool
  is_permitted cmd =
      any (λ allowed. starts_with cmd allowed) config.allow
      || (not config.safe_mode || is_safe_word config m (m.first_word cmd))

  blocked_part-is_none : (cmd : String) → is_none (blocked_part config m cmd) ≡ not (hits_rule cmd)
  unfolding blocked_part
  blocked_part-is_none cmd = is_none-first_of _ config.block

  check_subshell-is_none :
      (sub : String) → is_none (check_subshell config m sub) ≡ is_clean_subshell sub
  unfolding check_subshell
  check_subshell-is_none sub = ground (arith, is_none-first_hardcoded sub, blocked_part-is_none sub)

  check_subshells-is_none :
      (subs : List String) → is_none (check_subshells config m subs) ≡ all is_clean_subshell subs
  unfolding check_subshells
  check_subshells-is_none [] = refl
  check_subshells-is_none (sub ∷ subs) =
      ground (arith, check_subshell-is_none sub, check_subshells-is_none subs)

  check_allow-is_none : (cmd : String) → is_none (check_allow config m cmd) ≡ is_permitted cmd
  unfolding check_allow
  check_allow-is_none cmd = ground arith

  -- A command is let through exactly when it is clean and permitted: no pattern that is always
  -- blocked, no destructive SQL and no mutating command is found in it, no part of the chain starts
  -- with a blocked rule, the same holds of each subshell (SQL apart), and it starts with an allowed
  -- rule, or safe mode is off, or its first word is a safe command.
  pub is_allowed_iff :
      (command : String)
      → is_none (is_allowed config m command)
        ≡ is_clean (m.strip command) && is_permitted (m.strip command)
  unfolding is_allowed
  is_allowed_iff command =
      let cmd = m.strip command in
      ground (
        arith,
        is_none-first_hardcoded cmd,
        blocked_part-is_none cmd,
        check_subshells-is_none (m.subshells cmd),
        check_allow-is_none cmd,
      )
