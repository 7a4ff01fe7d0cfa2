-- ===== src/Plugins/Bash/Tests.antt =====
-- Tests of the bash toolset, and instances of its theorems.
use vishwakarma.Prelude.{
  number_equality, ℕ, ◌+◌, ◌≡◌, refl, true, false, ◌&&◌, none, some, [], ◌∷◌, ◌++◌, str_append,
}
use vishwakarma.Core.Safeguards.{has_previous_exact_same_tool_call}
use vishwakarma.Plugins.Bash.Rules.{
  Config, Matchers, first_hardcoded, split_chain, blocked_part, check_subshells, check_allow,
  is_allowed, blocked_by_rule,
}
use vishwakarma.Plugins.Bash.Shell.{join, drain, fallback, answer, run, line, completed, expired}
use vishwakarma.Plugins.Bash.Toolset.{Terminal}
use vishwakarma.Plugins.Bash.Clean.{is_none, is_clean, is_permitted, is_allowed_iff}
use vishwakarma.Plugins.Bash.Framing.{as_items, run-lines, run-unfinished}
use vishwakarma.Plugins.Bash.Unnamed.{kept_outputs, has_previous-kept_outputs}

-- a chain is cut at `|`, `;`, `&&` and `||`, but not at a single `&`
chained : split_chain "a|b;c&&d||e" ≡ "a" ∷ "b" ∷ "c" ∷ "d" ∷ "" ∷ "e" ∷ []
unfolding split_chain
chained = refl

background : split_chain "ls & rm x" ≡ "ls & rm x" ∷ []
unfolding split_chain
background = refl

-- no space is stripped, and no subshell found
abbrev plain : Matchers
plain = record {
  strip = λ t. t;
  destructive_sql = λ t. false;
  infra_mutation = λ t. false;
  subshells = λ t. [];
  first_word = λ t. t;
}

abbrev blocking : Config
blocking = record { safe_mode = false; allow = []; block = "rm" ∷ [] }

-- the blocked command runs in the background of another
rule_missed : is_allowed blocking plain "ls & rm x" ≡ none
unfolding is_allowed first_hardcoded blocked_part split_chain check_subshells check_allow
rule_missed = refl

rule_found : is_allowed blocking plain "ls;rm x" ≡ some (blocked_by_rule "rm")
unfolding is_allowed first_hardcoded blocked_part split_chain check_subshells check_allow
rule_found = refl

is_allowed_iff_example :
    is_none (is_allowed blocking plain "ls;rm x")
    ≡ is_clean blocking plain "ls;rm x" && is_permitted blocking plain "ls;rm x"
is_allowed_iff_example = is_allowed_iff blocking plain "ls;rm x"

run-lines_example :
    run
      (λ d l. some 0)
      "__END"
      ""
      expired
      true
      true
      (as_items ("a\n" ∷ "b\n" ∷ []) (line "__END0\n" ∷ line "late\n" ∷ []))
    ≡ (record { exit_code = 0; stdout = join ("a\n" ∷ "b\n" ∷ []); stderr = "" }, true)
run-lines_example =
    run-lines (λ d l. some 0) "__END" expired "" ("a\n" ∷ "b\n" ∷ []) "__END0\n" 0
      (line "late\n" ∷ []) refl refl refl

-- `kubectl get ... -o jsonpath=...` ends without a newline
run-unfinished_example :
    run
      (λ d l. some 0)
      "__END"
      ""
      expired
      true
      true
      (as_items ("a\n" ∷ []) (line (str_append "b" (str_append "__END" "0\n")) ∷ []))
    ≡ (
      record {
        exit_code = 124;
        stdout = join (("a\n" ∷ []) ++ (str_append "b" (str_append "__END" "0\n") ∷ []));
        stderr = "Command timed out";
      },
      false,
    )
run-unfinished_example =
    run-unfinished (λ d l. some 0) "__END" expired "" ("a\n" ∷ []) "b" "0\n" refl refl

abbrev terminal : Terminal ℕ ℕ
terminal = record {
  run = λ c w. (some (record { exit_code = 0; stdout = "ok\n"; stderr = "" }), w + 1);
  command = λ p. "kubectl get pods";
  lower = λ t. t;
  missing_tool = λ t. t;
  render = λ f. "error";
  no_params = 0;
}

-- a line that ends with no number is run again in a process of its own
unparsed :
    run (λ d l. none) "__END" "" (completed 2 "out" "err") true true (line "__ENDx\n" ∷ [])
    ≡ (record { exit_code = 2; stdout = "out"; stderr = "err" }, true)
unfolding run drain answer fallback
unparsed = refl

has_previous-kept_outputs_example :
    has_previous_exact_same_tool_call "bash" 7
      (kept_outputs blocking plain terminal (("1", 7) ∷ ("2", 7) ∷ []) 0)
    ≡ false
has_previous-kept_outputs_example =
    has_previous-kept_outputs blocking plain terminal (("1", 7) ∷ ("2", 7) ∷ []) 7 0 refl
