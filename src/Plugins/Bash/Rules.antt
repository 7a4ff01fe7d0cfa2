-- ===== src/Plugins/Bash/Rules.antt =====
-- `_is_allowed` of plugins/toolsets/bash/bash.py, with the lists of config.py. The two regular
-- expressions that look for destructive SQL and for mutating commands, the one that finds what
-- stands in a subshell, and `strip` are parameters.
use Prim.Native.Char.{Char, code}
use package.text.Mathlib.Text.{find?, starts_with}
use vishwakarma.Prelude.{
  String, Bool, true, false, not, ◌&&◌, ◌||◌, Option, none, some, List, [], ◌∷◌, map, str_eq,
  nat_eq, if◌then◌else◌, str_append, any,
}

abbrev pub hardcoded_block : List String
hardcoded_block =
    "rm -rf /" ∷ "rm -rf /*" ∷ "shutdown" ∷ "reboot" ∷ "halt" ∷ "poweroff" ∷ "mkfs" ∷ "fdisk"
    ∷ "> /dev/sda" ∷ "eval " ∷ "eval\t" ∷ "base64 -d" ∷ "base64 --decode" ∷ "python3 -c"
    ∷ "python -c" ∷ "perl -e" ∷ "ruby -e" ∷ "node -e" ∷ "bash -c" ∷ "sh -c" ∷ "env " ∷ "/dev/tcp"
    ∷ "/dev/udp" ∷ "nohup " ∷ "nohup\t" ∷ "crontab" ∷ []

abbrev pub safe_bash_commands : List String
safe_bash_commands =
    "kubectl" ∷ "helm" ∷ "stern" ∷ "cat" ∷ "ls" ∷ "echo" ∷ "grep" ∷ "awk" ∷ "sed" ∷ "head" ∷ "tail"
    ∷ "sort" ∷ "uniq" ∷ "wc" ∷ "cut" ∷ "jq" ∷ "yq" ∷ "date" ∷ "whoami" ∷ "hostname" ∷ "ps" ∷ "top"
    ∷ "df" ∷ "du" ∷ "free" ∷ "uname" ∷ "printenv" ∷ "which" ∷ "dig" ∷ "nslookup" ∷ "ping"
    ∷ "traceroute" ∷ "netstat" ∷ "ss" ∷ "lsof" ∷ "aws" ∷ "gcloud" ∷ []

-- why a command is refused
pub data Reason : Type 0 where
  hardcoded : String → Reason
  destructive : Reason
  mutating : Reason
  blocked_by_rule : String → Reason
  hardcoded_in_subshell : String → Reason
  mutating_in_subshell : Reason
  blocked_in_subshell : String → Reason
  not_safe : String → Reason

-- the attributes of the toolset
pub record Config : Type 0 where
  pub safe_mode : Bool
  pub allow : List String
  pub block : List String

-- what the regular expressions of the class and the string methods say; `first_word` is
-- `cmd.split()[0] if cmd.split() else ""`
pub record Matchers : Type 0 where
  pub strip : String → String
  pub destructive_sql : String → Bool
  pub infra_mutation : String → Bool
  pub subshells : String → List String
  pub first_word : String → String

-- `s in text`
abbrev pub occurs : String → String → Bool
occurs s t = elim (find? t s) [ none ↦ false | some i ↦ true ]

-- s.endswith(t)
abbrev pub ends_with : String → String → Bool
ends_with String.[] t = str_eq "" t
ends_with (String.◌∷◌ c s) t = str_eq (String.◌∷◌ c s) t || ends_with s t

-- the first pattern of a list that passes a test
abbrev pub first_of : (String → Bool) → List String → Option String
first_of p [] = none
first_of p (x ∷ xs) = if p x then some x else first_of p xs

-- the first of the patterns that are always blocked
unfoldable pub first_hardcoded : String → Option String
first_hardcoded cmd = first_of (λ p. occurs p cmd) hardcoded_block

abbrev pub is_pipe : Char → Bool
is_pipe c = nat_eq (code c) 124 || nat_eq (code c) 59

abbrev pub is_ampersand : Char → Bool
is_ampersand c = nat_eq (code c) 38

abbrev pub add_first : Char → List String → List String
add_first c [] = (String.◌∷◌ c "") ∷ []
add_first c (part ∷ parts) = (String.◌∷◌ c part) ∷ parts

-- re.split(r'[|;]|&&|\|\|', text): the third branch never matches, since the first takes each |
unfoldable pub split_chain : String → List String
split_chain String.[] = "" ∷ []
split_chain (String.◌∷◌ c String.[]) = if is_pipe c then "" ∷ "" ∷ [] else add_first c ("" ∷ [])
split_chain (String.◌∷◌ c (String.◌∷◌ d rest)) =
    let after_one = split_chain (String.◌∷◌ d rest) in
    let after_two = split_chain rest in
    if is_pipe c
    then "" ∷ after_one
    else if is_ampersand c && is_ampersand d
    then "" ∷ after_two
    else add_first c after_one

module _ (config : Config) (m : Matchers) where
  -- the first rule of the block list that a part of a command starts with
  unfoldable pub blocked_part : String → Option String
  unfolding split_chain
  blocked_part cmd =
      let parts = map m.strip (split_chain cmd) in
      first_of (λ blocked. any (λ part. starts_with part blocked) parts) config.block

  unfoldable pub check_subshell : String → Option Reason
  unfolding blocked_part first_hardcoded
  check_subshell sub = elim (first_hardcoded sub) [
    | some pattern ↦ some (hardcoded_in_subshell pattern)
    | none ↦
        if m.infra_mutation sub
        then some mutating_in_subshell
        else elim (blocked_part sub) [ some rule ↦ some (blocked_in_subshell rule) | none ↦ none ]
  ]

  unfoldable pub check_subshells : List String → Option Reason
  unfolding check_subshell
  check_subshells [] = none
  check_subshells (sub ∷ subs) =
      let rest = check_subshells subs in
      elim (check_subshell sub) [ some reason ↦ some reason | none ↦ rest ]

  unfoldable pub is_safe_word : String → Bool
  is_safe_word first_cmd =
      any (λ safe. str_eq first_cmd safe || ends_with first_cmd (str_append "/" safe))
        safe_bash_commands

  -- the allow list, then the safe mode
  unfoldable pub check_allow : String → Option Reason
  unfolding is_safe_word
  check_allow cmd =
      if any (λ allowed. starts_with cmd allowed) config.allow
      then none
      else if config.safe_mode && not (is_safe_word (m.first_word cmd))
      then some (not_safe (m.first_word cmd))
      else none

  -- the reason to refuse a command, or none
  unfoldable pub is_allowed : String → Option Reason
  unfolding first_hardcoded blocked_part check_subshells check_allow
  is_allowed command =
      let cmd = m.strip command in
      elim (first_hardcoded cmd) [
        | some pattern ↦ some (hardcoded pattern)
        | none ↦
            if m.destructive_sql cmd
            then some destructive
            else if m.infra_mutation cmd
            then some mutating
            else elim (blocked_part cmd) [
              | some rule ↦ some (blocked_by_rule rule)
              | none ↦ elim (check_subshells (m.subshells cmd)) [
                | some reason ↦ some reason
                | none ↦ check_allow cmd
              ]
            ]
      ]
