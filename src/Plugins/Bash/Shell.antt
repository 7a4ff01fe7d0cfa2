-- ===== src/Plugins/Bash/Shell.antt =====
-- `PersistentShell.run` of plugins/toolsets/bash/bash.py: how the output of a command is read off
-- the one bash process. The items that its reader thread puts in the queue until the deadline are a
-- list, whose end is the timeout. What the process writes to /tmp/_vk_stderr is a parameter, and so
-- is how the one-off process of the fallback ends.
use package.text.Mathlib.Text.{starts_with}
use vishwakarma.Prelude.{
  ℕ, String, Bool, true, false, not, Option, none, some, List, [], ◌∷◌, ◌++◌, if◌then◌else◌,
  str_append,
}

-- a line with its newline, an exception of the reader thread, or the end of the file
pub data Item : Type 0 where
  line : String → Item
  crashed : Item
  eof : Item

pub record Ran : Type 0 where
  pub exit_code : ℕ
  pub stdout : String
  pub stderr : String

-- how the loop over the queue ends, with the lines that it read; a code that is no number raises
pub data Read : Type 0 where
  delimited : Option ℕ → List String → Read
  timed_out shell_died : List String → Read

-- "".join(lines)
abbrev pub join : List String → String
join [] = ""
join (l ∷ ls) = str_append l (join ls)

-- `parse_code` is `int(line[len(delimiter):].strip() or "0")`, none where `int` raises
unfoldable pub drain : (String → String → Option ℕ) → String → List Item → List String → Read
drain parse_code delimiter [] lines = timed_out lines
drain parse_code delimiter (crashed ∷ items) lines = shell_died lines
drain parse_code delimiter (eof ∷ items) lines = shell_died lines
drain parse_code delimiter (line l ∷ items) lines =
    let rest = drain parse_code delimiter items (lines ++ (l ∷ [])) in
    if starts_with l delimiter then delimited (parse_code delimiter l) lines else rest

-- how `subprocess.run` ends
pub data Spawned : Type 0 where
  completed : ℕ → String → String → Spawned
  expired : Spawned
  broken : String → Spawned

unfoldable pub fallback : Spawned → Ran
fallback (completed code stdout stderr) = record {
  exit_code = code;
  stdout = stdout;
  stderr = stderr;
}
fallback expired = record { exit_code = 124; stdout = ""; stderr = "Command timed out" }
fallback (broken e) = record { exit_code = 1; stdout = ""; stderr = e }

-- the answer, and whether the shell is kept
unfoldable pub answer : Spawned → String → Read → Ran × Bool
unfolding fallback
answer spawned stderr (timed_out lines) =
    (record { exit_code = 124; stdout = join lines; stderr = "Command timed out" }, false)
answer spawned stderr (shell_died lines) = (
  record { exit_code = 1; stdout = join lines; stderr = "Persistent shell died mid-command" },
  false,
)
answer spawned stderr (delimited none lines) = (fallback spawned, true)
answer spawned stderr (delimited (some code) lines) =
    (record { exit_code = code; stdout = join lines; stderr = stderr }, true)

-- `alive` is whether the process runs, and `written` whether it takes the command; `items` come after
-- the stale lines were thrown away
unfoldable pub run :
    (String → String → Option ℕ) → String → String → Spawned → Bool → Bool → List Item → Ran × Bool
unfolding drain answer fallback
run parse_code delimiter stderr spawned alive written items =
    if not alive
    then (fallback spawned, false)
    else if not written
    then (fallback spawned, true)
    else answer spawned stderr (drain parse_code delimiter items [])
