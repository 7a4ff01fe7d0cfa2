-- ===== src/Plugins/Bash/Framing.antt =====
-- How the output of a command is told from the line that ends it, in plugins/toolsets/bash/bash.py.
use package.text.Mathlib.Text.{starts_with}
use vishwakarma.Prelude.{
  ℕ, String, ◌≡◌, refl, sym, ap, true, false, not, List, [], ◌∷◌, ◌++◌, arith, str_append, all,
  Option, some,
}
use vishwakarma.Plugins.Bash.Shell.{Item, join, drain, Spawned, answer, run, line}

abbrev pub as_items : List String → List Item → List Item
as_items [] items = items
as_items (l ∷ ls) items = line l ∷ as_items ls items

module _ (parse_code : String → String → Option ℕ) (delimiter : String) (spawned : Spawned) where
  -- no line starts with the delimiter
  abbrev pub Undelimited : List String → Type 0
  Undelimited ls = all (λ l. not (starts_with l delimiter)) ls ≡ true

  append_assoc :
      (xs : List String) (y : String) (ys : List String) → (xs ++ (y ∷ [])) ++ ys ≡ xs ++ (y ∷ ys)
  append_assoc [] y ys = refl
  append_assoc (x ∷ xs) y ys = ap (λ r. x ∷ r) (append_assoc xs y ys)

  append_nil : (xs : List String) → xs ++ [] ≡ xs
  append_nil [] = refl
  append_nil (x ∷ xs) = ap (λ r. x ∷ r) (append_nil xs)

  drain-lines :
      (ls : List String) (items : List Item) (read : List String)
      → Undelimited ls
      → drain parse_code delimiter (as_items ls items) read
        ≡ drain parse_code delimiter items (read ++ ls)
  unfolding drain
  drain-lines [] items read h = ap (drain parse_code delimiter items) (sym (append_nil read))
  drain-lines (l ∷ ls) items read h =
      ground (arith, drain-lines ls items (read ++ (l ∷ [])), append_assoc read l ls)

  -- In a shell that is alive and takes the command, the lines that the command prints, each with its
  -- newline, are returned whole and in order, with the exit code of the line that ends them, as long
  -- as that line starts with the delimiter, none before it does, and its code is a number; what comes
  -- after is not read.
  pub run-lines :
      (stderr : String) (ls : List String) (l : String) (code : ℕ) (items : List Item)
      → Undelimited ls
      → starts_with l delimiter ≡ true
      → parse_code delimiter l ≡ some code
      → run parse_code delimiter stderr spawned true true (as_items ls (line l ∷ items))
        ≡ (record { exit_code = code; stdout = join ls; stderr = stderr }, true)
  unfolding run drain answer
  run-lines stderr ls l code items h e c = rw drain-lines (ground (arith, e, c))

  -- In a shell that is alive and takes the command, a command whose output does not end with a newline
  -- is waited for until the deadline, is reported
  -- as timed out with the line that ends it in its output, and costs the shell: the rest of the
  -- output and the delimiter are one line, if this line does not start with the delimiter itself.
  pub run-unfinished :
      (stderr : String) (ls : List String) (rest code : String)
      → Undelimited ls
      → starts_with (str_append rest (str_append delimiter code)) delimiter ≡ false
      → let last = str_append rest (str_append delimiter code) in
        run parse_code delimiter stderr spawned true true (as_items ls (line last ∷ [])) ≡ (
          record {
            exit_code = 124;
            stdout = join (ls ++ (last ∷ []));
            stderr = "Command timed out";
          },
          false,
        )
  unfolding run drain answer
  run-unfinished stderr ls rest code h e = rw drain-lines (ground (arith, e))
