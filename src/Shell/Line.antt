-- ===== src/Shell/Line.antt =====
-- HW2/terminal.c: one round of the loop of `main`, from the line that is typed to the children in front of
-- `execvp`.
pub mod Children
use advanced_c_language_proj.Base.{ℕ, ◌+◌, List, [], ◌∷◌, Option, none, some, if◌then◌else◌}
use advanced_c_language_proj.Base.Text.{Text, codes, str_eq}
use advanced_c_language_proj.Descriptors.{Descriptors}
use advanced_c_language_proj.Descriptors.Opening.{Opening}
use advanced_c_language_proj.Shell.Parse.{read_command, parse_line}
use advanced_c_language_proj.Shell.Child.{Tm, Started, start_child}

-- What becomes of a line: the shell exits, `trim` or a command without words leaves an array, or the
-- children are started, of which `none` has exited.
pub data Round (A : Type 0) : Type 0 where
  exits overrun : Round A
  starts : List (Option A) → Round A

module _ (D : Descriptors) (O : Opening D) where
  open D use {State}

  -- The loop over the forks from child `i` on. Each child has a copy of the table of the shell; `now` and
  -- `pid` give its time and its process id.
  unfoldable pub start_children :
      ℕ
      → List (ℕ × ℕ)
      → List (List Text)
      → (ℕ → Tm)
      → (ℕ → ℕ)
      → State
      → Option (List (Option (Started D O)))
  unfolding start_child
  start_children i pipefds [] now pid s = some []
  start_children i pipefds ([] ∷ commands) now pid s = none
  start_children i pipefds ((program ∷ args) ∷ commands) now pid s =
      elim (start_children (i + 1) pipefds commands now pid s) [
        | none ↦ none
        | some children ↦ some (start_child D O i pipefds program args (now i) (pid i) s ∷ children)
      ]

  -- `command` is what the array holds before, `input` what is typed.
  unfoldable pub run_line :
      List (ℕ × ℕ) → (ℕ → Tm) → (ℕ → ℕ) → State → Text → Text → Round (Started D O)
  unfolding read_command parse_line start_children
  run_line pipefds now pid s command input =
      if str_eq (read_command command input) (codes ":q\n")
      then exits
      else elim (parse_line command input) [
        | none ↦ overrun
        | some commands ↦ elim (start_children 0 pipefds commands now pid s) [
          | none ↦ overrun
          | some children ↦ starts children
        ]
      ]
