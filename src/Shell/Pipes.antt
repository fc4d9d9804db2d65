-- ===== src/Shell/Pipes.antt =====
-- HW2/terminal.c: what a child does with the pipes before it runs its command, and the parent after the
-- last fork. `pipefds` is the list of the pipes, each with its two ends.
pub mod Ends
pub mod Wiring
use advanced_c_language_proj.Base.{
  ℕ, ◌+◌, ◌-◌, Bool, true, false, ◌&&◌, ◌||◌, List, [], ◌∷◌, ◌==◌, ltb, if◌then◌else◌, length,
  get_or,
}
use advanced_c_language_proj.Descriptors.{Descriptors}

abbrev pub end_of : List (ℕ × ℕ) → ℕ → ℕ × ℕ
end_of pipefds i = get_or pipefds i (0, 0)

module _ (D : Descriptors) where
  open D use {State, close, dup2}

  -- The loop over the pipes in child `i`, from pipe `j` on.
  unfoldable pub close_unused : ℕ → ℕ → List (ℕ × ℕ) → State → State
  close_unused i j [] s = s
  close_unused i j ((reads, writes) ∷ pipefds) s = close_unused i (j + 1) pipefds (
      if j + 1 == i
      then close writes s
      else (if j == i then close reads s else close writes (close reads s)))

  -- The branches for the first command, the last and one in between.
  unfoldable pub connect : ℕ → ℕ → List (ℕ × ℕ) → State → State
  connect i number_of_commands pipefds s =
      if ltb 1 number_of_commands
      then (if i == 0
          then close (end_of pipefds 0).1 (dup2 (end_of pipefds 0).1 1 s)
          else (if i + 1 == number_of_commands
              then close (end_of pipefds (i - 1)).0 (dup2 (end_of pipefds (i - 1)).0 0 s)
              else close (end_of pipefds i).1 (
                  close (end_of pipefds (i - 1)).0
                    (dup2 (end_of pipefds i).1 1 (dup2 (end_of pipefds (i - 1)).0 0 s)))))
      else s

  -- Child `i` up to its redirections.
  unfoldable pub child : ℕ → List (ℕ × ℕ) → State → State
  unfolding close_unused connect
  child i pipefds s = connect i (length pipefds + 1) pipefds (close_unused i 0 pipefds s)

  -- The loop of the parent.
  unfoldable pub close_pipes : List (ℕ × ℕ) → State → State
  close_pipes [] s = s
  close_pipes ((reads, writes) ∷ pipefds) s = close_pipes pipefds (close writes (close reads s))
