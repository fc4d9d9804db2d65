-- ===== src/Dup.antt =====
-- HW1/my_dup.c: `mydup` and `mydup2` on the descriptor table of the process. -1 is `none`. A failure
-- also prints a message and sets `errno`, which are not modelled.
pub mod Against
pub mod Main
mod Tests
use advanced_c_language_proj.Base.{ℕ, Option, none, some, ◌==◌, if◌then◌else◌}
use advanced_c_language_proj.Descriptors.{Descriptors}

module _ (D : Descriptors) where
  open D use {State, look, close, dup_from}

  unfoldable pub mydup : ℕ → State → Option ℕ × State
  mydup oldfd s = elim (dup_from oldfd 0 s) [
    | none ↦ (none, s)
    | some (newfd, s') ↦ (some newfd, s')
  ]

  -- The first test: `newfd` is closed if it is open.
  unfoldable pub close_open : ℕ → State → State
  close_open newfd s = elim (look s newfd) [ none ↦ s | some f ↦ close newfd s ]

  unfoldable pub mydup2 : ℕ → ℕ → State → Option ℕ × State
  mydup2 oldfd newfd s =
      let s' = close_open newfd s in
      if newfd == oldfd
      then (elim (look s' oldfd) [ none ↦ (none, s') | some flags ↦ (some newfd, s') ])
      else (elim (dup_from oldfd newfd s') [
        | none ↦ (none, s')
        | some (res, s'') ↦ (some res, s'')
      ])
