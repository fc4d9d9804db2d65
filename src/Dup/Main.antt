-- ===== src/Dup/Main.antt =====
-- HW1/my_dup.c: `main`, which duplicates a descriptor in several ways. The offset of an open file is outside
-- the table: what is kept is whose offset is printed. What the two calls of `lseek` come to is an argument.
-- `dup(fd)` is `fcntl(fd, F_DUPFD, 0)`, as POSIX says. There is one argument, the name of the file.
pub mod Steps
pub mod Shared
use advanced_c_language_proj.Base.{ℕ, Bool, true, List, [], ◌∷◌, Option, none, some, if◌then◌else◌}
use advanced_c_language_proj.Base.Text.{Text}
use advanced_c_language_proj.Descriptors.{Descriptors}
use advanced_c_language_proj.Descriptors.Opening.{Opening}
use advanced_c_language_proj.Dup.{mydup, mydup2}

abbrev pub tempfd : ℕ
tempfd = 15

module _ (D : Descriptors) (O : Opening D) where
  open D use {State, File, look, close, dup2, dup_from}
  open O use {open_file}

  -- What `main` returns, the open files whose offsets it has printed, and the table.
  pub record Done : Type 0 where
    pub code : ℕ
    pub offsets_of : List (Option File)
    pub table : State

  -- The calls of `close` at the end: the first one that fails ends `main`.
  unfoldable pub close_all : List ℕ → List (Option File) → State → Done
  close_all [] offsets_of s = record { code = 0; offsets_of = offsets_of; table = s }
  close_all (fd ∷ fds) offsets_of s = elim (look s fd) [
    | none ↦ record { code = 1; offsets_of = offsets_of; table = s }
    | some f ↦ close_all fds offsets_of (close fd s)
  ]

  -- From the second `dup` on.
  unfoldable pub share : Bool → Bool → ℕ → ℕ → State → Done
  unfolding close_all mydup mydup2
  share set_ok cur_ok fd newfd s = elim (dup_from fd 0 s) [
    | none ↦ record { code = 1; offsets_of = []; table = s }
    | some (fd1, s') ↦
        let invalid = (mydup2 D 101 102 (mydup D 100 s').1).1 in
        let both = close_all (fd ∷ newfd ∷ tempfd ∷ []) (look s' fd ∷ look s' fd1 ∷ []) invalid in
        if set_ok
        then (if cur_ok
            then both
            else record { code = 1; offsets_of = look s' fd ∷ []; table = s' })
        else record { code = 1; offsets_of = []; table = s' }
  ]

  unfoldable pub main : Text → Bool → Bool → State → Done
  unfolding share
  main filename set_ok cur_ok s = elim (open_file filename true s) [
    | none ↦ record { code = 1; offsets_of = []; table = s }
    | some (fd, s1) ↦ elim (dup_from fd 0 s1) [
      | none ↦ record { code = 1; offsets_of = []; table = close fd s1 }
      | some (newfd, s2) ↦ elim (look s2 fd) [
        | none ↦ record { code = 1; offsets_of = []; table = close fd s2 }
        | some f ↦ share set_ok cur_ok fd newfd (dup2 fd tempfd s2)
      ]
    ]
  ]
