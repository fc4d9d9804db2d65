-- ===== src/Shell/Wait.antt =====
-- HW2/terminal.c: the end of the children of a line, with `handle_sigchld`, which interrupts `main` at any
-- time, and the loop of `main` over `waitpid`.
pub mod Reports
pub mod Ending
pub mod Stale
use advanced_c_language_proj.Base.{
  ℕ, ◌+◌, ◌≡◌, Bool, true, false, List, [], ◌∷◌, ◌++◌, length, ◌==◌, if◌then◌else◌,
}

-- The status of a child that has ended.
pub data Status : Type 0 where
  exited : ℕ → Status
  signaled : ℕ → Status

abbrev pub sigkill : ℕ
sigkill = 9

unfoldable pub was_killed : Status → Bool
was_killed (exited status) = false
was_killed (signaled signal) = signal == sigkill

-- A child in the kernel: it runs, or has ended and keeps its status for `waitpid`, or is gone, since the
-- loop or the handler has waited for it.
pub data Child : Type 0 where
  running : Child
  zombie : Status → Child
  waited : Status → Child
  handled : Status → Child

-- What the shell prints.
pub data Report : Type 0 where
  ended : Status → Report
  killed : Report

-- `main` in its loop: the children in front of the index and from it on, the variable `status`, and what
-- has been printed.
pub record Shell : Type 0 where
  pub before : List Child
  pub children : List Child
  pub status : Status
  pub printed : List Report

-- What the handler prints. Its `kill` sends SIGTERM, which the shell ignores.
unfoldable pub handler_report : Status → List Report
unfolding was_killed
handler_report status = if was_killed status then killed ∷ [] else []

-- One child ends.
pub data Ends : List Child → List Child → Type 0 where
  ends : (a b : List Child) (status : Status) → Ends (a ++ running ∷ b) (a ++ zombie status ∷ b)

-- The handler waits for one.
pub data Handles (status : Status) : List Child → List Child → Type 0 where
  handles : (a b : List Child) → Handles status (a ++ zombie status ∷ b) (a ++ handled status ∷ b)

-- A child can end, and the handler wait for it, on either side of the index, since a round does not
-- always wait for its child.
pub data Step (s : Shell) : Shell → Type 0 where
  child_ends :
      (children : List Child) → Ends s.children children → Step s (record s { children = children })
  child_ends_behind :
      (before : List Child) → Ends s.before before → Step s (record s { before = before })
  handle_sigchld :
      (children : List Child) (status : Status)
      → Handles status s.children children
      → Step s (record s { children = children; printed = s.printed ++ handler_report status })
  handle_sigchld_behind :
      (before : List Child) (status : Status)
      → Handles status s.before before
      → Step s (record s { before = before; printed = s.printed ++ handler_report status })
  -- `waitpid` returns the child, whose status is kept.
  wait :
      (children : List Child) (status : Status)
      → s.children ≡ zombie status ∷ children
      → Step s (record {
        before = s.before ++ waited status ∷ [];
        children = children;
        status = status;
        printed = s.printed ++ ended status ∷ [];
      })
  -- It fails, since there is no such child any more, and leaves `status` as it is.
  wait_fails :
      (children : List Child) (status : Status)
      → s.children ≡ handled status ∷ children
      → Step s (record {
        before = s.before ++ handled status ∷ [];
        children = children;
        status = s.status;
        printed = s.printed ++ ended s.status ∷ [];
      })
  -- It fails with EINTR, since the handler is set without SA_RESTART and SIGCHLD comes for another
  -- child, one of an earlier line included, or for a child that is stopped. `status` is as it was, and
  -- the child goes on running.
  interrupted :
      (children : List Child)
      → s.children ≡ running ∷ children
      → Step s (record {
        before = s.before ++ running ∷ [];
        children = children;
        status = s.status;
        printed = s.printed ++ ended s.status ∷ [];
      })

pub data Run (s : Shell) : Shell → Type 0 where
  begin : Run s s
  after : {t u : Shell} → Run s t → Step t u → Run s u

-- Behind the forks, with `status` as it happens to be.
unfoldable pub forked : List Child → Status → Shell
forked children status = record { before = []; children = children; status = status; printed = [] }
