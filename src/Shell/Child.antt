-- ===== src/Shell/Child.antt =====
-- HW2/terminal.c: a child from `fork` to `execvp`. `none`: the child has called `exit`.
pub mod Files
pub mod Names
use advanced_c_language_proj.Base.{
  ℕ, ◌+◌, ◌-◌, Bool, true, false, List, [], ◌∷◌, ◌++◌, Option, none, some, replicate, length,
}
use advanced_c_language_proj.Base.Text.{Text, codes, decimal}
use advanced_c_language_proj.Descriptors.{Descriptors}
use advanced_c_language_proj.Descriptors.Opening.{Opening}
use advanced_c_language_proj.Shell.Pipes.{child}
use advanced_c_language_proj.Shell.Redirect.{Redirected, redirect, log_command}

-- `struct tm`, as far as it is printed, for a year from 1900 on.
pub record Tm : Type 0 where
  pub tm_mday : ℕ
  pub tm_mon : ℕ
  pub tm_year : ℕ
  pub tm_hour : ℕ
  pub tm_min : ℕ
  pub tm_sec : ℕ

-- `%0<width>d`
unfoldable pub padded : ℕ → ℕ → Text
padded width n = replicate (width - length (decimal n)) b'0' ++ decimal n

unfoldable pub time_stamp : Tm → Text
unfolding padded
time_stamp tm =
    padded 2 tm.tm_mday
    ++ b'-'
      ∷ (padded 2 (tm.tm_mon + 1)
          ++ b'-'
            ∷ (padded 4 (tm.tm_year + 1900)
                ++ b'-'
                  ∷ (padded 2 tm.tm_hour
                      ++ b'-' ∷ (padded 2 tm.tm_min ++ b'-' ∷ padded 2 tm.tm_sec))))

-- `filename`
unfoldable pub log_name : Tm → ℕ → Text
unfolding time_stamp decimal
log_name tm i = time_stamp tm ++ (codes "_child_" ++ (decimal i ++ codes ".log"))

-- What is written to the log.
unfoldable pub log_text : ℕ → ℕ → Redirected → Text
unfolding log_command decimal
log_text i pid command =
    codes "Child process "
    ++ (decimal i
        ++ (codes " pid: "
            ++ (decimal pid
                ++ (codes "\n" ++ (codes "Executed command: " ++ log_command command)))))

module _ (D : Descriptors) (O : Opening D) where
  open D use {State, close, dup2}
  open O use {open_file}

  -- A file, if there is one, becomes the standard input or output.
  unfoldable pub redirect_to : ℕ → Option Text → Bool → State → Option State
  redirect_to standard none writing s = some s
  redirect_to standard (some file) writing s = elim (open_file file writing s) [
    | none ↦ none
    | some (fd, s') ↦ some (close fd (dup2 fd standard s'))
  ]

  -- `fopen` and `fclose` of the log.
  unfoldable pub write_log : Text → State → Option State
  write_log filename s = elim (open_file filename true s) [
    | none ↦ none
    | some (log_file, s') ↦ some (close log_file s')
  ]

  -- What the child hands to `execvp`, and its log.
  pub record Started : Type 0 where
    pub args : List Text
    pub descriptors : State
    pub filename : Text
    pub log : Text

  -- Child `i`, whose command has a program and arguments.
  unfoldable pub start_child : ℕ → List (ℕ × ℕ) → Text → List Text → Tm → ℕ → State → Option Started
  unfolding child redirect redirect_to write_log log_name log_text
  start_child i pipefds program args now pid s =
      let command = redirect program args in
      elim (redirect_to 0 command.input_file false (child D i pipefds s)) [
        | none ↦ none
        | some s1 ↦ elim (redirect_to 1 command.output_file true s1) [
          | none ↦ none
          | some s2 ↦ elim (write_log (log_name now i) s2) [
            | none ↦ none
            | some s3 ↦ some (record {
              args = command.args;
              descriptors = s3;
              filename = log_name now i;
              log = log_text i pid command;
            })
          ]
        ]
      ]
