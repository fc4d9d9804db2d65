-- ===== src/Shell/Tests.antt =====
-- HW2/terminal.c at concrete inputs.
use advanced_c_language_proj.Base.{
  ◌++◌, ℕ, ◌+◌, ◌≡◌, refl, true, none, some, ltb, if◌then◌else◌, Option, List, All, [], ◌∷◌, arith,
  length, min, map, replicate, ◌≤◌, ◌⊎◌,
}
use advanced_c_language_proj.Base.Text.{Text, codes, str_eq}
use advanced_c_language_proj.Descriptors.Opening.{opening_table, opening_table-IsOpeningLawful}
use advanced_c_language_proj.Shell.Child.{Tm, Started, log_name, time_stamp, padded}
use advanced_c_language_proj.Shell.Child.Names.{IsTm}
use advanced_c_language_proj.Shell.Line.{starts, run_line}
use advanced_c_language_proj.Shell.Line.Children.{AreStarted, run_line-AreStarted}
use advanced_c_language_proj.Shell.Wait.{
  Child, exited, signaled, running, waited, handled, ended, killed, Shell, handler_report, ends,
  handles, Step, child_ends, handle_sigchld, wait, wait_fails, Run, begin, after, forked,
}
use advanced_c_language_proj.Shell.Wait.Reports.{statuses, replay, Run-replay}
use advanced_c_language_proj.Shell.Wait.Ending.{steps, loop_ends}
use advanced_c_language_proj.Shell.Wait.Stale.{stale_reports}
use advanced_c_language_proj.Descriptors.Table.{table, table-IsLawful}
use advanced_c_language_proj.Shell.Pipes.Ends.{is_end, AreApart}
use advanced_c_language_proj.Shell.Parse.{written, parse_line}
use advanced_c_language_proj.Shell.Parse.Tokens.{joined, IsToken, written-joined}
use advanced_c_language_proj.Shell.Parse.Reading.{IsLine}
use advanced_c_language_proj.Shell.Parse.Lines.{Command, typed, IsTyped, parse_line-joined}
use advanced_c_language_proj.Shell.Redirect.{redirect, log_command, log_args, log_file}
use advanced_c_language_proj.Shell.Redirect.Logged.{redirect-parse_line}

-- Two pipes, for three commands.
abbrev pipes : List (ℕ × ℕ)
pipes = (3, 4) ∷ (5, 6) ∷ []

abbrev seven : ℕ → Option ℕ
seven fd = if ltb fd 7 then some (fd + 10) else none

open_pipes : (fd : ℕ) → is_end fd pipes ≡ true → (f : ℕ) × (seven fd ≡ some f)
unfolding is_end
open_pipes fd h = (fd + 10, ground arith)

abbrev two : List Text
two = codes "ab" ∷ codes "c" ∷ []

two-IsToken : All (IsToken b' ') two
two-IsToken = ((λ e. absurd cc, omega arith), ((λ e. absurd cc, omega arith), tt))

-- No room for the second token, and yet two elements are written.
written-joined_example : written 1 b' ' (joined b' ' two) ≡ min 1 (length two) + 1
written-joined_example = written-joined 1 b' ' two two-IsToken

-- `ls -l | wc`
abbrev commands : List Command
commands =
    record { front = []; words = codes "ls" ∷ codes "-l" ∷ []; back = codes " " }
    ∷ record { front = codes " "; words = codes "wc" ∷ []; back = codes "\n" }
    ∷ []

joined-typed : joined b'|' (map typed commands) ≡ codes "ls -l | wc\n"
unfolding joined typed
joined-typed = refl

commands-IsTyped : All IsTyped commands
commands-IsTyped = (
  record {
    front_blank = tt;
    back_blank = (refl, tt);
    words_plain = ((λ e. absurd cc, ground arith), ((λ e. absurd cc, ground arith), tt));
    some_word = λ e. absurd cc;
    words_fit = omega arith;
  },
  (
    record {
      front_blank = (refl, tt);
      back_blank = (refl, tt);
      words_plain = ((λ e. absurd cc, ground arith), tt);
      some_word = λ e. absurd cc;
      words_fit = omega arith;
    },
    tt,
  ),
)

commands-IsLine : IsLine (joined b'|' (map typed commands))
commands-IsLine = record {
  body = codes "ls -l | wc";
  split = joined-typed;
  plain = omega arith;
  short = omega arith;
}

parse_line-joined_example :
    parse_line [] (joined b'|' (map typed commands) ++ codes "ls\n")
    ≡ some ((codes "ls" ∷ codes "-l" ∷ []) ∷ (codes "wc" ∷ []) ∷ [])
parse_line-joined_example =
    parse_line-joined [] (codes "ls\n") commands commands-IsTyped (omega arith) commands-IsLine

sorted-IsLine : IsLine (
    log_command (record {
      args = codes "sort" ∷ codes "-r" ∷ [];
      input_file = some (codes "b");
      output_file = none;
    }))
unfolding log_command log_args log_file
sorted-IsLine = record {
  body = codes "sort -r < b ";
  split = refl;
  plain = omega arith;
  short = omega arith;
}

redirect-parse_line_example :
    (args : List Text) × (parse_line [] (
        log_command (record {
          args = codes "sort" ∷ codes "-r" ∷ [];
          input_file = some (codes "b");
          output_file = none;
        })
        ++ [])
      ≡ some ((codes "sort" ∷ args) ∷ []))
    × (redirect (codes "sort") args ≡ record {
      args = codes "sort" ∷ codes "-r" ∷ [];
      input_file = some (codes "b");
      output_file = none;
    })
unfolding str_eq
redirect-parse_line_example =
    redirect-parse_line [] [] (codes "sort") (codes "-r" ∷ []) (some (codes "b")) none
      (λ e. absurd cc, ground arith) (((λ e. absurd cc, ground arith), (refl, refl)), tt)
      ((λ e. absurd cc, ground arith), (refl, refl)) tt (omega arith) sorted-IsLine

abbrev now : Tm
now = record { tm_mday = 7; tm_mon = 3; tm_year = 123; tm_hour = 9; tm_min = 30; tm_sec = 5 }

now-IsTm : IsTm now
now-IsTm = record {
  mday = omega arith;
  mon = omega arith;
  year = omega arith;
  hour = omega arith;
  min = omega arith;
  sec = omega arith;
}

log_name_7 : log_name now 7 ≡ codes "07-04-2023-09-30-05_child_7.log"
unfolding log_name time_stamp padded
log_name_7 = refl

-- The first child ends and the loop waits for it; the handler waits for the second one.
mixed_run : Run (forked (replicate 2 running) (exited 9)) (record {
  before = waited (exited 0) ∷ handled (signaled 9) ∷ [];
  children = [];
  status = exited 0;
  printed = ended (exited 0) ∷ killed ∷ ended (exited 0) ∷ [];
})
unfolding forked handler_report
mixed_run =
    after
      (after
        (after
          (after (after begin (child_ends _ (ends [] (running ∷ []) (exited 0))))
            (wait (running ∷ []) (exited 0) refl))
          (child_ends _ (ends [] [] (signaled 9))))
        (handle_sigchld _ (signaled 9) (handles [] [])))
      (wait_fails [] (signaled 9) refl)

Run-replay_example : exited 0 ∷ exited 0 ∷ [] ≡ exited 0 ∷ exited 0 ∷ []
unfolding statuses replay
Run-replay_example = Run-replay (replicate 2 running) (exited 9) mixed_run

loop_ends_example :
    (5 ≤ 6)
    × (((◌≡◌ {A = List Child} [] []) × (◌≡◌ {A = ℕ} 2 2))
        ⊎ ((t : Shell) × Step
              (record {
                before = waited (exited 0) ∷ handled (signaled 9) ∷ [];
                children = [];
                status = exited 0;
                printed = ended (exited 0) ∷ killed ∷ ended (exited 0) ∷ [];
              })
              t))
unfolding steps mixed_run
loop_ends_example = loop_ends 2 (exited 9) mixed_run

stale_reports_example :
    (s : Shell) × Run (forked (replicate 2 running) (exited 7)) s
    × (s.children ≡ [])
    × (statuses s.printed ≡ exited 7 ∷ exited 7 ∷ [])
stale_reports_example = stale_reports (exited 0 ∷ exited 1 ∷ []) (exited 7)

abbrev one_pipe : List (ℕ × ℕ)
one_pipe = (3, 4) ∷ []

abbrev five : ℕ → Option ℕ
five fd = if ltb fd 5 then some (fd + 10) else none

open_pipe : (fd : ℕ) → is_end fd one_pipe ≡ true → (f : ℕ) × (five fd ≡ some f)
unfolding is_end
open_pipe fd h = (fd + 10, ground arith)

run_line-AreStarted_example :
    (children : List (Option (Started table opening_table))) × (run_line table opening_table
        one_pipe
        (λ i. now)
        (λ i. 50 + i)
        five
        []
        (joined b'|' (map typed commands) ++ [])
      ≡ starts children)
    × AreStarted table table-IsLawful opening_table opening_table-IsOpeningLawful one_pipe
        (λ i. now)
        (λ i. 50 + i)
        five
        0
        ((codes "ls" ∷ codes "-l" ∷ []) ∷ (codes "wc" ∷ []) ∷ [])
        children
unfolding AreApart is_end joined typed str_eq
run_line-AreStarted_example =
    run_line-AreStarted table table-IsLawful opening_table opening_table-IsOpeningLawful one_pipe
      (λ i. now) (λ i. 50 + i) five 10 11 (ground arith) open_pipe refl refl [] [] commands
      commands-IsTyped (omega arith) commands-IsLine refl refl
