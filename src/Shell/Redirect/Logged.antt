-- ===== src/Shell/Redirect/Logged.antt =====
-- HW2/terminal.c: the command in a child's log, typed again.
use advanced_c_language_proj.Base.{
  ◌<◌, ◌≤◌, ◌≡◌, ◌∙◌, refl, sym, ap, List, [], ◌∷◌, ◌++◌, Option, none, some, All, All-append,
  All-weaken, length, length-append, arith, append_assoc,
}
use advanced_c_language_proj.Base.Text.{Text}
use advanced_c_language_proj.Shell.Parse.{parse_line}
use advanced_c_language_proj.Shell.Parse.Reading.{IsLine}
use advanced_c_language_proj.Shell.Parse.Tokens.{joined}
use advanced_c_language_proj.Shell.Parse.Lines.{IsWord, Command, typed, IsTyped, parse_line-joined}
use advanced_c_language_proj.Shell.Redirect.{redirect, log_args, log_file, log_command}
use advanced_c_language_proj.Shell.Redirect.Files.{
  Redirection, input_from, output_to, words_of, last_input, last_output, IsPlain, HasPlainFile,
  redirect-append,
}

-- A word that is not taken for a redirection.
abbrev pub IsArgument : Text → Type 0
IsArgument arg = IsWord arg × IsPlain arg

-- The files of a command, where it has one.
abbrev pub IsFile : Option Text → Type 0
IsFile none = Unit {0}
IsFile (some file) = IsArgument file

abbrev redirections : Option Text → Option Text → List Redirection
redirections none none = []
redirections none (some file) = output_to file ∷ []
redirections (some file) none = input_from file ∷ []
redirections (some file) (some file') = input_from file ∷ output_to file' ∷ []

log_args-append : (xs ys : List Text) → log_args (xs ++ ys) ≡ log_args xs ++ log_args ys
unfolding log_args
log_args-append [] ys = refl
log_args-append (x ∷ xs) ys =
    ap (λ u. x ++ b' ' ∷ u) (log_args-append xs ys)
    ∙ sym (append_assoc x (b' ' ∷ log_args xs) (log_args ys))

log_args-joined :
    (x : Text) (xs : List Text) → log_args (x ∷ xs) ≡ joined b' ' (x ∷ xs) ++ b' ' ∷ []
unfolding log_args joined
log_args-joined x [] = refl
log_args-joined x (y ∷ xs) =
    ap (λ u. x ++ b' ' ∷ u) (log_args-joined y xs)
    ∙ sym (append_assoc x (b' ' ∷ joined b' ' (y ∷ xs)) (b' ' ∷ []))

-- The files are logged as the words of their redirections.
log_files :
    (input_file output_file : Option Text)
    → log_file b'<' input_file ++ (log_file b'>' output_file ++ b'\n' ∷ [])
      ≡ log_args (words_of (redirections input_file output_file)) ++ b'\n' ∷ []
unfolding log_file log_args words_of
log_files none none = refl
log_files none (some file) = refl
log_files (some file) none = refl
log_files (some file) (some file') =
    let second = b'>' ∷ b' ' ∷ (file' ++ b' ' ∷ []) in
    ap (λ u. b'<' ∷ b' ' ∷ u)
      (append_assoc file (b' ' ∷ []) (second ++ b'\n' ∷ [])
        ∙ sym (append_assoc file (b' ' ∷ second) (b'\n' ∷ [])))

-- The line that is logged, as a command that is typed.
abbrev again : Text → List Text → Option Text → Option Text → Command
again program plain input_file output_file = record {
  front = [];
  words = program ∷ (plain ++ words_of (redirections input_file output_file));
  back = b' ' ∷ b'\n' ∷ [];
}

typed-again :
    (program : Text) (plain : List Text) (input_file output_file : Option Text)
    → log_command
        (record { args = program ∷ plain; input_file = input_file; output_file = output_file })
      ≡ typed (again program plain input_file output_file)
unfolding log_command typed
typed-again program plain input_file output_file =
    let rs = words_of (redirections input_file output_file) in
    let args = log_args (program ∷ plain) in
    ap (λ u. args ++ u) (log_files input_file output_file)
    ∙ sym (append_assoc args (log_args rs) (b'\n' ∷ []))
    ∙ ap (λ u. u ++ b'\n' ∷ [])
        (sym (log_args-append (program ∷ plain) rs) ∙ log_args-joined program (plain ++ rs))
    ∙ append_assoc (joined b' ' (program ∷ (plain ++ rs))) (b' ' ∷ []) (b'\n' ∷ [])

from_input : IsWord (b'<' ∷ [])
from_input = (λ e. absurd cc, ((refl, omega arith), tt))

to_output : IsWord (b'>' ∷ [])
to_output = (λ e. absurd cc, ((refl, omega arith), tt))

words_of-IsWord :
    (input_file output_file : Option Text)
    → IsFile input_file
    → IsFile output_file
    → All IsWord (words_of (redirections input_file output_file))
      × All HasPlainFile (redirections input_file output_file)
      × (last_input (redirections input_file output_file) none ≡ input_file)
      × (last_output (redirections input_file output_file) none ≡ output_file)
      × (length (words_of (redirections input_file output_file)) ≤ 4)
unfolding words_of last_input last_output
words_of-IsWord none none h h' = (tt, tt, refl, refl, omega arith)
words_of-IsWord none (some file) h h' =
    ((to_output, (h'.0, tt)), (h'.1, tt), refl, refl, omega arith)
words_of-IsWord (some file) none h h' =
    ((from_input, (h.0, tt)), (h.1, tt), refl, refl, omega arith)
words_of-IsWord (some file) (some file') h h' =
    ((from_input, (h.0, (to_output, (h'.0, tt)))), (h.1, (h'.1, tt)), refl, refl, omega arith)

-- The line in a child's log says what the child does: typed at the shell, it is cut into one command,
-- which is redirected to the same program with the same arguments, the same input and the same output.
-- The program, its fewer than 15 arguments and its files are words without white space or bars, none
-- but the program is `<` or `>`, and the line has at most 255 bytes with its newline and no zero byte.
pub redirect-parse_line :
    (command rest program : Text) (plain : List Text) (input_file output_file : Option Text)
    → IsWord program
    → All IsArgument plain
    → IsFile input_file
    → IsFile output_file
    → length plain < 15
    → IsLine (
        log_command
          (record { args = program ∷ plain; input_file = input_file; output_file = output_file }))
    → (args : List Text) × (parse_line command (
          log_command
            (record { args = program ∷ plain; input_file = input_file; output_file = output_file })
          ++ rest)
        ≡ some ((program ∷ args) ∷ []))
      × (redirect program args
          ≡ record { args = program ∷ plain; input_file = input_file; output_file = output_file })
unfolding joined
redirect-parse_line command rest program plain input_file output_file word arguments input output
      few line =
    let rs = redirections input_file output_file in
    let (symbols, plain_files, same_input, same_output, short) =
      words_of-IsWord input_file output_file input output in
    let words_fit : length (program ∷ (plain ++ words_of rs)) < 20 =
      omega (arith, length-append plain (words_of rs)) in
    let valid : IsTyped (again program plain input_file output_file) = record {
      front_blank = tt;
      back_blank = (refl, (refl, tt));
      words_plain = (
        word,
        All-append IsWord plain (words_of rs)
            (All-weaken IsArgument IsWord (λ x h. h.0) plain arguments) symbols,
      );
      some_word = λ e. absurd cc;
      words_fit = words_fit;
    } in
    let cut =
      parse_line-joined command rest (again program plain input_file output_file ∷ []) (valid, tt)
        (omega arith) (rw (typed-again program plain input_file output_file) at line) in
    let taken =
      redirect-append program plain rs (All-weaken IsArgument IsPlain (λ x h. h.1) plain arguments)
        plain_files in
    (
      plain ++ words_of rs,
      ap (λ u. parse_line command (u ++ rest)) (typed-again program plain input_file output_file)
          ∙ cut,
      rw (same_input, same_output) at taken,
    )
