-- ===== src/Shell/Line/Children.antt =====
-- HW2/terminal.c: the children of a whole line.
use advanced_c_language_proj.Base.{
  ℕ, ◌+◌, ◌≤◌, ◌<◌, ◌≡◌, ◌≢◌, ◌⊎◌, refl, true, false, List, [], ◌∷◌, ◌++◌, Option, none, some, map,
  length, length-map, All, arith,
}
use advanced_c_language_proj.Base.Text.{Text, codes, str_eq}
use advanced_c_language_proj.Descriptors.{Descriptors, IsLawful}
use advanced_c_language_proj.Descriptors.Opening.{Opening, IsOpeningLawful}
use advanced_c_language_proj.Shell.Parse.{max_args}
use advanced_c_language_proj.Shell.Parse.Reading.{IsLine, read_command-IsLine}
use advanced_c_language_proj.Shell.Parse.Tokens.{joined}
use advanced_c_language_proj.Shell.Parse.Lines.{Command, typed, IsTyped, parse_line-joined}
use advanced_c_language_proj.Shell.Pipes.Ends.{is_end, AreApart}
use advanced_c_language_proj.Shell.Redirect.{redirect}
use advanced_c_language_proj.Shell.Child.{Tm, log_name, Started, start_child}
use advanced_c_language_proj.Shell.Child.Files.{Fails, IsStarted, start_child-IsStarted}
use advanced_c_language_proj.Shell.Line.{starts, start_children, run_line}

module _ (D : Descriptors) (law : IsLawful D) (O : Opening D) (opens : IsOpeningLawful O) where
  open D use {State, File, look}

  module _ (pipefds : List (ℕ × ℕ)) (now : ℕ → Tm) (pid : ℕ → ℕ) (s : State) where
    -- What becomes of child `i` and those behind it: each exits because a file of its own does not open,
    -- or runs its command as `IsStarted` says.
    unfoldable pub AreStarted : ℕ → List (List Text) → List (Option (Started D O)) → Type 0
    AreStarted i [] [] = Unit {0}
    AreStarted i [] (child ∷ children) = [] ≡ child ∷ children
    AreStarted i (command ∷ commands) [] = [] ≡ command ∷ commands
    AreStarted i ([] ∷ commands) (child ∷ children) = [] ≡ child ∷ children
    AreStarted i ((program ∷ args) ∷ commands) (child ∷ children) =
        ((Fails D law O opens i pipefds s (redirect program args) (log_name (now i) i)
            × (child ≡ none))
          ⊎ ((started : Started D O) × (child ≡ some started)
              × IsStarted D law O opens i pipefds (redirect program args) s started))
        × AreStarted (i + 1) commands children

    module _ (f g : File) (apart : AreApart pipefds)
        (open_ends : (fd : ℕ) → is_end fd pipefds ≡ true → (h : File) × (look s fd ≡ some h))
        (has_input : look s 0 ≡ some f) (has_output : look s 1 ≡ some g) where
      start_children-AreStarted :
          (i : ℕ) (commands : List (List Text))
          → All (λ words. words ≢ []) commands
          → i + length commands ≤ length pipefds + 1
          → (children : List (Option (Started D O))) × (start_children D O i pipefds commands now
                pid s
              ≡ some children)
            × AreStarted i commands children
      unfolding start_children AreStarted
      start_children-AreStarted i [] words fit = ([], refl, tt)
      start_children-AreStarted i ([] ∷ commands) words fit = absurd (words.0 refl)
      start_children-AreStarted i ((program ∷ args) ∷ commands) words fit =
          let (children, done, started) =
            start_children-AreStarted (i + 1) commands words.1 (omega arith) in
          let child = start_child D O i pipefds program args (now i) (pid i) s in
          (
            child ∷ children,
            rw done refl,
            (
              start_child-IsStarted D law O opens i pipefds s f g (omega arith) apart open_ends
                  has_input has_output program args (now i) (pid i),
              started,
            ),
          )

      some_words :
          (commands : List Command)
          → All IsTyped commands
          → All (λ words. words ≢ []) (map (λ c. c.words) commands)
      some_words [] h = tt
      some_words (command ∷ commands) h = (h.0.some_word, some_words commands h.1)

      -- From a line of fewer than 20 commands, with bars between them and white space around them, each
      -- of fewer than 20 words with one blank between two of them, the shell starts one child for each
      -- command, and each of them exits because a file of its own does not open in the state in which
      -- the child opens it, or runs its command with the standard input and output at its files or
      -- pipes and no other end of a pipe open. The line has its newline at its end and nowhere else, at
      -- most 255 bytes with it, and no zero byte. There is one pipe fewer than commands, the ends of
      -- the pipes are open and apart from each other, the standard input and output of the shell are
      -- open, and the line is not `:q`.
      pub run_line-AreStarted :
          (command rest : Text) (commands : List Command)
          → All IsTyped commands
          → length commands < max_args
          → IsLine (joined b'|' (map typed commands))
          → length commands ≡ length pipefds + 1
          → str_eq (joined b'|' (map typed commands)) (codes ":q\n") ≡ false
          → (children : List (Option (Started D O))) × (run_line D O pipefds now pid s command
                (joined b'|' (map typed commands) ++ rest)
              ≡ starts children)
            × AreStarted 0 (map (λ c. c.words) commands) children
      unfolding run_line
      run_line-AreStarted command rest commands h few line one_more goes_on =
          let parsed = parse_line-joined command rest commands h few line in
          let whole = read_command-IsLine command (joined b'|' (map typed commands)) rest line in
          let words = map (λ (c : Command). c.words) commands in
          let (children, done, started) =
            start_children-AreStarted 0 words (some_words commands h)
              (omega (arith, one_more, length-map (λ (c : Command). c.words) commands)) in
          (children, rw (parsed, whole, goes_on, done) refl, started)
