-- ===== src/Shell/Child/Files.antt =====
-- HW2/terminal.c: the standard input and output that a child's command is run with.
use advanced_c_language_proj.Base.{
  ℕ, zero, suc, ◌-◌, ◌≤◌, ◌<◌, ◌≡◌, ◌≢◌, ◌⊎◌, ◌∙◌, refl, sym, Bool, true, false, List, [], ◌∷◌,
  Option, none, some, ◌==◌, ltb, if◌then◌else◌, length, arith, Bool-cases, Option-cases, inl, inr,
}
use advanced_c_language_proj.Base.Text.{Text}
use advanced_c_language_proj.Descriptors.{Descriptors, IsLawful}
use advanced_c_language_proj.Descriptors.Opening.{Opening, IsOpeningLawful}
use advanced_c_language_proj.Shell.Pipes.{end_of, child}
use advanced_c_language_proj.Shell.Pipes.Ends.{is_end, AreApart, AreApart-least}
use advanced_c_language_proj.Shell.Pipes.Wiring.{look_moved, child-IsWired}
use advanced_c_language_proj.Shell.Redirect.{redirect, Redirected}
use advanced_c_language_proj.Shell.Child.{
  Tm, log_name, log_text, redirect_to, write_log, Started, start_child,
}

-- The two ends of a pipe are ends.
is_end-end_of :
    (pipefds : List (ℕ × ℕ)) (m : ℕ)
    → m < length pipefds
    → (is_end (end_of pipefds m).0 pipefds ≡ true) × (is_end (end_of pipefds m).1 pipefds ≡ true)
unfolding is_end
is_end-end_of [] m h = absurd (omega arith)
is_end-end_of (p ∷ pipefds) zero h = (ground arith, ground arith)
is_end-end_of (p ∷ pipefds) (suc m) h =
    let (reads, writes) = is_end-end_of pipefds m (omega arith) in
    (ground (arith, reads), ground (arith, writes))

module _ (D : Descriptors) (law : IsLawful D) (O : Opening D) (opens : IsOpeningLawful O) where
  open D use {State, File, look, close, dup2}
  open O use {open_file, IsOpened}

  -- What a standard descriptor stands for behind its redirection, if there is one.
  unfoldable pub Redirects : Option Text → Bool → Option File → Option File → Type 0
  Redirects none writing before after = after ≡ before
  Redirects (some file) writing before after =
      (f : File) × (after ≡ some f) × IsOpened f file writing

  redirect_to_lem :
      (standard : ℕ) (file : Option Text) (writing : Bool) (s : State) (f : File)
      → standard < 2
      → look s standard ≡ some f
      → ((name : Text) × (file ≡ some name)
          × (open_file name writing s ≡ none)
          × (redirect_to D O standard file writing s ≡ none))
        ⊎ ((t : State) × (redirect_to D O standard file writing s ≡ some t)
            × Redirects file writing (look s standard) (look t standard)
            × ((fd : ℕ) → fd ≢ standard → look t fd ≡ look s fd))
  unfolding redirect_to Redirects
  redirect_to_lem standard none writing s f small opened = inr (s, refl, refl, λ fd apart. refl)
  redirect_to_lem standard (some name) writing s f small opened =
      elim (Option-cases (open_file name writing s)) [
        | inl failed ↦ inl (name, refl, failed, rw (redirect_to, failed) refl)
        | inr ((new, s'), done) ↦
            let (free, g, is_opened, looks) = opens.look-open_file name writing s s' new done in
            let fresh : new ≢ standard = λ e.
              let none_there : look s standard ≡ none = rw e at free in
              ground (arith, none_there, opened) in
            let moved =
              λ (fd : ℕ). look_moved D law new standard s' g fd (ground (arith, looks new)) small in
            inr (
              close new (dup2 new standard s'),
              rw (redirect_to, done) refl,
              (g, ground (arith, moved standard, fresh), is_opened),
              λ fd apart. ground (arith, moved fd, looks fd, free),
            )
      ]

  write_log_lem :
      (filename : Text) (s : State)
      → ((open_file filename true s ≡ none) × (write_log D O filename s ≡ none))
        ⊎ ((t : State) × (write_log D O filename s ≡ some t) × ((fd : ℕ) → look t fd ≡ look s fd))
  unfolding write_log
  write_log_lem filename s = elim (Option-cases (open_file filename true s)) [
    | inl failed ↦ inl (failed, rw (write_log, failed) refl)
    | inr ((new, s'), done) ↦
        let (free, g, is_opened, looks) = opens.look-open_file filename true s s' new done in
        inr (
          close new s',
          rw (write_log, done) refl,
          λ fd. elim (Bool-cases (fd == new)) [
            | inl same ↦
                let here : fd ≡ new = ground (arith, same) in
                let none_there : look s fd ≡ none = rw (sym here) at free in
                ground (arith, none_there, looks fd, law.look-close s' new fd, same)
            | inr apart ↦ ground (arith, looks fd, law.look-close s' new fd, apart)
          ],
        )
  ]

  -- The first file of child `i` that does not open where the child opens it: its input behind the pipes,
  -- its output behind its input, or its log behind both.
  pub data Fails (i : ℕ) (pipefds : List (ℕ × ℕ)) (s : State) (command : Redirected)
      (filename : Text) : Type 0 where
    input_fails :
        (name : Text)
        → command.input_file ≡ some name
        → open_file name false (child D i pipefds s) ≡ none
        → Fails i pipefds s command filename
    output_fails :
        (name : Text) (s1 : State)
        → redirect_to D O 0 command.input_file false (child D i pipefds s) ≡ some s1
        → command.output_file ≡ some name
        → open_file name true s1 ≡ none
        → Fails i pipefds s command filename
    log_fails :
        (s1 s2 : State)
        → redirect_to D O 0 command.input_file false (child D i pipefds s) ≡ some s1
        → redirect_to D O 1 command.output_file true s1 ≡ some s2
        → open_file filename true s2 ≡ none
        → Fails i pipefds s command filename

  -- Child `i` before `execvp`, with the descriptors `s` at the fork.
  pub record IsStarted (i : ℕ) (pipefds : List (ℕ × ℕ)) (command : Redirected) (s : State)
      (child : Started D O) : Type 0 where
    pub args : child.args ≡ command.args
    pub input :
        Redirects command.input_file false
          (if i == 0 then look s 0 else look s (end_of pipefds (i - 1)).0)
          (look child.descriptors 0)
    pub output :
        Redirects command.output_file true
          (if ltb i (length pipefds) then look s (end_of pipefds i).1 else look s 1)
          (look child.descriptors 1)
    pub closed : (fd : ℕ) → is_end fd pipefds ≡ true → look child.descriptors fd ≡ none
    pub others :
        (fd : ℕ) → 2 ≤ fd → is_end fd pipefds ≡ false → look child.descriptors fd ≡ look s fd

  module _ (i : ℕ) (pipefds : List (ℕ × ℕ)) (s : State) (f g : File) (least : i ≤ length pipefds)
      (apart : AreApart pipefds)
      (open_ends : (fd : ℕ) → is_end fd pipefds ≡ true → (h : File) × (look s fd ≡ some h))
      (has_input : look s 0 ≡ some f) (has_output : look s 1 ≡ some g) where
    input_open : (h : File) × (look (child D i pipefds s) 0 ≡ some h)
    input_open =
        let wired = child-IsWired D law i pipefds s least apart open_ends in
        elim (Bool-cases (i == 0)) [
          | inl first ↦ (f, ground (arith, wired.input, first, has_input))
          | inr later ↦
              let at_end = (is_end-end_of pipefds (i - 1) (ground (arith, later))).0 in
              let (h, opened) = open_ends (end_of pipefds (i - 1)).0 at_end in
              (h, ground (arith, wired.input, later, opened))
        ]

    output_open : (h : File) × (look (child D i pipefds s) 1 ≡ some h)
    output_open =
        let wired = child-IsWired D law i pipefds s least apart open_ends in
        elim (Bool-cases (ltb i (length pipefds))) [
          | inl more ↦
              let at_end = (is_end-end_of pipefds i (ground (arith, more))).1 in
              let (h, opened) = open_ends (end_of pipefds i).1 at_end in
              (h, ground (arith, wired.output, more, opened))
          | inr last ↦ (g, ground (arith, wired.output, last, has_output))
        ]

    -- A child exits because a file of its own does not open, or runs its command with the standard
    -- input and output at the files that the command names, and at its pipes where it names none. No
    -- other end of a pipe is open, and every other descriptor is as it was.
    pub start_child-IsStarted :
        (program : Text) (args : List Text) (now : Tm) (pid : ℕ)
        → (Fails i pipefds s (redirect program args) (log_name now i)
            × (start_child D O i pipefds program args now pid s ≡ none))
          ⊎ ((child : Started D O) × (start_child D O i pipefds program args now pid s ≡ some child)
              × IsStarted i pipefds (redirect program args) s child)
    unfolding start_child
    start_child-IsStarted program args now pid =
        let command = redirect program args in
        let wired = child-IsWired D law i pipefds s least apart open_ends in
        let (h, first_open) = input_open in
        let (h', second_open) = output_open in
        elim (redirect_to_lem 0 command.input_file false (child D i pipefds s) h (omega arith)
          first_open) [
            | inl (name, named, failed, stops) ↦
                inl (input_fails name named failed, rw (start_child, stops) refl)
            | inr (s1, done1, at_input, same1) ↦
                let still : look s1 1 ≡ some h' = same1 1 (omega arith) ∙ second_open in
                elim (redirect_to_lem 1 command.output_file true s1 h' (omega arith) still) [
                  | inl (name, named, failed, stops) ↦
                      inl (
                        output_fails name s1 done1 named failed,
                        rw (start_child, done1, stops) refl,
                      )
                  | inr (s2, done2, at_output, same2) ↦ elim (write_log_lem (log_name now i) s2) [
                    | inl (failed, stops) ↦ inl (
                      log_fails s1 s2 done1 done2 failed,
                      rw (start_child, done1, done2, stops) refl,
                    )
                    | inr (s3, done3, same3) ↦
                        let same : (fd : ℕ) → 2 ≤ fd → look s3 fd ≡ look (child D i pipefds s) fd =
                          λ fd big. same3 fd ∙ same2 fd (omega arith) ∙ same1 fd (omega arith) in
                        inr (
                          record {
                            args = command.args;
                            descriptors = s3;
                            filename = log_name now i;
                            log = log_text i pid command;
                          },
                          rw (start_child, done1, done2, done3) refl,
                          record {
                            args = refl;
                            input = rw (same3 0, same2 0 (omega arith), sym wired.input) at_input;
                            output =
                                rw (same3 1, sym wired.output, sym (same1 1 (omega arith)))
                                  at_output;
                            closed = λ fd inside.
                                same fd (AreApart-least pipefds fd apart inside)
                                ∙ wired.closed fd inside;
                            others = λ fd big free. same fd big ∙ wired.others fd big free;
                          },
                        )
                  ]
                ]
          ]
