-- ===== src/Copier/CopyFile.antt =====
-- HW5/program.c: `copy_file`, on the descriptor table of the process and against a kernel as for `copy_fd`.
mod Tests
use advanced_c_language_proj.Base.{
  ℕ, ◌+◌, ◌<◌, length, ◌≡◌, ◌≢◌, ◌⊎◌, ◌∙◌, inl, inr, refl, sym, Bool, true, false, List, [], Option,
  none, some, ◌==◌, if◌then◌else◌, arith, Bool-cases, Option-cases,
}
use advanced_c_language_proj.Base.Text.{Text}
use advanced_c_language_proj.Descriptors.{Descriptors, IsLawful}
use advanced_c_language_proj.Descriptors.Opening.{Opening, IsOpeningLawful}
use advanced_c_language_proj.Copier.CopyFd.{Round, Copy, copy_fd}
use advanced_c_language_proj.Copier.CopyFd.Bytes.{copy_fd-ne-none}

-- What `lstat` says of the source.
pub data Source : Type 0 where
  not_found fifo other : Source

-- What comes of a call: one of the four messages, a FIFO, or the copy of a file. `running` is a copy
-- that is not done within the rounds.
pub data Outcome : Type 0 where
  no_information mkfifo_failed not_opened not_created : Outcome
  made_fifo : Outcome
  running : Outcome
  copied : Copy → Outcome

module _ (D : Descriptors) (O : Opening D) where
  open D use {State, look, close}
  open O use {open_file}

  -- `contents` are the bytes of the source, and `before` is the statistics with an empty destination.
  unfoldable pub copy_file :
      Text → Text → Source → Bool → List Round → List ℕ → Copy → State → Outcome × State
  copy_file src_path dest_path not_found made rounds contents before s = (no_information, s)
  copy_file src_path dest_path fifo made rounds contents before s =
      (if made then made_fifo else mkfifo_failed, s)
  copy_file src_path dest_path other made rounds contents before s =
      elim (open_file src_path false s) [
        | none ↦ (not_opened, s)
        | some (src_fd, s1) ↦ elim (open_file dest_path true s1) [
          | none ↦ (not_created, close src_fd s1)
          | some (dest_fd, s2) ↦ elim (copy_fd rounds contents before) [
            | none ↦ (running, s2)
            | some c ↦ (copied c, close dest_fd (close src_fd s2))
          ]
        ]
      ]

  module _ (law : IsLawful D) (opens : IsOpeningLawful O) where
    -- A descriptor that was opened is closed again.
    look-close_opened :
        (name : Text) (writing : Bool) (s s' : State) (fd : ℕ)
        → open_file name writing s ≡ some (fd, s')
        → (j : ℕ) → look (close fd s') j ≡ look s j
    look-close_opened name writing s s' fd e j =
        let (free, f, _, looks) = opens.look-open_file name writing s s' fd e in
        elim (Bool-cases (j == fd)) [
          | inl same ↦
              let here : j ≡ fd = ground (arith, same) in
              law.look-close s' fd j ∙ rw same (sym (rw (sym here) at free))
          | inr apart ↦ ground (arith, law.look-close s' fd j, looks j, apart)
        ]

    -- On every branch copy_file comes to its end, when the kernel answers more rounds than the source
    -- has bytes, and leaves each descriptor as it was.
    pub look-copy_file :
        (src_path dest_path : Text) (source : Source) (made : Bool) (rounds : List Round)
        (contents : List ℕ) (before : Copy) (s : State)
        → length contents < length rounds
        → ((copy_file src_path dest_path source made rounds contents before s).0 ≢ running)
          × ((j : ℕ)
              → look (copy_file src_path dest_path source made rounds contents before s).1 j
                ≡ look s j)
    unfolding copy_file
    look-copy_file src_path dest_path not_found made rounds contents before s enough =
        (λ e. absurd cc, λ j. refl)
    look-copy_file src_path dest_path fifo made rounds contents before s enough =
        (ground arith, λ j. refl)
    look-copy_file src_path dest_path other made rounds contents before s enough =
        elim (Option-cases (open_file src_path false s)) [
          | inl failed ↦ (rw (copy_file, failed) (λ e. absurd cc), λ j. rw (copy_file, failed) refl)
          | inr ((src_fd, s1), first) ↦
              let closed = look-close_opened src_path false s s1 src_fd first in
              elim (Option-cases (open_file dest_path true s1)) [
                | inl failed ↦ (
                  rw (copy_file, first, failed) (λ e. absurd cc),
                  λ j. rw (copy_file, first, failed) (closed j),
                )
                | inr ((dest_fd, s2), second) ↦
                    elim (Option-cases (copy_fd rounds contents before)) [
                      | inl stuck ↦ absurd (copy_fd-ne-none rounds contents before enough stuck)
                      | inr (c, done) ↦
                          let closed' = look-close_opened dest_path true s1 s2 dest_fd second in
                          (
                            rw (copy_file, first, second, done) (λ e. absurd cc),
                            λ j.
                                rw (copy_file, first, second, done)
                                  (ground (
                                    arith,
                                    closed j,
                                    closed' j,
                                    law.look-close (close src_fd s2) dest_fd j,
                                    law.look-close s2 src_fd j,
                                    law.look-close s2 dest_fd j,
                                    law.look-close s1 src_fd j,
                                  )),
                          )
                    ]
              ]
        ]
