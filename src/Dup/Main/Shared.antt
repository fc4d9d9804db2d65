-- ===== src/Dup/Main/Shared.antt =====
-- HW1/my_dup.c: the descriptors that `main` shares between them, and what it leaves open.
use advanced_c_language_proj.Base.{
  ℕ, ◌<◌, ◌≡◌, ◌≢◌, ◌∙◌, refl, sym, true, ◌||◌, List, [], ◌∷◌, Option, none, some, ◌==◌,
  if◌then◌else◌, arith, Bool-cases, inl, inr,
}
use advanced_c_language_proj.Base.Text.{Text}
use advanced_c_language_proj.Descriptors.{Descriptors, IsLawful}
use advanced_c_language_proj.Descriptors.Opening.{Opening, IsOpeningLawful}
use advanced_c_language_proj.Dup.{mydup, mydup2}
use advanced_c_language_proj.Dup.Main.{tempfd, close_all, main}
use advanced_c_language_proj.Dup.Main.Steps.{
  dup_below, close_all_three, look-invalid, share_run, main_run,
}

module _ (D : Descriptors) (law : IsLawful D) (O : Opening D) (opens : IsOpeningLawful O) where
  open D use {State, File, look, close, dup2, dup_from, limit}
  open O use {open_file, IsOpened}

  -- What main comes to, with `s` in front of it, when the file `f` opens.
  unfoldable pub IsShared : Text → State → File → Type 0
  IsShared filename s f =
      ((main D O filename true true s).code ≡ 0)
      × ((main D O filename true true s).offsets_of ≡ some f ∷ some f ∷ [])
      × (fd1 : ℕ) × (fd1 < 15)
      × (look s fd1 ≡ none)
      × ((j : ℕ)
          → look (main D O filename true true s).table j
            ≡ (if j == fd1 then some f else (if j == 15 || j == 102 then none else look s j)))

  module _ (fd newfd fd1 : ℕ) (s s1 s2 s4 : State) (f : File) (low : fd < 15) (low' : newfd < 15)
      (low'' : fd1 < 15) (looks1 : (j : ℕ) → look s1 j ≡ (if j == fd then some f else look s j))
      (looks2 : (j : ℕ) → look s2 j ≡ (if j == newfd then some f else look s1 j))
      (looks4 : (j : ℕ) → look s4 j ≡ (if j == fd1 then some f else look (dup2 fd tempfd s2) j))
      (free : look s fd ≡ none) (free' : look s1 newfd ≡ none)
      (free'' : look (dup2 fd tempfd s2) fd1 ≡ none) (closed : look s 100 ≡ none)
      (closed' : look s 101 ≡ none) where
    at_fd : look s2 fd ≡ some f
    at_fd = ground (arith, looks2 fd, looks1 fd)

    looks3 : (j : ℕ) → look (dup2 fd tempfd s2) j ≡ (if j == 15 then some f else look s2 j)
    looks3 j = law.look-dup2 s2 fd tempfd j f at_fd (omega (arith, law.standard))

    abbrev invalid : State
    invalid = (mydup2 D 101 102 (mydup D 100 s4).1).1

    looks_invalid : (j : ℕ) → look invalid j ≡ (if j == 102 then none else look s4 j)
    looks_invalid =
        look-invalid D law O opens s4
          (ground (arith, looks4 100, looks3 100, looks2 100, looks1 100, closed))
          (ground (arith, looks4 101, looks3 101, looks2 101, looks1 101, closed'))

    apart : newfd ≢ fd
    apart = λ e.
        let here : look s1 fd ≡ none = rw e at free' in absurd (ground (arith, here, looks1 fd))

    fd1_facts : (fd1 ≢ fd) × (fd1 ≢ newfd) × (look s fd1 ≡ none)
    fd1_facts = ground (arith, looks3 fd1, looks2 fd1, looks1 fd1, free'')

    at_fd4 : look s4 fd ≡ some f
    at_fd4 = ground (arith, looks4 fd, looks3 fd, looks2 fd, looks1 fd)

    at_fd1 : look s4 fd1 ≡ some f
    at_fd1 = ground (arith, looks4 fd1)

    -- The end of main, when both calls of lseek succeed.
    closed_all :
        (l : List (Option File))
        → (close_all D O (fd ∷ newfd ∷ tempfd ∷ []) l invalid ≡ record {
          code = 0;
          offsets_of = l;
          table = close tempfd (close newfd (close fd invalid));
        })
    closed_all l =
        close_all_three D law O opens fd newfd tempfd l invalid f
          (ground (arith, looks_invalid fd, at_fd4))
          (ground (arith, looks_invalid newfd, looks4 newfd, looks3 newfd, looks2 newfd))
          (ground (arith, looks_invalid 15, looks4 15, looks3 15)) (λ e. apart (sym e))
          (omega (arith, low)) (omega (arith, low'))

    left :
        (j : ℕ)
        → look (close tempfd (close newfd (close fd invalid))) j
          ≡ (if j == fd1 then some f else (if j == 15 || j == 102 then none else look s j))
    left j =
        let (not_fd, not_newfd, _) = fd1_facts in
        ground (
          arith,
          law.look-close (close newfd (close fd invalid)) tempfd j,
          law.look-close (close fd invalid) newfd j,
          law.look-close invalid fd j,
          looks_invalid j,
          looks4 j,
          looks3 j,
          looks2 j,
          looks1 j,
          free,
          free',
          looks1 newfd,
          not_fd,
          not_newfd,
          apart,
        )

    shared :
        (filename : Text)
        → open_file filename true s ≡ some (fd, s1)
        → dup_from fd 0 s1 ≡ some (newfd, s2)
        → dup_from fd 0 (dup2 fd tempfd s2) ≡ some (fd1, s4)
        → IsShared filename s f
    unfolding IsShared
    shared filename opened made made' =
        let result =
          main_run D law O opens filename fd newfd s s1 s2 f opened made at_fd
          ∙ (share_run D law O opens fd newfd fd1 (dup2 fd tempfd s2) s4 made'
              ∙ closed_all (look s4 fd ∷ look s4 fd1 ∷ [])) in
        (rw result refl, rw (result, at_fd4, at_fd1) refl, fd1, low'', fd1_facts.2, rw result left)

  -- Behind the first duplicate.
  second_dup :
      (filename : Text) (fd newfd a b : ℕ) (s s1 s2 : State) (f : File)
      → open_file filename true s ≡ some (fd, s1)
      → dup_from fd 0 s1 ≡ some (newfd, s2)
      → fd < 15
      → newfd < 15
      → a < 15
      → b < 15
      → a ≢ b
      → look s1 a ≡ none
      → look s1 b ≡ none
      → ((j : ℕ) → look s1 j ≡ (if j == fd then some f else look s j))
      → ((j : ℕ) → look s2 j ≡ (if j == newfd then some f else look s1 j))
      → look s fd ≡ none
      → look s1 newfd ≡ none
      → look s 100 ≡ none
      → look s 101 ≡ none
      → IsShared filename s f
  second_dup filename fd newfd a b s s1 s2 f opened made low low' low_a low_b differ free_a free_b
        looks1 looks2 free free' closed closed' =
      let at_2 : look s2 fd ≡ some f = ground (arith, looks2 fd, looks1 fd) in
      let looks3 = λ (j : ℕ). law.look-dup2 s2 fd tempfd j f at_2 (omega (arith, law.standard)) in
      let at_3 : look (dup2 fd tempfd s2) fd ≡ some f = ground (arith, looks3 fd, at_2) in
      let room : (c : ℕ) × (c < 15) × (look (dup2 fd tempfd s2) c ≡ none) =
        elim (Bool-cases (a == newfd)) [
          | inl e ↦ (b, low_b, ground (arith, e, differ, looks3 b, looks2 b, free_b, low_b))
          | inr e ↦ (a, low_a, ground (arith, e, looks3 a, looks2 a, free_a, low_a))
        ] in
      let (fd1, s4, made', low'', free'', looks4) =
        dup_below D law O opens fd room.0 (dup2 fd tempfd s2) f at_3 room.1 room.2 in
      shared fd newfd fd1 s s1 s2 s4 f low low' low'' looks1 looks2 looks4 free free' free'' closed
        closed' filename opened made made'

  -- When the file opens at a descriptor below 15, the calls of lseek succeed, two more descriptors below
  -- 15 are free, and 100 and 101 are closed, main returns 0 and prints the offset of one and the same
  -- open file through two descriptors. Behind it 15 and 102 are closed, one descriptor that was free is
  -- still open on the file, and every other one is as it was.
  pub main-IsShared :
      (filename : Text) (s s1 : State) (fd a b : ℕ)
      → open_file filename true s ≡ some (fd, s1)
      → fd < 15
      → a < 15
      → b < 15
      → a ≢ b
      → look s1 a ≡ none
      → look s1 b ≡ none
      → look s 100 ≡ none
      → look s 101 ≡ none
      → (f : File) × IsOpened f filename true × IsShared filename s f
  main-IsShared filename s s1 fd a b opened low low_a low_b differ free_a free_b closed closed' =
      let (free, f, is_opened, looks1) = opens.look-open_file filename true s s1 fd opened in
      let at_1 : look s1 fd ≡ some f = ground (arith, looks1 fd) in
      let (newfd, s2, made, low', free', looks2) =
        dup_below D law O opens fd a s1 f at_1 low_a free_a in
      (
        f,
        is_opened,
        second_dup filename fd newfd a b s s1 s2 f opened made low low' low_a low_b differ free_a
            free_b looks1 looks2 free free' closed closed',
      )
