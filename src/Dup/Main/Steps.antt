-- ===== src/Dup/Main/Steps.antt =====
-- HW1/my_dup.c: the steps of `main`.
use advanced_c_language_proj.Base.{
  ℕ, ◌<◌, ◌≡◌, ◌≢◌, ◌∙◌, refl, sym, true, List, [], ◌∷◌, Option, none, some, ◌==◌, ltb,
  if◌then◌else◌, arith, Bool-cases, inl, inr,
}
use advanced_c_language_proj.Base.Text.{Text}
use advanced_c_language_proj.Descriptors.{Descriptors, IsLawful}
use advanced_c_language_proj.Descriptors.Opening.{Opening, IsOpeningLawful}
use advanced_c_language_proj.Dup.{mydup, mydup2}
use advanced_c_language_proj.Dup.Against.{mydup2_closes}
use advanced_c_language_proj.Dup.Main.{tempfd, close_all, share, main}

module _ (D : Descriptors) (law : IsLawful D) (O : Opening D) (opens : IsOpeningLawful O) where
  open D use {State, File, look, close, dup2, dup_from, limit}
  open O use {open_file, IsOpened}

  -- A duplicate below 15, when there is a free descriptor there.
  pub dup_below :
      (fd free : ℕ) (s : State) (f : File)
      → look s fd ≡ some f
      → free < 15
      → look s free ≡ none
      → (new : ℕ) × (s' : State) × (dup_from fd 0 s ≡ some (new, s'))
        × (new < 15)
        × (look s new ≡ none)
        × ((j : ℕ) → look s' j ≡ (if j == new then some f else look s j))
  dup_below fd free s f opened below closed =
      let (new, s', made) =
        law.dup_from_free s fd 0 free f opened (omega arith) (omega (arith, law.standard)) closed in
      let (_, none_there, taken, looks) = law.dup_from_lowest s s' fd 0 new made in
      (
        new,
        s',
        made,
        elim (Bool-cases (ltb free new)) [
          | inl more ↦ absurd (taken free (omega arith) (ground (arith, more)) closed)
          | inr no_more ↦ ground (arith, no_more)
        ],
        none_there,
        λ j. rw (sym opened) (looks j),
      )

  close_all_open :
      (fd : ℕ) (fds : List ℕ) (l : List (Option File)) (s : State) (f : File)
      → look s fd ≡ some f
      → close_all D O (fd ∷ fds) l s ≡ close_all D O fds l (close fd s)
  unfolding close_all
  close_all_open fd fds l s f opened = rw (close_all, opened) refl

  -- Three descriptors that are open and different are closed.
  pub close_all_three :
      (a b c : ℕ) (l : List (Option File)) (s : State) (f : File)
      → look s a ≡ some f
      → look s b ≡ some f
      → look s c ≡ some f
      → a ≢ b
      → a ≢ c
      → b ≢ c
      → close_all D O (a ∷ b ∷ c ∷ []) l s
        ≡ record { code = 0; offsets_of = l; table = close c (close b (close a s)) }
  unfolding close_all
  close_all_three a b c l s f at_a at_b at_c ab ac bc =
      let at_b' : look (close a s) b ≡ some f = ground (arith, law.look-close s a b, at_b) in
      let at_c' : look (close b (close a s)) c ≡ some f =
        ground (arith, law.look-close s a c, law.look-close (close a s) b c, at_c) in
      close_all_open a (b ∷ c ∷ []) l s f at_a
      ∙ (close_all_open b (c ∷ []) l (close a s) f at_b'
          ∙ close_all_open c [] l (close b (close a s)) f at_c')

  -- The two calls with descriptors that are not open.
  pub look-invalid :
      (s : State)
      → look s 100 ≡ none
      → look s 101 ≡ none
      → (j : ℕ)
      → look (mydup2 D 101 102 (mydup D 100 s).1).1 j ≡ (if j == 102 then none else look s j)
  unfolding mydup
  look-invalid s closed closed' =
      let failed : dup_from 100 0 s ≡ none = law.dup_from_closed s 100 0 closed in
      let same : (mydup D 100 s).1 ≡ s = rw (mydup, failed) refl in
      rw same (mydup2_closes D law 101 102 s (inr closed')).1

  pub share_run :
      (fd newfd fd1 : ℕ) (s s' : State)
      → dup_from fd 0 s ≡ some (fd1, s')
      → share D O true true fd newfd s
        ≡ close_all D O
            (fd ∷ newfd ∷ tempfd ∷ [])
            (look s' fd ∷ look s' fd1 ∷ [])
            (mydup2 D 101 102 (mydup D 100 s').1).1
  unfolding share
  share_run fd newfd fd1 s s' made = rw (share, made) refl

  pub main_run :
      (filename : Text) (fd newfd : ℕ) (s s1 s2 : State) (f : File)
      → open_file filename true s ≡ some (fd, s1)
      → dup_from fd 0 s1 ≡ some (newfd, s2)
      → look s2 fd ≡ some f
      → main D O filename true true s ≡ share D O true true fd newfd (dup2 fd tempfd s2)
  unfolding main
  main_run filename fd newfd s s1 s2 f opened made there = rw (main, opened, made, there) refl
