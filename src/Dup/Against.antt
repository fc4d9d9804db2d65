-- ===== src/Dup/Against.antt =====
-- HW1/my_dup.c: `mydup2` against `dup2`.
use advanced_c_language_proj.Base.{
  ℕ, ◌<◌, ◌≡◌, ◌≢◌, ◌⊎◌, inl, inr, refl, none, some, true, false, ◌==◌, ltb, if◌then◌else◌, arith,
  Option-cases, Bool-cases,
}
use advanced_c_language_proj.Descriptors.{Descriptors, IsLawful}
use advanced_c_language_proj.Dup.{close_open, mydup2}

module _ (D : Descriptors) (law : IsLawful D) where
  open D use {State, File, look, close, dup2, dup_from, limit}

  look-close_open :
      (newfd j : ℕ) (s : State)
      → look (close_open D newfd s) j ≡ (if j == newfd then none else look s j)
  unfolding close_open
  look-close_open newfd j s = elim (Option-cases (look s newfd)) [
    | inl closed ↦ elim (Bool-cases (j == newfd)) [
      | inl e ↦ let same : j ≡ newfd = ground (arith, e) in rw (close_open, closed, e, same) closed
      | inr e ↦ rw (close_open, closed, e) refl
    ]
    | inr (f, opened) ↦ rw (close_open, opened) (law.look-close s newfd j)
  ]

  -- mydup2 does what dup2 does, in its result and for every descriptor, when oldfd is open, is not
  -- newfd, and newfd is below the limit.
  pub mydup2-dup2 :
      (oldfd newfd : ℕ) (s : State) (f : File)
      → look s oldfd ≡ some f
      → newfd ≢ oldfd
      → newfd < limit
      → ((mydup2 D oldfd newfd s).0 ≡ some newfd)
        × ((j : ℕ) → look (mydup2 D oldfd newfd s).1 j ≡ look (dup2 oldfd newfd s) j)
  unfolding mydup2
  mydup2-dup2 oldfd newfd s f opened apart below =
      let s' = close_open D newfd s in
      let differ : (newfd == oldfd) ≡ false = ground arith in
      let differ' : (oldfd == newfd) ≡ false = ground arith in
      let equal : (newfd == newfd) ≡ true = ground arith in
      let kept : look s' oldfd ≡ some f = rw (look-close_open newfd oldfd s, differ') opened in
      let free : look s' newfd ≡ none = rw (look-close_open newfd newfd s, equal) refl in
      let (fd, s'', made) =
        law.dup_from_free s' oldfd newfd newfd f kept (omega arith) below free in
      let (least, _, taken, looks) = law.dup_from_lowest s' s'' oldfd newfd fd made in
      let same : fd ≡ newfd = elim (Bool-cases (ltb newfd fd)) [
        | inl more ↦ absurd (taken newfd (omega arith) (ground (arith, more)) free)
        | inr no_more ↦ ground (arith, no_more)
      ] in
      (
        rw (mydup2, differ, made, same) refl,
        λ j. elim (Bool-cases (j == newfd)) [
          | inl e ↦
              rw
                (
                  mydup2,
                  differ,
                  made,
                  looks j,
                  same,
                  e,
                  law.look-dup2 s oldfd newfd j f opened below,
                  e,
                )
                kept
          | inr e ↦
              rw
                (
                  mydup2,
                  differ,
                  made,
                  looks j,
                  same,
                  e,
                  law.look-dup2 s oldfd newfd j f opened below,
                  e,
                  look-close_open newfd j s,
                  e,
                )
                refl
        ],
      )

  old_closed :
      (oldfd newfd : ℕ) (s : State)
      → (newfd ≡ oldfd) ⊎ (look s oldfd ≡ none)
      → look (close_open D newfd s) oldfd ≡ none
  old_closed oldfd newfd s (inl e) =
      let equal : (oldfd == newfd) ≡ true = ground (arith, e) in
      rw (look-close_open newfd oldfd s, equal) refl
  old_closed oldfd newfd s (inr e) = elim (Bool-cases (oldfd == newfd)) [
    | inl same ↦ rw (look-close_open newfd oldfd s, same) refl
    | inr apart ↦ rw (look-close_open newfd oldfd s, apart) e
  ]

  -- When oldfd is newfd or is not open, mydup2 fails and leaves newfd closed, even if it was open, and
  -- every other descriptor as it was.
  pub mydup2_closes :
      (oldfd newfd : ℕ) (s : State)
      → (newfd ≡ oldfd) ⊎ (look s oldfd ≡ none)
      → ((mydup2 D oldfd newfd s).0 ≡ none)
        × ((j : ℕ) → look (mydup2 D oldfd newfd s).1 j ≡ (if j == newfd then none else look s j))
  unfolding mydup2
  mydup2_closes oldfd newfd s h =
      let s' = close_open D newfd s in
      let closed : look s' oldfd ≡ none = old_closed oldfd newfd s h in
      let failed : dup_from oldfd newfd s' ≡ none = law.dup_from_closed s' oldfd newfd closed in
      elim (Bool-cases (newfd == oldfd)) [
        | inl e ↦
            (rw (mydup2, e, closed) refl, λ j. rw (mydup2, e, closed) (look-close_open newfd j s))
        | inr e ↦
            (rw (mydup2, e, failed) refl, λ j. rw (mydup2, e, failed) (look-close_open newfd j s))
      ]
