-- ===== src/Shell/Pipes/Wiring.antt =====
-- HW2/terminal.c: which descriptors a child of the shell is left with.
use advanced_c_language_proj.Base.{
  ℕ, zero, suc, ◌+◌, ◌-◌, ◌≤◌, ◌<◌, ◌≡◌, refl, true, false, ◌||◌, List, [], ◌∷◌, none, some, ◌==◌,
  ltb, if◌then◌else◌, length, arith, Bool-cases, inl, inr,
}
use advanced_c_language_proj.Descriptors.{Descriptors, IsLawful}
use advanced_c_language_proj.Shell.Pipes.{close_unused, end_of, connect, child}
use advanced_c_language_proj.Shell.Pipes.Ends.{
  is_end, AreApart, unused, ends, ends_first, ends_last, ends_between, AreApart-least, kept_facts,
  is_end-ends,
}

module _ (D : Descriptors) (law : IsLawful D) where
  open D use {State, File, look, close, dup2}

  look-close_unused :
      (i j : ℕ) (pipefds : List (ℕ × ℕ)) (s : State) (fd : ℕ)
      → look (close_unused D i j pipefds s) fd ≡ (if unused i j pipefds fd then none else look s fd)
  unfolding close_unused unused
  look-close_unused i j [] s fd = refl
  look-close_unused i j ((reads, writes) ∷ pipefds) s fd =
      let rest = λ (s' : State). look-close_unused i (j + 1) pipefds s' fd in
      ground (
        arith,
        rest (close writes s),
        rest (close reads s),
        rest (close writes (close reads s)),
        law.look-close s writes fd,
        law.look-close s reads fd,
        law.look-close (close reads s) writes fd,
      )

  -- A child's descriptors: its standard input and output go to its two ends, and no end of a pipe is
  -- open besides.
  pub record IsWired (i : ℕ) (pipefds : List (ℕ × ℕ)) (s t : State) : Type 0 where
    pub input : look t 0 ≡ (if i == 0 then look s 0 else look s (end_of pipefds (i - 1)).0)
    pub output :
        look t 1 ≡ (if ltb i (length pipefds) then look s (end_of pipefds i).1 else look s 1)
    pub closed : (fd : ℕ) → is_end fd pipefds ≡ true → look t fd ≡ none
    pub others : (fd : ℕ) → 2 ≤ fd → is_end fd pipefds ≡ false → look t fd ≡ look s fd

  -- The table behind the loop over the pipes, at a descriptor that is kept, and at 0 and 1.
  module _ (i : ℕ) (pipefds : List (ℕ × ℕ)) (s : State) (apart : AreApart pipefds)
      (open_ends : (fd : ℕ) → is_end fd pipefds ≡ true → (f : File) × (look s fd ≡ some f)) where
    kept_open :
        (fd : ℕ)
        → ends i pipefds fd ≡ true
        → (f : File) × (look s fd ≡ some f) × (look (close_unused D i 0 pipefds s) fd ≡ some f)
    kept_open fd h =
        let (inside, free, _) = kept_facts i pipefds apart fd h in
        let (f, opened) = open_ends fd inside in
        (f, opened, rw (look-close_unused i 0 pipefds s fd, free) opened)

    standard_free : (fd : ℕ) → fd < 2 → is_end fd pipefds ≡ false
    standard_free fd small = elim (Bool-cases (is_end fd pipefds)) [
      | inl e ↦ absurd (omega (arith, AreApart-least pipefds fd apart e))
      | inr e ↦ e
    ]

    standard_same : (fd : ℕ) → fd < 2 → look (close_unused D i 0 pipefds s) fd ≡ look s fd
    standard_same fd small = ground (
      arith,
      standard_free fd small,
      is_end-ends i pipefds apart fd,
      look-close_unused i 0 pipefds s fd,
    )

    others_same :
        (fd : ℕ) → is_end fd pipefds ≡ false → look (close_unused D i 0 pipefds s) fd ≡ look s fd
    others_same fd free =
        ground (arith, is_end-ends i pipefds apart fd, look-close_unused i 0 pipefds s fd)

    closed_or_kept :
        (fd : ℕ)
        → is_end fd pipefds ≡ true
        → ends i pipefds fd ≡ false
        → look (close_unused D i 0 pipefds s) fd ≡ none
    closed_or_kept fd inside free =
        ground (arith, is_end-ends i pipefds apart fd, look-close_unused i 0 pipefds s fd)

  below_limit : (fd : ℕ) → fd < 2 → fd < D.limit
  below_limit fd small = omega (arith, law.standard)

  -- One end is moved to the standard input or output.
  pub look_moved :
      (old new : ℕ) (t : State) (f : File) (fd : ℕ)
      → look t old ≡ some f
      → new < 2
      → look (close old (dup2 old new t)) fd
        ≡ (if fd == old then none else (if fd == new then some f else look t fd))
  look_moved old new t f fd opened small = ground (
    arith,
    law.look-close (dup2 old new t) old fd,
    law.look-dup2 t old new fd f opened (below_limit new small),
  )

  -- Two ends are moved.
  look_moved_both :
      (r w : ℕ) (t : State) (f g : File) (fd : ℕ)
      → look t r ≡ some f
      → look t w ≡ some g
      → 2 ≤ r
      → 2 ≤ w
      → look (close w (close r (dup2 w 1 (dup2 r 0 t)))) fd ≡ (
          if fd == w || fd == r
          then none
          else (if fd == 1 then some g else (if fd == 0 then some f else look t fd)))
  look_moved_both r w t f g fd opened opened' big big' =
      let still : look (dup2 r 0 t) w ≡ some g =
        ground (arith, law.look-dup2 t r 0 w f opened (below_limit 0 (omega arith))) in
      ground (
        arith,
        law.look-close (close r (dup2 w 1 (dup2 r 0 t))) w fd,
        law.look-close (dup2 w 1 (dup2 r 0 t)) r fd,
        law.look-dup2 (dup2 r 0 t) w 1 fd g still (below_limit 1 (omega arith)),
        law.look-dup2 t r 0 fd f opened (below_limit 0 (omega arith)),
      )

  -- Child i of a line of commands joined by pipes reads from the pipe in front of it and writes to the
  -- one behind it, the first and the last from and to what the shell has; no end of a pipe stays
  -- open in it, so that a reader meets the end of its input, and no other descriptor changes. The ends
  -- are open in the child when it starts, they are different descriptors, and none is 0 or 1.
  pub child-IsWired :
      (i : ℕ) (pipefds : List (ℕ × ℕ)) (s : State)
      → i ≤ length pipefds
      → AreApart pipefds
      → ((fd : ℕ) → is_end fd pipefds ≡ true → (f : File) × (look s fd ≡ some f))
      → IsWired i pipefds s (child D i pipefds s)
  unfolding child connect
  child-IsWired zero [] s h apart open_ends = record {
    input = refl;
    output = refl;
    closed = λ fd inside. unfold is_end in cc;
    others = λ fd big free. refl;
  }
  child-IsWired zero (p ∷ pipefds) s h apart open_ends =
      let all = p ∷ pipefds in
      let t = close_unused D 0 0 all s in
      let w : ℕ = p.1 in
      let own : ends zero all w ≡ true = ground (arith, ends_first all w (omega arith)) in
      let (inside_w, _, least) = kept_facts 0 all apart w own in
      let (f, opened, kept_w) = kept_open 0 all s apart open_ends w own in
      let looks = λ (fd : ℕ). look_moved w 1 t f fd kept_w (omega arith) in
      let same = standard_same 0 all s apart open_ends in
      let many : ltb 1 (length all + 1) ≡ true = ground arith in
      let wired : IsWired 0 all s (close w (dup2 w 1 t)) = record {
        input = ground (arith, looks 0, same 0 (omega arith));
        output = ground (arith, looks 1, opened);
        closed = λ fd inside. ground (
          arith,
          looks fd,
          ends_first all fd (omega arith),
          closed_or_kept 0 all s apart open_ends fd inside,
          AreApart-least all fd apart inside,
        );
        others = λ fd big free.
            ground (arith, looks fd, others_same 0 all s apart open_ends fd free, inside_w);
      } in
      rw (child, connect, many) wired
  child-IsWired (suc m) pipefds s h apart open_ends =
      let t = close_unused D (suc m) 0 pipefds s in
      let before : suc m - 1 ≡ m = omega arith in
      let many : ltb 1 (length pipefds + 1) ≡ true = ground arith in
      let not_first : (suc m == 0) ≡ false = ground arith in
      let same = standard_same (suc m) pipefds s apart open_ends in
      let r : ℕ = (end_of pipefds m).0 in
      let w : ℕ = (end_of pipefds (suc m)).1 in
      elim (Bool-cases (ltb (suc m) (length pipefds))) [
        | inl between ↦
            let inner : (suc m + 1 == length pipefds + 1) ≡ false = ground (arith, between) in
            let kept_ends = λ (fd : ℕ). ends_between m pipefds fd (ground (arith, between)) in
            let own : ends (suc m) pipefds r ≡ true = ground (arith, kept_ends r) in
            let own' : ends (suc m) pipefds w ≡ true = ground (arith, kept_ends w) in
            let (inside_r, _, least) = kept_facts (suc m) pipefds apart r own in
            let (inside_w, _, least') = kept_facts (suc m) pipefds apart w own' in
            let (f, opened, kept_r) = kept_open (suc m) pipefds s apart open_ends r own in
            let (g, opened', kept_w) = kept_open (suc m) pipefds s apart open_ends w own' in
            let looks = λ (fd : ℕ). look_moved_both r w t f g fd kept_r kept_w least least' in
            let wired : IsWired (suc m) pipefds s (close w (close r (dup2 w 1 (dup2 r 0 t)))) =
              record {
                input = rw before (ground (arith, looks 0, opened));
                output = rw between (ground (arith, looks 1, opened'));
                closed = λ fd inside. ground (
                  arith,
                  looks fd,
                  kept_ends fd,
                  closed_or_kept (suc m) pipefds s apart open_ends fd inside,
                  AreApart-least pipefds fd apart inside,
                );
                others = λ fd big free. ground (
                  arith,
                  looks fd,
                  others_same (suc m) pipefds s apart open_ends fd free,
                  inside_r,
                  inside_w,
                );
              } in
            rw (child, connect, many, not_first, inner, before) wired
        | inr last ↦
            let end : (suc m + 1 == length pipefds + 1) ≡ true = ground (arith, last) in
            let kept_end = λ (fd : ℕ). ends_last m pipefds fd (ground (arith, last)) in
            let own : ends (suc m) pipefds r ≡ true = ground (arith, kept_end r) in
            let (inside_r, _, least) = kept_facts (suc m) pipefds apart r own in
            let (f, opened, kept_r) = kept_open (suc m) pipefds s apart open_ends r own in
            let looks = λ (fd : ℕ). look_moved r 0 t f fd kept_r (omega arith) in
            let wired : IsWired (suc m) pipefds s (close r (dup2 r 0 t)) = record {
              input = rw before (ground (arith, looks 0, opened));
              output = rw last (ground (arith, looks 1, same 1 (omega arith)));
              closed = λ fd inside. ground (
                arith,
                looks fd,
                kept_end fd,
                closed_or_kept (suc m) pipefds s apart open_ends fd inside,
                AreApart-least pipefds fd apart inside,
              );
              others = λ fd big free. ground (
                arith,
                looks fd,
                others_same (suc m) pipefds s apart open_ends fd free,
                inside_r,
              );
            } in
            rw (child, connect, many, not_first, end, before) wired
      ]
