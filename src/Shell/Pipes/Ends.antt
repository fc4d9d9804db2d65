-- ===== src/Shell/Pipes/Ends.antt =====
-- HW2/terminal.c: the ends of the pipes that the loop of a child closes and keeps.
use advanced_c_language_proj.Base.{
  ℕ, zero, suc, ◌+◌, ◌≤◌, ◌<◌, ◌≡◌, ◌≢◌, ◌∙◌, refl, sym, Bool, true, false, ◌||◌, List, [], ◌∷◌,
  ◌==◌, if◌then◌else◌, length, arith,
}
use advanced_c_language_proj.Shell.Pipes.{end_of}

-- `fd` is an end of one of the pipes.
unfoldable pub is_end : ℕ → List (ℕ × ℕ) → Bool
is_end fd [] = false
is_end fd ((reads, writes) ∷ pipefds) = fd == reads || fd == writes || is_end fd pipefds

-- The ends of the pipes are different descriptors, and none is the standard input or output.
unfoldable pub AreApart : List (ℕ × ℕ) → Type 0
AreApart [] = Unit {0}
AreApart ((reads, writes) ∷ pipefds) =
    (2 ≤ reads)
    × (2 ≤ writes)
    × (reads ≢ writes)
    × (is_end reads pipefds ≡ false)
    × (is_end writes pipefds ≡ false)
    × AreApart pipefds

-- What the loop of child `i` closes.
unfoldable pub unused : ℕ → ℕ → List (ℕ × ℕ) → ℕ → Bool
unused i j [] fd = false
unused i j ((reads, writes) ∷ pipefds) fd =
    (if j + 1 == i
      then fd == writes
      else (if j == i then fd == reads else fd == reads || fd == writes))
    || unused i (j + 1) pipefds fd

-- What it leaves open.
unfoldable pub kept : ℕ → ℕ → List (ℕ × ℕ) → ℕ → Bool
kept i j [] fd = false
kept i j ((reads, writes) ∷ pipefds) fd =
    (if j + 1 == i then fd == reads else (if j == i then fd == writes else false))
    || kept i (j + 1) pipefds fd

is_end-kept :
    (i j : ℕ) (pipefds : List (ℕ × ℕ)) (fd : ℕ)
    → is_end fd pipefds ≡ (unused i j pipefds fd || kept i j pipefds fd)
unfolding is_end unused kept
is_end-kept i j [] fd = refl
is_end-kept i j ((reads, writes) ∷ pipefds) fd = ground (arith, is_end-kept i (j + 1) pipefds fd)

pub kept_apart :
    (i j : ℕ) (pipefds : List (ℕ × ℕ)) (fd : ℕ)
    → AreApart pipefds
    → kept i j pipefds fd ≡ true
    → unused i j pipefds fd ≡ false
unfolding is_end unused kept AreApart
kept_apart i j [] fd apart h = cc
kept_apart i j ((reads, writes) ∷ pipefds) fd apart h = ground (
  arith,
  apart,
  kept_apart i (j + 1) pipefds fd apart.5,
  is_end-kept i (j + 1) pipefds fd,
  is_end-kept i (j + 1) pipefds reads,
  is_end-kept i (j + 1) pipefds writes,
)

-- The same, for the child `d` pipes further on.
unfoldable pub ends : ℕ → List (ℕ × ℕ) → ℕ → Bool
ends d [] fd = false
ends zero ((reads, writes) ∷ pipefds) fd = fd == writes
ends (suc zero) ((reads, writes) ∷ pipefds) fd = fd == reads || ends zero pipefds fd
ends (suc (suc d)) ((reads, writes) ∷ pipefds) fd = ends (suc d) pipefds fd

kept_behind : (i j : ℕ) (pipefds : List (ℕ × ℕ)) (fd : ℕ) → i < j → kept i j pipefds fd ≡ false
unfolding kept
kept_behind i j [] fd h = refl
kept_behind i j ((reads, writes) ∷ pipefds) fd h = ground (arith, kept_behind i (j + 1) pipefds fd)

kept-ends :
    (d i j : ℕ) (pipefds : List (ℕ × ℕ)) (fd : ℕ)
    → i ≡ j + d
    → kept i j pipefds fd ≡ ends d pipefds fd
unfolding kept ends
kept-ends d i j [] fd e = refl
kept-ends zero i j ((reads, writes) ∷ pipefds) fd e =
    ground (arith, kept_behind i (j + 1) pipefds fd)
kept-ends (suc zero) i j ((reads, writes) ∷ pipefds) fd e =
    ground (arith, kept-ends zero i (j + 1) pipefds fd)
kept-ends (suc (suc d)) i j ((reads, writes) ∷ pipefds) fd e =
    ground (arith, kept-ends (suc d) i (j + 1) pipefds fd)

pub ends_first :
    (pipefds : List (ℕ × ℕ)) (fd : ℕ)
    → 0 < length pipefds
    → ends zero pipefds fd ≡ (fd == (end_of pipefds 0).1)
unfolding ends
ends_first [] fd h = absurd (omega arith)
ends_first (p ∷ pipefds) fd h = refl

pub ends_last :
    (m : ℕ) (pipefds : List (ℕ × ℕ)) (fd : ℕ)
    → length pipefds ≡ suc m
    → ends (suc m) pipefds fd ≡ (fd == (end_of pipefds m).0)
unfolding ends
ends_last m [] fd h = absurd (omega arith)
ends_last zero (p ∷ []) fd h = ground arith
ends_last zero (p ∷ q ∷ pipefds) fd h = absurd (omega arith)
ends_last (suc m) (p ∷ pipefds) fd h = ends_last m pipefds fd (omega arith)

pub ends_between :
    (m : ℕ) (pipefds : List (ℕ × ℕ)) (fd : ℕ)
    → suc m < length pipefds
    → ends (suc m) pipefds fd ≡ (fd == (end_of pipefds m).0 || fd == (end_of pipefds (suc m)).1)
unfolding ends
ends_between m [] fd h = absurd (omega arith)
ends_between zero (p ∷ []) fd h = absurd (omega arith)
ends_between zero (p ∷ q ∷ pipefds) fd h = refl
ends_between (suc m) (p ∷ pipefds) fd h = ends_between m pipefds fd (omega arith)

pub AreApart-least :
    (pipefds : List (ℕ × ℕ)) (fd : ℕ) → AreApart pipefds → is_end fd pipefds ≡ true → 2 ≤ fd
unfolding AreApart is_end
AreApart-least [] fd apart h = cc
AreApart-least ((reads, writes) ∷ pipefds) fd apart h =
    ground (arith, apart, AreApart-least pipefds fd apart.5)

-- The end at which a command reads, or writes, is kept.
module _ (i : ℕ) (pipefds : List (ℕ × ℕ)) (apart : AreApart pipefds) where
  -- What is known of an end that child `i` keeps.
  pub kept_facts :
      (fd : ℕ)
      → ends i pipefds fd ≡ true
      → (is_end fd pipefds ≡ true) × (unused i 0 pipefds fd ≡ false) × (2 ≤ fd)
  kept_facts fd h =
      let here : kept i 0 pipefds fd ≡ true = kept-ends i i 0 pipefds fd (omega arith) ∙ h in
      let free = kept_apart i 0 pipefds fd apart here in
      let inside : is_end fd pipefds ≡ true = rw (is_end-kept i 0 pipefds fd, free) here in
      (inside, free, AreApart-least pipefds fd apart inside)

  pub is_end-ends : (fd : ℕ) → is_end fd pipefds ≡ (unused i 0 pipefds fd || ends i pipefds fd)
  is_end-ends fd = rw (sym (kept-ends i i 0 pipefds fd (omega arith))) (is_end-kept i 0 pipefds fd)
