-- ===== src/Append/Bytes.antt =====
-- HW1/appendMeMore.c: what stands in the file.
use advanced_c_language_proj.Base.{
  ℕ, zero, suc, ◌+◌, ◌-◌, ◌≤◌, ◌≡◌, refl, sym, ap, true, false, List, [], ◌∷◌, ◌++◌, none, some,
  ltb, length, set, replicate, All, arith, append-nil, append_assoc, length-append,
  length-replicate, Bool-cases, inl, inr,
}
use advanced_c_language_proj.Base.Text.{Text}
use advanced_c_language_proj.Append.{
  byte, Writer, Writers, write_at, Step, seek, write, append, Run, begin, after,
}

-- The bytes that are still to be written.
unfoldable pub total_left : List Writer → ℕ
total_left [] = 0
total_left (w ∷ writers) = w.left + total_left writers

total_left-append : (a b : List Writer) → total_left (a ++ b) ≡ total_left a + total_left b
unfolding total_left
total_left-append [] b = omega arith
total_left-append (w ∷ a) b = omega (arith, total_left-append a b)

pub replicate_snoc : (n : ℕ) → replicate n byte ++ byte ∷ [] ≡ replicate (suc n) byte
replicate_snoc zero = refl
replicate_snoc (suc n) = ap (λ l. byte ∷ l) (replicate_snoc n)

set-replicate : (n i : ℕ) → set (replicate n byte) i byte ≡ replicate n byte
set-replicate zero i = refl
set-replicate (suc n) zero = refl
set-replicate (suc n) (suc i) = ap (λ l. byte ∷ l) (set-replicate n i)

set-append :
    (xs ys : Text) (i v : ℕ) → length xs ≤ i → set (xs ++ ys) i v ≡ xs ++ set ys (i - length xs) v
set-append [] ys i v h = let e : i - 0 ≡ i = omega arith in rw e refl
set-append (x ∷ xs) ys zero v h = absurd (omega arith)
set-append (x ∷ xs) ys (suc i) v h =
    let e : suc i - suc (length xs) ≡ i - length xs = omega arith in
    rw (e, set-append xs ys i v (omega arith)) refl

-- Every offset is behind the bytes that were in the file at the start and not behind its end.
abbrev OffsetIn : ℕ → ℕ → Writer → Type 0
OffsetIn least most w = (offset : ℕ) → w.offset ≡ some offset → (least ≤ offset) × (offset ≤ most)

-- `added` bytes were added, not more than were written.
record Inv (s t : Writers) (added : ℕ) : Type 0 where
  grown : t.file ≡ s.file ++ replicate added byte
  bounded : added + total_left t.writers ≤ total_left s.writers
  within : All (OffsetIn (length s.file) (length s.file + added)) t.writers

write_at_end :
    (file : Text) (added offset : ℕ)
    → length file ≤ offset
    → offset ≤ length file + added
    → (more : ℕ) × (write_at offset (file ++ replicate added byte)
        ≡ file ++ replicate (added + more) byte)
      × (more ≤ 1)
unfolding write_at
write_at_end file added offset h h' =
    let size = length-append file (replicate added byte) in
    let size' = length-replicate added byte in
    elim (Bool-cases (ltb offset (length (file ++ replicate added byte)))) [
      | inl e ↦
          let same : added + 0 ≡ added = omega arith in
          (
            0,
            rw
                (
                  write_at,
                  e,
                  same,
                  set-append file (replicate added byte) offset byte h,
                  set-replicate added (offset - length file),
                )
                refl,
            omega arith,
          )
      | inr e ↦
          let no_gap : offset - length (file ++ replicate added byte) ≡ 0 =
            ground (arith, e, size, size') in
          let one : added + 1 ≡ suc added = omega arith in
          (
            1,
            rw
                (
                  write_at,
                  e,
                  no_gap,
                  one,
                  append_assoc file (replicate added byte) (byte ∷ []),
                  replicate_snoc added,
                )
                refl,
            omega arith,
          )
    ]

OffsetIn-le :
    (least most more : ℕ) (writers : List Writer)
    → All (OffsetIn least most) writers
    → All (OffsetIn least (most + more)) writers
OffsetIn-le least most more [] h = tt
OffsetIn-le least most more (w ∷ writers) h =
    (λ offset e. omega (arith, h.0 offset e), OffsetIn-le least most more writers h.1)

-- One writer among the others.
pub All-swap :
    (P : Writer → Type 0) (a b : List Writer) (w w' : Writer)
    → All P (a ++ w ∷ b)
    → P w'
    → All P (a ++ w' ∷ b)
All-swap P [] b w w' h p = (p, h.1)
All-swap P (v ∷ a) b w w' h p = (h.0, All-swap P a b w w' h.1 p)

pub All-at : (P : Writer → Type 0) (a b : List Writer) (w : Writer) → All P (a ++ w ∷ b) → P w
All-at P [] b w h = h.0
All-at P (v ∷ a) b w h = All-at P a b w h.1

pub total_left-at :
    (a b : List Writer) (w : Writer)
    → total_left (a ++ w ∷ b) ≡ total_left a + w.left + total_left b
unfolding total_left
total_left-at a b w = omega (arith, total_left-append a (w ∷ b))

no_offsets :
    (least most : ℕ) (writers : List Writer)
    → All (λ w. w.offset ≡ none) writers
    → All (OffsetIn least most) writers
no_offsets least most [] h = tt
no_offsets least most (w ∷ writers) h =
    (λ offset e. absurd (ground (arith, h.0, e)), no_offsets least most writers h.1)

Step-Inv :
    {s t u : Writers} (added : ℕ) → Inv s t added → Step t u → (more : ℕ) × (Inv s u (added + more))
Step-Inv {s} {t} added inv (seek a b n e) =
    let before : Writer = record { third_arg = true; left = suc n; offset = none } in
    let now : Writer = record { third_arg = true; left = suc n; offset = some (length t.file) } in
    let P : Writer → Type 0 = OffsetIn (length s.file) (length s.file + added) in
    let within : All P (a ++ before ∷ b) = rw e at inv.within in
    let long : length t.file ≡ length s.file + added =
      rw inv.grown
        (omega (arith, length-append s.file (replicate added byte), length-replicate added byte)) in
    let same : added + 0 ≡ added = omega arith in
    (
      0,
      record {
        grown = rw same inv.grown;
        bounded =
            let left = inv.bounded in
            let old : total_left t.writers ≡ total_left a + suc n + total_left b =
              rw e (total_left-at a b before) in
            omega (arith, left, old, total_left-at a b now);
        within = rw same (
            All-swap P a b before now within (λ offset e'.
              let here : length t.file ≡ offset = ground (arith, e') in omega (arith, long, here)));
      },
    )
Step-Inv {s} {t} added inv (write a b n offset e) =
    let before : Writer = record { third_arg = true; left = suc n; offset = some offset } in
    let now : Writer = record { third_arg = true; left = n; offset = none } in
    let P : Writer → Type 0 = OffsetIn (length s.file) (length s.file + added) in
    let within : All P (a ++ before ∷ b) = rw e at inv.within in
    let (least, most) = All-at P a b before within offset refl in
    let (more, written, one) = write_at_end s.file added offset least most in
    let assoc : length s.file + (added + more) ≡ length s.file + added + more = omega arith in
    (
      more,
      record {
        grown = rw inv.grown written;
        bounded =
            let left = inv.bounded in
            let old : total_left t.writers ≡ total_left a + suc n + total_left b =
              rw e (total_left-at a b before) in
            omega (arith, left, old, one, total_left-at a b now);
        within = rw assoc (
            OffsetIn-le (length s.file) (length s.file + added) more (a ++ now ∷ b)
              (All-swap P a b before now within (λ offset' e'. absurd (ground (arith, e')))));
      },
    )
Step-Inv {s} {t} added inv (append a b n e) =
    let before : Writer = record { third_arg = false; left = suc n; offset = none } in
    let now : Writer = record { third_arg = false; left = n; offset = none } in
    let P : Writer → Type 0 = OffsetIn (length s.file) (length s.file + added) in
    let within : All P (a ++ before ∷ b) = rw e at inv.within in
    let assoc : length s.file + (added + 1) ≡ length s.file + added + 1 = omega arith in
    let one : added + 1 ≡ suc added = omega arith in
    (
      1,
      record {
        grown =
            rw
              (
                inv.grown,
                append_assoc s.file (replicate added byte) (byte ∷ []),
                replicate_snoc added,
                one,
              )
              refl;
        bounded =
            let left = inv.bounded in
            let old : total_left t.writers ≡ total_left a + suc n + total_left b =
              rw e (total_left-at a b before) in
            omega (arith, left, old, total_left-at a b now);
        within = rw assoc (
            OffsetIn-le (length s.file) (length s.file + added) 1 (a ++ now ∷ b)
              (All-swap P a b before now within (λ offset' e'. absurd (ground (arith, e')))));
      },
    )

Run-Inv :
    {s t : Writers} → All (λ w. w.offset ≡ none) s.writers → Run s t → (added : ℕ) × (Inv s t added)
Run-Inv {s} fresh begin = (
  0,
  record {
    grown = sym (append-nil s.file);
    bounded = omega arith;
    within = no_offsets (length s.file) (length s.file + 0) s.writers fresh;
  },
)
Run-Inv fresh (after run step) =
    let (added, inv) = Run-Inv fresh run in
    let (more, inv') = Step-Inv added inv step in (added + more, inv')

-- Whatever the order of the calls, and whether the processes seek or append, what was in the file
-- stays, and bytes `a` come behind it, not more than were asked for, less those still to be written.
-- At the start no process stands between lseek and write.
pub Run-file :
    {s t : Writers}
    → All (λ w. w.offset ≡ none) s.writers
    → Run s t
    → (added : ℕ) × (t.file ≡ s.file ++ replicate added byte)
      × (added + total_left t.writers ≤ total_left s.writers)
Run-file fresh run = let (added, inv) = Run-Inv fresh run in (added, inv.grown, inv.bounded)
