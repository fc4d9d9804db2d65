-- ===== src/Copier/CopyFd/Bytes.antt =====
-- Which bytes `copy_fd` writes and counts.
use advanced_c_language_proj.Base.{
  ℕ, zero, suc, ◌+◌, ◌^◌, ◌≤◌, ◌<◌, ◌≡◌, ◌≢◌, inl, inr, refl, sym, ap, ◌∙◌, min, true, not, ◌&&◌,
  List, [], ◌∷◌, ◌++◌, none, some, ◌==◌, length, take, drop, arith, All, append_assoc, append-nil,
  Bool-cases, length-append, length-take, length-drop,
}
use advanced_c_language_proj.Base.Int.{add32}
use advanced_c_language_proj.Copier.CopyFd.{
  buf_size, Round, Copy, chunk, accepted, count_written, copy_fd,
}

-- Neither `read` nor `write` fails, and `write` takes a whole buffer.
abbrev pub IsGood : Round → Type 0
IsGood r = (r.read_ok ≡ true) × (r.write_ok ≡ true) × (buf_size ≤ r.write_limit)

take-all {ℓ} : {A : Type ℓ} (n : ℕ) (xs : List A) → length xs ≤ n → take n xs ≡ xs
take-all zero [] h = refl
take-all zero (x ∷ xs) h = absurd (omega arith)
take-all (suc n) [] h = refl
take-all (suc n) (x ∷ xs) h = rw (take-all n xs (omega arith))

drop-length-take {ℓ} :
    {A : Type ℓ} (n : ℕ) (xs : List A) → take n xs ++ drop (length (take n xs)) xs ≡ xs
drop-length-take zero xs = refl
drop-length-take (suc n) [] = refl
drop-length-take (suc n) (x ∷ xs) = rw (drop-length-take n xs)

nil_of_length : (xs : List ℕ) → length xs ≡ 0 → xs ≡ []
nil_of_length [] h = refl
nil_of_length (x ∷ xs) h = absurd (omega arith)

length-chunk :
    (r : Round) (src : List ℕ)
    → length (chunk r src) ≡ min (min buf_size (r.read_limit + 1)) (length src)
length-chunk r src = length-take (min buf_size (r.read_limit + 1)) src

-- If there is a round for each byte and one more, the loop ends.
pub copy_fd-ne-none :
    (rs : List Round) (src : List ℕ) (c : Copy) → length src < length rs → copy_fd rs src c ≢ none
unfolding copy_fd
copy_fd-ne-none [] src c h = absurd (omega arith)
copy_fd-ne-none (r ∷ rs) src c h =
    let n = length (chunk r src) in
    ground (
      arith,
      length-chunk r src,
      length-drop n src,
      copy_fd-ne-none rs (drop n src) (count_written (accepted r src) c),
    )

-- With good rounds in sufficient number the loop ends, the destination has got all the bytes of the
-- source behind its own, in order, they are all counted, and nothing is printed.
pub copy_fd_complete :
    (rs : List Round) (src : List ℕ) (c : Copy)
    → All IsGood rs
    → length src < length rs
    → c.bytes_copied < 2 ^ 32
    → copy_fd rs src c
      ≡ some (record c { dest = c.dest ++ src; bytes_copied = add32 c.bytes_copied (length src) })
unfolding copy_fd count_written
copy_fd_complete [] src c good h small = absurd (omega arith)
copy_fd_complete (r ∷ rs) src c good h small =
    let n = length (chunk r src) in
    let whole : accepted r src ≡ chunk r src =
      take-all r.write_limit (chunk r src) (omega (arith, length-chunk r src)) in
    let rest = copy_fd_complete rs (drop n src) (count_written (accepted r src) c) good.1 in
    elim (Bool-cases (n == 0)) [
      | inl e ↦
          let none_left : length src ≡ 0 = ground (arith, length-chunk r src) in
          ground (arith, nil_of_length src none_left, append-nil c.dest, good.0)
      | inr e ↦ ground (
        arith,
        whole,
        length-chunk r src,
        length-drop n src,
        rest,
        good.0,
        drop-length-take (min buf_size (r.read_limit + 1)) src,
        append_assoc c.dest (chunk r src) (drop n src),
      )
    ]

-- What the loop wrote, if it ended: the destination grew by some bytes, no more than the source has,
-- and exactly these are counted, also behind an error or a short `write`.
pub copy_fd_accounting :
    (rs : List Round) (src : List ℕ) (c c' : Copy)
    → copy_fd rs src c ≡ some c'
    → c.bytes_copied < 2 ^ 32
    → (written : List ℕ) × (c'.dest ≡ c.dest ++ written)
      × (c'.bytes_copied ≡ add32 c.bytes_copied (length written))
      × (length written ≤ length src)
unfolding copy_fd count_written
copy_fd_accounting [] src c c' h small = cc
copy_fd_accounting (r ∷ rs) src c c' h small =
    let n = length (chunk r src) in
    let next = count_written (accepted r src) c in
    elim (Bool-cases (r.read_ok && (not (n == 0) && r.write_ok))) [
      | inl go ↦
          let run : copy_fd rs (drop n src) next ≡ some c' = ground arith in
          let (more, grown, counted, bounded) =
            copy_fd_accounting rs (drop n src) next c' run (omega arith) in
          (
            accepted r src ++ more,
            ground (arith, grown, append_assoc c.dest (accepted r src) more),
            ground (arith, counted, length-append (accepted r src) more),
            omega (
              arith,
              bounded,
              length-append (accepted r src) more,
              length-take r.write_limit (chunk r src),
              length-chunk r src,
              length-drop n src,
            ),
          )
      | inr halt ↦ ([], ground (arith, append-nil c.dest), ground arith, omega arith)
    ]

-- A `write` that takes only a part of a buffer is not repeated: the destination then lacks bytes of
-- the source for good, whatever follows.
pub short_write_loses :
    (r : Round) (rs : List Round) (src : List ℕ) (c c' : Copy)
    → copy_fd (r ∷ rs) src c ≡ some c'
    → (r.read_ok ≡ true) × (r.write_ok ≡ true)
    → r.write_limit < length (chunk r src)
    → c.bytes_copied < 2 ^ 32
    → c'.dest ≢ c.dest ++ src
unfolding copy_fd count_written
short_write_loses r rs src c c' h good short small same =
    let n = length (chunk r src) in
    let next = count_written (accepted r src) c in
    let run : copy_fd rs (drop n src) next ≡ some c' = ground arith in
    let (more, grown, counted, bounded) =
      copy_fd_accounting rs (drop n src) next c' run (omega arith) in
    let size : length (c.dest ++ src) ≡ length ((c.dest ++ accepted r src) ++ more) =
      ap length (sym same ∙ grown) in
    omega (
      arith,
      size,
      bounded,
      length-append c.dest src,
      length-append (c.dest ++ accepted r src) more,
      length-append c.dest (accepted r src),
      length-take r.write_limit (chunk r src),
      length-drop n src,
      length-chunk r src,
    )
