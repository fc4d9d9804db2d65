-- ===== src/Bibo/ReadFile/Lines.antt =====
-- The three answers of `readF` with a line number.
use advanced_c_language_proj.Base.{
  ℕ, suc, ◌+◌, ◌-◌, ◌≤◌, ◌<◌, ◌≡◌, ◌≢◌, refl, false, List, [], ◌∷◌, ◌++◌, none, some, ◌==◌, ltb,
  if◌then◌else◌, length, length-append, All, get_or, flatten, append_assoc, arith, ℕ_discrete, leb,
  inl, inr, Bool-cases, ◌||◌, append-nil,
}
use advanced_c_language_proj.Base.Text.{Text, codes, c_string, decimal, Absent}
use advanced_c_language_proj.Bibo.ReadFile.{pieces, pieces_from, find_line, line_response}

find_line-hit :
    (n current : ℕ) (ps : List Text)
    → current ≤ n
    → n < current + length ps
    → find_line n current ps ≡ (n, some (get_or ps (n - current) []))
unfolding find_line
find_line-hit n current [] h k = absurd (omega arith)
find_line-hit n current (p ∷ ps) h k = elim (ℕ_discrete current n) [
  | yes e ↦ let zero_off : n - current ≡ 0 = omega arith in ground (arith, e, zero_off)
  | no ne ↦
      let off : n - current ≡ suc (n - (current + 1)) = omega arith in
      rw off (ground (arith, find_line-hit n (current + 1) ps))
]

find_line-miss :
    (n current : ℕ) (ps : List Text)
    → current + length ps ≤ n
    → find_line n current ps ≡ (current + length ps, none)
unfolding find_line
find_line-miss n current [] h = ground arith
find_line-miss n current (p ∷ ps) h = ground (arith, find_line-miss n (current + 1) ps)

ltb_irrefl : (n : ℕ) → ltb n n ≡ false
ltb_irrefl n = ground arith

-- For a positive line number `n` and a file of `k` lines (as `fgets` reads them): up to `k` the answer
-- is the line, with its number in front; for `k + 1` it is empty; above it says that the file has
-- `k` lines.
pub line_response_lem :
    (n : ℕ) (file : Text)
    → 0 < n
    → let k = length (pieces file) in
      line_response n file ≡ (
        if leb n k
        then codes "Line "
          ++ (decimal n ++ (codes ": " ++ c_string (get_or (pieces file) (n - 1) [])))
        else (if n == k + 1
            then []
            else codes "The file has only " ++ (decimal k ++ codes " lines.\n")))
unfolding line_response
line_response_lem n file pos =
    let k = length (pieces file) in
    elim (Bool-cases (leb n k)) [
      | inl inside ↦
          rw (inside, line_response, find_line-hit n 1 (pieces file) pos (ground arith))
            (rw (ltb_irrefl n, append-nil))
      | inr beyond ↦
          let e : 1 + k - 1 ≡ k = omega arith in
          rw (beyond, line_response, find_line-miss n 1 (pieces file) (ground arith))
            (rw e (ground arith))
    ]

flatten-pieces_from : (room : ℕ) (piece s : Text) → flatten (pieces_from room piece s) ≡ piece ++ s
unfolding pieces_from flatten
flatten-pieces_from room [] [] = refl
flatten-pieces_from room (c ∷ piece) [] = refl
flatten-pieces_from room piece (c ∷ s) = ground (
  arith,
  flatten-pieces_from 1023 [] s,
  flatten-pieces_from (room - 1) (piece ++ c ∷ []) s,
  append_assoc piece (c ∷ []) s,
)

-- A newline stands at most at the end.
abbrev pub IsLine : Text → Type 0
IsLine [] = Unit
IsLine (c ∷ []) = Unit
IsLine (c ∷ d ∷ p) = (c ≢ 10) × IsLine (d ∷ p)

IsLine-snoc : (p : Text) (c : ℕ) → Absent 10 p → IsLine (p ++ c ∷ [])
IsLine-snoc [] c h = tt
IsLine-snoc (d ∷ []) c h = (h.0, tt)
IsLine-snoc (d ∷ e ∷ p) c h = (h.0, IsLine-snoc (e ∷ p) c h.1)

Absent-snoc : (p : Text) (c : ℕ) → Absent 10 p → c ≢ 10 → Absent 10 (p ++ c ∷ [])
Absent-snoc [] c h ne = (ne, tt)
Absent-snoc (d ∷ p) c h ne = (h.0, Absent-snoc p c h.1 ne)

IsLine-of_Absent : (p : Text) → Absent 10 p → IsLine p
IsLine-of_Absent [] h = tt
IsLine-of_Absent (c ∷ []) h = tt
IsLine-of_Absent (c ∷ d ∷ p) h = (h.0, IsLine-of_Absent (d ∷ p) h.1)

pieces_from-lines :
    (room : ℕ) (piece s : Text)
    → length piece + room ≡ 1023
    → 0 < room
    → Absent 10 piece
    → All (λ p. (length p ≤ 1023) × IsLine p) (pieces_from room piece s)
unfolding pieces_from
pieces_from-lines room [] [] size pos free = tt
pieces_from-lines room (c ∷ piece) [] size pos free =
    ((omega arith, IsLine-of_Absent (c ∷ piece) free), tt)
pieces_from-lines room piece (c ∷ s) size pos free =
    let longer = length-append piece (c ∷ []) in
    elim (Bool-cases (c == 10 || room == 1)) [
      | inl e ↦ rw e (
        (omega (arith, longer), IsLine-snoc piece c free),
        pieces_from-lines 1023 [] s refl (omega arith) tt,
      )
      | inr e ↦ rw e (
          pieces_from-lines (room - 1) (piece ++ c ∷ []) s (ground (arith, longer)) (ground arith)
            (Absent-snoc piece c free (ground arith)))
    ]

-- The lines that `fgets` reads are the file cut into pieces of at most 1023 bytes that have a newline
-- only at their end.
pub pieces_lem :
    (file : Text)
    → (flatten (pieces file) ≡ file) × All (λ p. (length p ≤ 1023) × IsLine p) (pieces file)
unfolding pieces
pieces_lem file =
    (flatten-pieces_from 1023 [] file, pieces_from-lines 1023 [] file refl (omega arith) tt)
