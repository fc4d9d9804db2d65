-- ===== src/BibakBox/Wire/Receive.antt =====
-- Final_HW6: what the receiving functions return for the bytes that were sent.
use advanced_c_language_proj.Base.{
  ℕ, zero, suc, ◌+◌, ◌-◌, ◌≤◌, ◌<◌, ◌≡◌, refl, ◌≢◌, false, List, [], ◌∷◌, ◌++◌, some, leb, length,
  flatten, All, arith, length-append, drop-all, take-all, sym, append-nil,
}
use advanced_c_language_proj.Base.Bytes.{bytes_of, bound, length-bytes_of, value_of-bytes_of}
use advanced_c_language_proj.Base.Text.{Text}
use advanced_c_language_proj.BibakBox.Wire.{recv, recv_value, recv_name}

-- A whole piece is taken when there is room for it.
pub recv-whole :
    (n : ℕ) (piece : Text) (pieces : List Text)
    → length piece ≤ n
    → recv n (piece ∷ pieces) ≡ (piece, pieces)
unfolding recv
recv-whole n piece pieces h = ground (arith, take-all piece n h)

pub recv_value-bytes_of :
    (n value : ℕ) (memory : Text) (pieces : List Text)
    → value < bound n
    → length memory ≡ n
    → recv_value n memory (bytes_of n value ∷ pieces) ≡ (value, pieces)
unfolding recv_value
recv_value-bytes_of n value memory pieces small size = rw (
  recv_value,
  recv-whole n (bytes_of n value) pieces (omega (arith, length-bytes_of n value)),
  length-bytes_of n value,
  drop-all memory n (sym size),
  append-nil (bytes_of n value),
  value_of-bytes_of n value small,
)

pub recv_name-pieces :
    (fuel left : ℕ) (pieces rest : List Text)
    → length (flatten pieces) ≡ left
    → left ≤ fuel
    → All (λ p. p ≢ []) pieces
    → recv_name fuel left (pieces ++ rest) ≡ some (flatten pieces, rest)
unfolding recv_name flatten
recv_name-pieces zero left [] rest size enough filled = refl
recv_name-pieces zero left ([] ∷ pieces) rest size enough filled = absurd (filled.0 refl)
recv_name-pieces zero left ((c ∷ s) ∷ pieces) rest size enough filled = absurd (omega arith)
recv_name-pieces (suc fuel) left [] rest size enough filled = ground arith
recv_name-pieces (suc fuel) left ([] ∷ pieces) rest size enough filled = absurd (filled.0 refl)
recv_name-pieces (suc fuel) left ((c ∷ s) ∷ pieces) rest size enough filled =
    let total : length (c ∷ s) + length (flatten pieces) ≡ left =
      omega (arith, length-append (c ∷ s) (flatten pieces)) in
    let later =
      recv_name-pieces fuel (left - length (c ∷ s)) pieces rest (omega arith) (omega arith)
        filled.1 in
    let first : recv left (((c ∷ s) ∷ pieces) ++ rest) ≡ (c ∷ s, pieces ++ rest) =
      recv-whole left (c ∷ s) (pieces ++ rest) (omega arith) in
    let open_yet : leb left 0 ≡ false = ground arith in
    rw (recv_name, open_yet, first, first, later) refl
