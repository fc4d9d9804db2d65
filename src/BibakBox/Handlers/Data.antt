-- ===== src/BibakBox/Handlers/Data.antt =====
-- Final_HW6/BibakBOXServer.c: the loop of `handle_update` that receives a file.
use advanced_c_language_proj.Base.{
  ℕ, zero, suc, ◌+◌, ◌-◌, ◌≤◌, ◌≡◌, ◌≢◌, refl, false, List, [], ◌∷◌, ◌++◌, none, some, leb, length,
  flatten, All, arith, length-append, append-nil,
}
use advanced_c_language_proj.Base.Text.{Text}
use advanced_c_language_proj.BibakBox.Wire.{recv}
use advanced_c_language_proj.BibakBox.Wire.Receive.{recv-whole}
use advanced_c_language_proj.BibakBox.Handlers.{receive_data}

-- A connection that is closed before the announced number of bytes has come keeps the loop of
-- handle_update running for ever: it writes nothing more and has not ended after any number of
-- rounds.
pub receive_data-closed :
    (fuel file_size : ℕ) → file_size ≢ 0 → receive_data fuel file_size [] ≡ none
unfolding receive_data recv
receive_data-closed zero file_size h = ground arith
receive_data-closed (suc fuel) file_size h =
    let none_yet : receive_data fuel (file_size - 0) [] ≡ none =
      receive_data-closed fuel (file_size - 0) (λ e. h (omega arith)) in
    let open_yet : leb file_size 0 ≡ false = ground arith in
    rw (receive_data, open_yet, none_yet) refl

receive_data_end : (fuel : ℕ) (pieces : List Text) → receive_data fuel 0 pieces ≡ some ([], pieces)
unfolding receive_data
receive_data_end zero pieces = refl
receive_data_end (suc fuel) pieces = refl

-- The loop of handle_update asks for up to 1024 bytes, not for what is left of the file: bytes of a
-- next message that come together with the last bytes of the file, within those 1024, are written
-- into the file and taken off the connection.
pub receive_data-surplus :
    (fuel : ℕ) (last surplus : Text) (pieces : List Text)
    → last ≢ []
    → length (last ++ surplus) ≤ 1024
    → receive_data (suc fuel) (length last) ((last ++ surplus) ∷ pieces)
      ≡ some (last ++ surplus, pieces)
unfolding receive_data
receive_data-surplus fuel [] surplus pieces h room = absurd (h refl)
receive_data-surplus fuel (c ∷ last) surplus pieces h room =
    let first : recv 1024 (((c ∷ last) ++ surplus) ∷ pieces) ≡ ((c ∷ last) ++ surplus, pieces) =
      recv-whole 1024 ((c ∷ last) ++ surplus) pieces room in
    let over : length (c ∷ last) - length ((c ∷ last) ++ surplus) ≡ 0 =
      omega (arith, length-append (c ∷ last) surplus) in
    let nil = append-nil ((c ∷ last) ++ surplus) in
    let open_yet : leb (length (c ∷ last)) 0 ≡ false = ground arith in
    rw (receive_data, open_yet, first, over, receive_data_end fuel pieces, first, nil) refl

-- A file that comes in pieces is taken off the connection whole, and no more than that.
pub receive_data-pieces :
    (fuel file_size : ℕ) (pieces rest : List Text)
    → length (flatten pieces) ≡ file_size
    → file_size ≤ fuel
    → All (λ p. (p ≢ []) × (length p ≤ 1024)) pieces
    → receive_data fuel file_size (pieces ++ rest) ≡ some (flatten pieces, rest)
unfolding receive_data flatten
receive_data-pieces zero file_size [] rest size enough filled = ground arith
receive_data-pieces zero file_size ([] ∷ pieces) rest size enough filled = absurd (filled.0.0 refl)
receive_data-pieces zero file_size ((c ∷ s) ∷ pieces) rest size enough filled = absurd (omega arith)
receive_data-pieces (suc fuel) file_size [] rest size enough filled = ground arith
receive_data-pieces (suc fuel) file_size ([] ∷ pieces) rest size enough filled =
    absurd (filled.0.0 refl)
receive_data-pieces (suc fuel) file_size ((c ∷ s) ∷ pieces) rest size enough filled =
    let total : length (c ∷ s) + length (flatten pieces) ≡ file_size =
      omega (arith, length-append (c ∷ s) (flatten pieces)) in
    let later =
      receive_data-pieces fuel (file_size - length (c ∷ s)) pieces rest (omega arith) (omega arith)
        filled.1 in
    let first : recv 1024 (((c ∷ s) ∷ pieces) ++ rest) ≡ (c ∷ s, pieces ++ rest) =
      recv-whole 1024 (c ∷ s) (pieces ++ rest) filled.0.1 in
    let open_yet : leb file_size 0 ≡ false = ground arith in
    rw (receive_data, open_yet, first, later, first) refl
