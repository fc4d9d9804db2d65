-- ===== src/Bibo/ReadFile/Whole.antt =====
-- The answer of `readF` with no line number.
use advanced_c_language_proj.Base.{◌≡◌, refl, [], ◌∷◌, ◌++◌, arith}
use advanced_c_language_proj.Base.Text.{Text, Absent}
use advanced_c_language_proj.Bibo.ReadFile.{whole_response}

-- A file with no byte 0 and no byte 255 is sent whole, and whatever stands behind a byte 255 is never
-- sent.
pub whole_response_lem :
    (text rest : Text)
    → Absent 0 text
    → Absent 255 text
    → (whole_response text ≡ text) × (whole_response (text ++ 255 ∷ rest) ≡ text)
unfolding whole_response
whole_response_lem [] rest no_zero no_end = (refl, refl)
whole_response_lem (c ∷ text) rest no_zero no_end =
    let (whole, cut) = whole_response_lem text rest no_zero.1 no_end.1 in
    (ground (arith, whole), ground (arith, cut))
