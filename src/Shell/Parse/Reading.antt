-- ===== src/Shell/Parse/Reading.antt =====
-- HW2/terminal.c: which lines `fgets` reads whole.
use advanced_c_language_proj.Base.{
  ℕ, zero, suc, ◌<◌, ◌≡◌, ◌≢◌, refl, ap, [], ◌∷◌, ◌++◌, length, All, All-append, All-weaken, arith,
  append_assoc, ◌∙◌,
}
use advanced_c_language_proj.Base.Text.{Text, Absent, c_string, c_string_of_Absent}
use advanced_c_language_proj.Shell.Parse.{fgets, read_command}

-- A line with its newline, which fits into the array with a zero byte behind it.
pub record IsLine (line : Text) : Type 0 where
  pub body : Text
  pub split : line ≡ body ++ b'\n' ∷ []
  pub plain : All (λ c. (c ≢ b'\n') × (c ≢ 0)) body
  pub short : length body < 255

fgets-append :
    (n : ℕ) (body rest : Text)
    → All (λ c. (c ≢ b'\n') × (c ≢ 0)) body
    → length body < n
    → fgets n (body ++ b'\n' ∷ rest) ≡ (body ++ b'\n' ∷ [], rest)
unfolding fgets
fgets-append zero body rest plain short = absurd (omega arith)
fgets-append (suc n) [] rest plain short = refl
fgets-append (suc n) (c ∷ body) rest plain short =
    ground (arith, plain.0, fgets-append n body rest plain.1 (omega arith))

no_zero : (line : Text) → IsLine line → Absent 0 line
no_zero line h = rw (h.split) (
    All-append (λ c. c ≢ 0) h.body (b'\n' ∷ [])
      (All-weaken (λ c. (c ≢ b'\n') × (c ≢ 0)) (λ c. c ≢ 0) (λ c p. p.1) h.body h.plain)
      (omega arith))

read_some :
    (command line rest : Text)
    → line ≢ []
    → (fgets 255 (line ++ rest)).0 ≡ line
    → read_command command (line ++ rest) ≡ c_string line
unfolding read_command
read_some command [] rest filled e = absurd (filled refl)
read_some command (c ∷ line) rest filled e = ap c_string e

-- Such a line is read whole, whatever follows it.
pub read_command-IsLine :
    (command line rest : Text) → IsLine line → read_command command (line ++ rest) ≡ line
read_command-IsLine command line rest h =
    let whole = fgets-append 255 h.body rest h.plain h.short in
    let joined_up : line ++ rest ≡ h.body ++ b'\n' ∷ rest =
      rw (h.split) (append_assoc h.body (b'\n' ∷ []) rest) in
    let taken : (fgets 255 (line ++ rest)).0 ≡ line = rw (joined_up, whole, h.split) refl in
    read_some command line rest (filled line h) taken ∙ c_string_of_Absent line (no_zero line h)
  where
    filled : (l : Text) → IsLine l → l ≢ []
    filled l k e = some_newline k.body (k.split) e
      where
        some_newline : (b : Text) → l ≡ b ++ b'\n' ∷ [] → l ≢ []
        some_newline [] e' e = cc
        some_newline (c ∷ b) e' e = cc
