-- ===== src/Shell/Parse/Trimmed.antt =====
-- HW2/terminal.c: `trim`.
use mathlib.Core.List.{reverse, reverse-append, reverse-reverse, reverse-cons}
use advanced_c_language_proj.Base.{
  ℕ, ◌≡◌, ◌∙◌, refl, sym, ap, true, false, [], ◌∷◌, ◌++◌, none, some, All,
}
use advanced_c_language_proj.Base.Text.{Text, skip, is_space}
use advanced_c_language_proj.Shell.Parse.{trim}

-- White space only.
abbrev pub IsBlank : Text → Type 0
IsBlank s = All (λ c. is_space c ≡ true) s

-- A text with no white space at either end.
pub record IsTight (t : Text) : Type 0 where
  pub first : ℕ
  pub behind : Text
  pub front : t ≡ first ∷ behind
  pub first_plain : is_space first ≡ false
  pub before : Text
  pub last : ℕ
  pub back : t ≡ before ++ last ∷ []
  pub last_plain : is_space last ≡ false

IsBlank-append : (s t : Text) → IsBlank s → IsBlank t → IsBlank (s ++ t)
IsBlank-append [] t h h' = h'
IsBlank-append (c ∷ s) t h h' = (h.0, IsBlank-append s t h.1 h')

IsBlank-reverse : (s : Text) → IsBlank s → IsBlank (reverse s)
IsBlank-reverse [] h = tt
IsBlank-reverse (c ∷ s) h =
    rw (reverse-cons c s) (IsBlank-append (reverse s) (c ∷ []) (IsBlank-reverse s h.1) (h.0, tt))

skip_blank :
    (s : Text) (c : ℕ) (t : Text)
    → IsBlank s
    → is_space c ≡ false
    → skip is_space (s ++ c ∷ t) ≡ c ∷ t
unfolding skip
skip_blank [] c t h plain = rw (skip, plain) refl
skip_blank (d ∷ s) c t h plain = let rest = skip_blank s c t h.1 plain in rw (h.0, rest) refl

skip_all : (s : Text) → IsBlank s → skip is_space s ≡ []
unfolding skip
skip_all [] h = refl
skip_all (d ∷ s) h = let rest = skip_all s h.1 in rw (h.0, rest) refl

-- trim takes exactly the white space off both ends of a text that has something else.
pub trim-append :
    (front t back : Text)
    → IsBlank front
    → IsTight t
    → IsBlank back
    → trim (front ++ (t ++ back)) ≡ some t
unfolding trim
trim-append front t back blank tight blank' =
    let skipped : skip is_space (front ++ (t ++ back)) ≡ tight.first ∷ (tight.behind ++ back) =
      rw (tight.front)
        (skip_blank front tight.first (tight.behind ++ back) blank tight.first_plain) in
    let turned : reverse (tight.first ∷ (tight.behind ++ back))
        ≡ reverse back ++ tight.last ∷ reverse tight.before =
      ap (λ u. reverse (u ++ back)) (sym tight.front)
      ∙ reverse-append t back
      ∙ ap (λ u. reverse back ++ reverse u) tight.back
      ∙ ap (λ u. reverse back ++ u) (reverse-append tight.before (tight.last ∷ [])) in
    let skipped' =
      skip_blank (reverse back) tight.last (reverse tight.before) (IsBlank-reverse back blank')
        tight.last_plain in
    let whole : reverse (tight.last ∷ reverse tight.before) ≡ t =
      reverse-cons tight.last (reverse tight.before)
      ∙ ap (λ u. u ++ tight.last ∷ []) (reverse-reverse tight.before)
      ∙ sym tight.back in
    rw (trim, skipped, turned, skipped', whole) refl

-- On white space alone trim runs out of its array.
pub trim_blank : (s : Text) → IsBlank s → trim s ≡ none
unfolding trim
trim_blank s blank = rw (trim, skip_all s blank) refl
