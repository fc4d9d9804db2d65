-- ===== src/BibakBox/Paths/Folders.antt =====
-- Final_HW6: the folders that `create_folder_structure` makes for a path.
use advanced_c_language_proj.Base.{
  ℕ, zero, suc, ◌≤◌, ◌<◌, ◌≡◌, refl, Bool, List, [], ◌∷◌, ◌++◌, some, ◌==◌, length, arith,
  length-drop, inl, inr, ◌⊎◌, Option-cases,
}
use advanced_c_language_proj.Base.Text.{Text, skip, scan, next_token}
use advanced_c_language_proj.BibakBox.Paths.{folders_from, create_folder_structure}

List-cases : {A : Type 0} (xs : List A) → (xs ≡ []) ⊎ ((x : A) × (rest : List A) × (xs ≡ x ∷ rest))
List-cases [] = inl refl
List-cases (x ∷ xs) = inr (x, xs, refl)

length-skip : (p : ℕ → Bool) (s : Text) → length (skip p s) ≤ length s
unfolding skip
length-skip p [] = omega arith
length-skip p (c ∷ s) = ground (arith, length-skip p s)

length-scan : (n : ℕ) (p : ℕ → Bool) (s : Text) → length (scan n p s).1 ≤ length s
unfolding scan
length-scan zero p s = omega arith
length-scan (suc n) p [] = omega arith
length-scan (suc n) p (c ∷ s) = ground (arith, length-scan n p s)

-- A token takes at least one byte.
length-next_token :
    (d : ℕ) (s token rest : Text) → next_token d s ≡ some (token, rest) → length rest < length s
unfolding next_token scan
length-next_token d s token rest h = elim (List-cases (skip (λ c. c == d) s)) [
  | inl e ↦ ground (arith, e)
  | inr (c, t, e) ↦
      let less = length-skip (λ c. c == d) s in
      let part = length-scan (length t) (λ c. c == d) t in
      let cut = length-drop 1 (scan (length t) (λ c. c == d) t).1 in
      ground (arith, e, less, part, cut)
]

folders_from_enough :
    (fuel more : ℕ) (current_path s : Text)
    → length s ≤ fuel
    → length s ≤ more
    → folders_from fuel current_path s ≡ folders_from more current_path s
unfolding folders_from
folders_from_enough zero zero current_path s h h' = refl
folders_from_enough zero (suc more) current_path s h h' = elim (Option-cases (next_token b'/' s)) [
  | inl e ↦ rw (folders_from, e) refl
  | inr ((token, rest), e) ↦
      let less = length-next_token b'/' s token rest e in absurd (omega (arith, less))
]
folders_from_enough (suc fuel) zero current_path s h h' = elim (Option-cases (next_token b'/' s)) [
  | inl e ↦ rw (folders_from, e) refl
  | inr ((token, rest), e) ↦
      let less = length-next_token b'/' s token rest e in absurd (omega (arith, less))
]
folders_from_enough (suc fuel) (suc more) current_path s h h' =
    elim (Option-cases (next_token b'/' s)) [
      | inl e ↦ rw (folders_from, e) refl
      | inr ((token, rest), e) ↦
          let less = length-next_token b'/' s token rest e in
          let same =
            folders_from_enough fuel more (current_path ++ token ++ b'/' ∷ []) rest (omega arith)
              (omega arith) in
          rw (folders_from, e, same) refl
    ]

-- The folders that create_folder_structure makes stand at the root: for a path that does not begin
-- with a slash they are the ones for the path with a slash in front, not ones in the current
-- directory.
pub create_folder_structure-relative :
    (path : Text) → create_folder_structure (b'/' ∷ path) ≡ create_folder_structure path
unfolding create_folder_structure folders_from next_token skip
create_folder_structure-relative path =
    folders_from_enough (suc (length path)) (length path) (b'/' ∷ []) path (omega arith)
      (omega arith)
