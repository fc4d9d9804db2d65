-- ===== src/Copier/FileNames.antt =====
-- HW5/program.c: what `getLastFolder` and `traverse_directory` read out of a file's name. A NULL
-- result is `none`; `strdup` is a copy, so texts are values.
use advanced_c_language_proj.Base.{
  ℕ, ◌≡◌, refl, [], ◌∷◌, ◌++◌, Option, none, some, ◌⊎◌, inl, inr, Option-cases,
}
use advanced_c_language_proj.Base.Text.{
  Text, codes, after_last, Absent, after_last-eq-none, after_last-eq-some,
}

abbrev pub unidentified : Text
unidentified = codes "unidentified file"

-- The part of `traverse_directory` that finds the key under which a file is counted.
unfoldable pub file_extension : Text → Text
file_extension name = elim (after_last b'.' name) [ none ↦ unidentified | some ext ↦ ext ]

-- `path == NULL` is `none`.
unfoldable pub get_last_folder : Option Text → Option Text
get_last_folder none = none
get_last_folder (some []) = none
get_last_folder (some (c ∷ s)) = elim (after_last b'/' (c ∷ s)) [
  | none ↦ some (c ∷ s)
  | some folder ↦ some folder
]

-- The key of a file is what stands behind the last dot of its name, which has no dot, or the fixed
-- text if the name has no dot.
pub file_extension_lem :
    (name : Text)
    → (Absent b'.' name × (file_extension name ≡ unidentified))
      ⊎ ((stem : Text) × (name ≡ stem ++ b'.' ∷ file_extension name)
          × Absent b'.' (file_extension name))
unfolding file_extension
file_extension_lem name = elim (Option-cases (after_last b'.' name)) [
  | inl e ↦ inl (after_last-eq-none b'.' name e, rw (e, file_extension))
  | inr (ext, e) ↦ inr (rw (e, file_extension) (after_last-eq-some b'.' name ext e))
]

-- Only NULL and the empty path give NULL. Otherwise the result has no slash, and it is the whole
-- path or stands behind its last slash.
pub get_last_folder_lem :
    (c : ℕ) (s : Text)
    → (folder : Text) × (get_last_folder (some (c ∷ s)) ≡ some folder)
      × Absent b'/' folder
      × ((c ∷ s ≡ folder) ⊎ ((front : Text) × (c ∷ s ≡ front ++ b'/' ∷ folder)))
unfolding get_last_folder
get_last_folder_lem c s = elim (Option-cases (after_last b'/' (c ∷ s))) [
  | inl e ↦ (c ∷ s, rw (e, get_last_folder), after_last-eq-none b'/' (c ∷ s) e, inl refl)
  | inr (folder, e) ↦
      let (front, split, free) = after_last-eq-some b'/' (c ∷ s) folder e in
      (folder, rw (e, get_last_folder), free, inr (front, split))
]
