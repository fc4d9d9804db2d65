-- ===== src/Descriptors/Opening.antt =====
-- The call `open` on the descriptor table of a process, with what POSIX says of it.
use advanced_c_language_proj.Base.{
  ℕ, ◌+◌, ◌*◌, ◌≡◌, refl, sym, Bool, Option, none, some, Option-cases, inl, inr, ◌==◌,
  if◌then◌else◌, length, arith,
}
use advanced_c_language_proj.Base.Text.{Text}
use advanced_c_language_proj.Descriptors.{Descriptors}
use advanced_c_language_proj.Descriptors.Table.{table, put, first_free, first_free_lowest}

pub record Opening (D : Descriptors) : Type 1 where
  -- `open(name, flags)`: the new descriptor. The flag says that the file is opened for writing.
  pub open_file : Text → Bool → D.State → Option (ℕ × D.State)
  -- An open file that came of such a call.
  pub IsOpened : D.File → Text → Bool → Type 0

pub record IsOpeningLawful {D : Descriptors} (O : Opening D) : Type 0 where
  pub look-open_file :
      (name : Text) (writing : Bool) (s s' : D.State) (fd : ℕ)
      → O.open_file name writing s ≡ some (fd, s')
      → (D.look s fd ≡ none)
        × (f : D.File) × O.IsOpened f name writing
        × ((j : ℕ) → D.look s' j ≡ (if j == fd then some f else D.look s j))

-- On the table of descriptors a file is known by the length of its name and the flag.
abbrev pub file_number : Text → Bool → ℕ
file_number name writing = 2 * length name + (if writing then 1 else 0)

unfoldable pub open_table : Text → Bool → (ℕ → Option ℕ) → Option (ℕ × (ℕ → Option ℕ))
open_table name writing s = elim (first_free s 20 0) [
  | none ↦ none
  | some fd ↦ some (fd, put fd (some (file_number name writing)) s)
]

abbrev pub opening_table : Opening table
opening_table = record {
  open_file = open_table;
  IsOpened = λ f name writing. f ≡ file_number name writing;
}

pub opening_table-IsOpeningLawful : IsOpeningLawful opening_table
unfolding open_table
opening_table-IsOpeningLawful = record {
  look-open_file = λ name writing s s' fd e. elim (Option-cases (first_free s 20 0)) [
    | inl full ↦ absurd (ground (arith, full, e))
    | inr (found, first) ↦
        let same : found ≡ fd = ground (arith, first, e) in
        let after : put found (some (file_number name writing)) s ≡ s' = ground (arith, first, e) in
        let free = (first_free_lowest s 20 0 fd (rw same at first)).1 in
        (free, file_number name writing, refl, λ j. rw (sym after, same) refl)
  ];
}
