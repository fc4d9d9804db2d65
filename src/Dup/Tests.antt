-- ===== src/Dup/Tests.antt =====
-- HW1/my_dup.c at concrete inputs, on a table with 20 places.
use advanced_c_language_proj.Base.{
  ℕ, ◌+◌, ◌≡◌, true, refl, inr, ltb, none, some, ◌==◌, if◌then◌else◌, Option, arith,
}
use advanced_c_language_proj.Base.Text.{codes}
use advanced_c_language_proj.Descriptors.Opening.{
  file_number, open_table, opening_table, opening_table-IsOpeningLawful,
}
use advanced_c_language_proj.Descriptors.Table.{table, table-IsLawful, put, first_free}
use advanced_c_language_proj.Dup.Main.Shared.{IsShared, main-IsShared}
use advanced_c_language_proj.Dup.{mydup2}
use advanced_c_language_proj.Dup.Against.{mydup2-dup2, mydup2_closes}

-- Descriptors 0 to 3 are open.
abbrev four : ℕ → Option ℕ
four fd = if ltb fd 4 then some (fd + 5) else none

-- The standard error is made a second standard output.
mydup2-dup2_example :
    ((mydup2 table 1 2 four).0 ≡ some 2)
    × ((j : ℕ) → (mydup2 table 1 2 four).1 j ≡ table.dup2 1 2 four j)
mydup2-dup2_example = mydup2-dup2 table table-IsLawful 1 2 four 6 refl (omega arith) (omega arith)

-- Descriptor 9 is not open, and the standard error is lost.
mydup2_closes_example :
    ((mydup2 table 9 2 four).0 ≡ none)
    × ((j : ℕ) → (mydup2 table 9 2 four).1 j ≡ (if j == 2 then none else four j))
mydup2_closes_example = mydup2_closes table table-IsLawful 9 2 four (inr refl)

-- The three standard descriptors are open, and behind `open` also 3.
abbrev three : ℕ → Option ℕ
three fd = if ltb fd 3 then some (fd + 5) else none

abbrev with_file : ℕ → Option ℕ
with_file = put 3 (some (file_number (codes "f") true)) three

file_opened : open_table (codes "f") true three ≡ some (3, with_file)
unfolding open_table first_free
file_opened = refl

main-IsShared_example :
    (f : ℕ) × (f ≡ 3)
    × IsShared table table-IsLawful opening_table opening_table-IsOpeningLawful (codes "f") three f
main-IsShared_example =
    main-IsShared table table-IsLawful opening_table opening_table-IsOpeningLawful (codes "f") three
      with_file 3 4 5 file_opened (omega arith) (omega arith) (omega arith) (omega arith) refl refl
      refl refl
