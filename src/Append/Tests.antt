-- ===== src/Append/Tests.antt =====
-- HW1/appendMeMore.c at concrete inputs.
use advanced_c_language_proj.Base.{
  ℕ, ◌+◌, ◌≤◌, ◌≡◌, ◌⊎◌, refl, true, false, ◌==◌, some, [], ◌∷◌, ◌++◌, none, replicate,
}
use advanced_c_language_proj.Base.Text.{codes}
use advanced_c_language_proj.Append.{byte, Writer, Writers, append, Run, begin, after, opened}
use advanced_c_language_proj.Append.Main.{
  Calls, is_x, write_bytes_to_file, main, main-write_bytes_to_file,
}
use advanced_c_language_proj.Append.Bytes.{total_left, Run-file}
use advanced_c_language_proj.Append.Appending.{Run-file_appending}
use advanced_c_language_proj.Append.Lockstep.{both, both-Run}

both-Run_example : Run (both 2 (codes "xy")) (both 0 (codes "xy" ++ replicate 2 byte))
both-Run_example = both-Run 2 (codes "xy")

Run-file_example :
    (added : ℕ) × (codes "xyaa" ≡ codes "xy" ++ replicate added byte)
    × (added + total_left (both 0 (codes "xyaa")).writers
        ≤ total_left (both 2 (codes "xy")).writers)
unfolding opened
Run-file_example =
    Run-file {s = both 2 (codes "xy")} {t = both 0 (codes "xyaa")} (refl, (refl, tt))
      both-Run_example

-- One process with two bytes and one with one.
abbrev appending : Writers
appending = record {
  file = codes "xy";
  writers =
      record { third_arg = false; left = 2; offset = none }
      ∷ record { third_arg = false; left = 1; offset = none }
      ∷ [];
}

abbrev appended : Writers
appended = record {
  file = codes "xyaaa";
  writers =
      record { third_arg = false; left = 0; offset = none }
      ∷ record { third_arg = false; left = 0; offset = none }
      ∷ [];
}

appending-appended : Run appending appended
appending-appended =
    let waiting : Writer = record { third_arg = false; left = 1; offset = none } in
    let done : Writer = record { third_arg = false; left = 0; offset = none } in
    let r₁ = after begin (append [] (waiting ∷ []) 1 refl) in
    let r₂ = after r₁ (append (waiting ∷ []) [] 0 refl) in after r₂ (append [] (done ∷ []) 0 refl)

Run-file_appending_example :
    codes "xyaaa" ≡ codes "xy" ++ replicate (total_left appending.writers) byte
unfolding total_left
Run-file_appending_example =
    Run-file_appending {s = appending} {t = appended} (refl, (refl, tt)) appending-appended refl

-- The second of three calls of `write` fails.
abbrev failing : Calls
failing = record { opens = true; seeks = λ i. true; writes = λ i. i == 0; closes = true }

main-write_bytes_to_file_example :
    ((main (codes "f" ∷ codes "3" ∷ codes "x" ∷ []) 3 failing (codes "y")).0 ≡ 0)
    × (k : ℕ) × (k ≤ 3)
    × ((main (codes "f" ∷ codes "3" ∷ codes "x" ∷ []) 3 failing (codes "y")).1
        ≡ codes "y" ++ replicate k byte)
    × (((write_bytes_to_file 3 (is_x (codes "x")) failing (codes "y")).0 ≡ 1)
        ⊎ (((write_bytes_to_file 3 (is_x (codes "x")) failing (codes "y")).0 ≡ 0) × (k ≡ 3)))
main-write_bytes_to_file_example =
    main-write_bytes_to_file (codes "f") (codes "3") (some (codes "x")) 3 failing (codes "y")
