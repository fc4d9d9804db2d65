-- ===== src/BibakBox/Watch/Tests.antt =====
-- Final_HW6/BibakBOXClient.c: seconds of the loop at concrete files.
use advanced_c_language_proj.Base.{
  ℕ, zero, suc, ◌<◌, ◌≡◌, refl, List, [], ◌∷◌, none, arith, if◌then◌else◌, replicate, get_or,
}
use advanced_c_language_proj.Base.Text.{Text, codes, str_eq}
use advanced_c_language_proj.BibakBox.Paths.{join_path}
use advanced_c_language_proj.BibakBox.Messages.{created_detected, deleted_detected}
use advanced_c_language_proj.BibakBox.Thread.{Memory, created}
use advanced_c_language_proj.BibakBox.Tracking.{
  Info, Directory, ended, file, found, remove_file_from_path,
}
use advanced_c_language_proj.BibakBox.Tracking.Scan.{all_files}
use advanced_c_language_proj.BibakBox.Tracking.Missing.{AreDistinct, IsFirstMissing}
use advanced_c_language_proj.BibakBox.Updates.{
  State, missing, modified, Files, no_info, remove_slot,
}
use advanced_c_language_proj.BibakBox.Watch.{Second, kept, shared, undefined, watch}
use advanced_c_language_proj.BibakBox.Watch.Calm.{reading, IsQuiet, current}
use advanced_c_language_proj.BibakBox.Watch.Created.{watch_deleted}
use advanced_c_language_proj.BibakBox.Watch.Renamed.{IsRenaming, watch_renamed}

abbrev info_a : Info
info_a = record { filepath = codes "/c/a"; last_modified_time = 5 }

abbrev info_b : Info
info_b = record { filepath = codes "/c/b"; last_modified_time = 6 }

abbrev one_file : Files
one_file = record { slots = info_a ∷ no_info ∷ []; glob_count = 1 }

abbrev two_files : Files
two_files = record { slots = info_a ∷ info_b ∷ []; glob_count = 2 }

-- A second in which the calls find one directory.
abbrev second : Directory → (Text → State) → Second
second directory state = record {
  create_now = directory;
  create_later = directory;
  delete_now = directory;
  delete_later = directory;
  state = state;
  st_size = λ path. none;
  contents = λ path. [];
}

abbrev with_both : Second
with_both =
    second (file (codes "a") 5 (file (codes "b") 6 ended))
      (λ path. if str_eq path (codes "/c/a") then modified 5 else modified 6)

abbrev with_one : Second
with_one = second (file (codes "a") 5 ended) (λ path. modified 5)

abbrev memory : Memory
memory = record {
  size = replicate 4 0;
  behind = b'x' ∷ 0 ∷ [];
  create_size = replicate 4 0;
  update_size = replicate 8 0;
}

-- Every byte comes alone.
abbrev bytewise : Text → List Text
bytewise [] = []
bytewise (c ∷ s) = (c ∷ []) ∷ bytewise s

-- The first of two files has gone.
abbrev without_a : Second
without_a =
    second (file (codes "b") 6 ended)
      (λ path. if str_eq path (codes "/c/a") then missing else modified 6)

abbrev b_twice : Files
b_twice = record { slots = info_b ∷ info_b ∷ []; glob_count = 1 }

watch_deleted_example :
    (filepath : Text) × IsFirstMissing filepath
      (kept two_files)
      (reading (codes "/c") without_a.delete_now)
    × (watch (codes "/c") 2 (without_a ∷ []) (shared two_files)
        ≡ undefined (deleted_detected filepath (codes "/c")))
unfolding AreDistinct kept found str_eq all_files join_path
watch_deleted_example =
    watch_deleted (codes "/c") 2 without_a two_files [] [] (omega arith) tt (omega arith)
      (refl, (refl, tt)) (omega arith)

-- `a` is renamed to `d`.
abbrev info_d : Info
info_d = record { filepath = codes "/c/d"; last_modified_time = 5 }

abbrev renaming : Second
renaming = second (file (codes "b") 6 (file (codes "d") 5 ended)) (λ path.
    if str_eq path (codes "/c/a")
    then missing
    else (if str_eq path (codes "/c/b") then modified 6 else modified 5))

b_still_quiet :
    (j : ℕ) → 0 < j → j < 2 → IsQuiet renaming.state b_twice (get_or b_twice.slots j no_info)
unfolding str_eq
b_still_quiet zero l u = absurd (omega arith)
b_still_quiet (suc zero) l u = current refl (λ e. absurd (omega (arith, e)))
b_still_quiet (suc (suc j)) l u = absurd (omega arith)

a_removed : remove_slot (codes "/c/a") two_files ≡ b_twice
unfolding remove_slot found remove_file_from_path str_eq
a_removed = refl

is_renaming : IsRenaming (codes "/c") 2 0 (codes "/c/a") two_files renaming
unfolding all_files join_path kept str_eq
is_renaming = record {
  created = refl;
  deleted = refl;
  below = omega arith;
  path = refl;
  gone = refl;
  quiet = λ j l. absurd (omega arith);
  quiet_behind = rw a_removed b_still_quiet;
}

watch_renamed_example :
    (filepath : Text) × IsFirstMissing filepath
      (reading (codes "/c") renaming.create_now)
      (kept (remove_slot (codes "/c/a") two_files))
    × (watch (codes "/c") 2 (renaming ∷ renaming ∷ []) (shared two_files)
        ≡ undefined (created_detected filepath (codes "/c") none))
unfolding AreDistinct kept remove_slot found remove_file_from_path str_eq all_files join_path
watch_renamed_example =
    watch_renamed (codes "/c") 2 0 (codes "/c/a") two_files renaming renaming [] [] is_renaming tt
      (refl, (refl, tt)) (omega arith)
