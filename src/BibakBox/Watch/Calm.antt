-- ===== src/BibakBox/Watch/Calm.antt =====
-- Final_HW6/BibakBOXClient.c: seconds in which the client's directory is what it remembers.
use advanced_c_language_proj.Base.{
  ◌∙◌, ◌++◌, ℕ, zero, suc, ◌+◌, ◌≤◌, ◌<◌, ◌≡◌, ◌≢◌, refl, true, false, List, [], ◌∷◌, none, leb,
  length, take, get_or, All, arith, ◌==◌, ltb,
}
use advanced_c_language_proj.Base.Text.{Text}
use advanced_c_language_proj.BibakBox.Tracking.{
  Info, Directory, max_files, found, check_create, check_delete,
}
use advanced_c_language_proj.BibakBox.Tracking.Scan.{all_files, save_file_modification_times_lem}
use advanced_c_language_proj.BibakBox.Updates.{
  State, missing, modified, Files, no_info, remove_slot, check_from, check_update,
}
use advanced_c_language_proj.BibakBox.Watch.{
  Second, kept, shared, Outcome, goes_on, undefined, sent_before, and_then, glob_count_of,
  parameter_infos, global_infos, watch_create, watch_delete, watch_update, watch_round, watch,
}

-- The files that a reading of the directory gives.
abbrev pub reading : Text → Directory → List Info
reading source_dir directory = take max_files (all_files source_dir directory)

-- A place of the array that check_update passes: its file has the time that is kept of it, or there is
-- no such file, neither in the directory nor among those that are remembered.
pub data IsQuiet (state : Text → State) (files : Files) (info : Info) : Type 0 where
  current :
      state info.filepath ≡ modified info.last_modified_time
      → info.last_modified_time ≢ 0
      → IsQuiet state files info
  gone :
      state info.filepath ≡ missing
      → found info.filepath (kept files) ≡ false
      → IsQuiet state files info

remove_slot_absent :
    (filepath : Text) (files : Files)
    → found filepath (kept files) ≡ false
    → remove_slot filepath files ≡ files
unfolding remove_slot kept
remove_slot_absent filepath files absent = rw absent refl

-- check_update passes the places that are quiet.
pub check_from_quiet :
    (state : Text → State) (quiet rounds i : ℕ) (files : Files)
    → ((j : ℕ) → i ≤ j → j < i + quiet → IsQuiet state files (get_or files.slots j no_info))
    → check_from state (quiet + rounds) i files ≡ check_from state rounds (i + quiet) files
unfolding check_from
check_from_quiet state zero rounds i files h =
    let none_more : 0 + rounds ≡ rounds = omega arith in
    let same : i + 0 ≡ i = omega arith in rw (none_more, same) refl
check_from_quiet state (suc quiet) rounds i files h =
    let one_more : suc quiet + rounds ≡ suc (quiet + rounds) = omega arith in
    let next : i + suc quiet ≡ i + 1 + quiet = omega arith in
    let rest =
      check_from_quiet state quiet rounds (i + 1) files
        (λ j l u. h j (omega arith) (omega arith)) in
    let info = get_or files.slots i no_info in
    elim (h i (omega arith) (omega arith)) [
      | current here nonzero ↦
          let known : (info.last_modified_time == 0) ≡ false = ground arith in
          let newest : ltb info.last_modified_time info.last_modified_time ≡ false = ground arith in
          rw (one_more, next, check_from, here, known, newest) rest
      | gone here absent ↦
          rw (one_more, next, check_from, here, remove_slot_absent info.filepath files absent) rest
    ]

-- A second in which the directory reads as the files that are remembered, and each of the first
-- `count` places of the array is quiet.
pub record IsCalm (source_dir : Text) (count : ℕ) (files : Files) (now : Second) : Type 0 where
  pub created : reading source_dir now.create_now ≡ kept files
  pub deleted : reading source_dir now.delete_now ≡ kept files
  pub quiet : (j : ℕ) → j < count → IsQuiet now.state files (get_or files.slots j no_info)

pub watch_create_few :
    (source_dir : Text) (now : Second) (files : Files)
    → length (reading source_dir now.create_now) ≤ length (kept files)
    → watch_create source_dir now (shared files) ≡ goes_on [] (shared files)
unfolding watch_create check_create glob_count_of parameter_infos
watch_create_few source_dir now files few =
    let scan = save_file_modification_times_lem source_dir now.create_now in
    let not_more : leb (length (reading source_dir now.create_now)) (length (kept files)) ≡ true =
      ground arith in
    rw (watch_create, check_create, scan, not_more) refl

pub watch_delete_many :
    (source_dir : Text) (now : Second) (files : Files)
    → length (kept files) ≤ length (reading source_dir now.delete_now)
    → watch_delete source_dir now (shared files) ≡ goes_on [] (shared files)
unfolding watch_delete check_delete glob_count_of global_infos
watch_delete_many source_dir now files many =
    let scan = save_file_modification_times_lem source_dir now.delete_now in
    let not_fewer : leb (length (kept files)) (length (reading source_dir now.delete_now)) ≡ true =
      ground arith in
    rw (watch_delete, check_delete, scan, not_fewer) refl

pub watch_update_quiet :
    (source_dir : Text) (count : ℕ) (now : Second) (files : Files)
    → ((j : ℕ) → j < count → IsQuiet now.state files (get_or files.slots j no_info))
    → watch_update source_dir count now (shared files) ≡ goes_on [] (shared files)
unfolding watch_update check_update check_from
watch_update_quiet source_dir count now files quiet =
    let passed : check_from now.state (count + 0) 0 files
        ≡ check_from now.state 0 (0 + count) files =
      check_from_quiet now.state count 0 0 files (λ j l u. quiet j (omega arith)) in
    let all : count + 0 ≡ count = omega arith in
    let nothing : check_from now.state count 0 files ≡ (none, files) = rw all at passed in
    rw (watch_update, check_update, nothing, check_update, nothing) refl

-- The outcome behind calls that send nothing.
pub sent_nothing : (r : Outcome) → sent_before [] r ≡ r
unfolding sent_before
sent_nothing (goes_on sent client) = refl
sent_nothing (undefined sent) = refl

-- In calm seconds the client sends nothing and goes on with the same array.
pub watch_calm :
    (source_dir : Text) (count : ℕ) (calm seconds : List Second) (files : Files)
    → All (IsCalm source_dir count files) calm
    → watch source_dir count (calm ++ seconds) (shared files)
      ≡ watch source_dir count seconds (shared files)
unfolding watch watch_round and_then
watch_calm source_dir count [] seconds files calm = refl
watch_calm source_dir count (now ∷ before) seconds files (here, earlier) =
    let no_create = watch_create_few source_dir now files (rw (here.created) (omega arith)) in
    let no_delete = watch_delete_many source_dir now files (rw (here.deleted) (omega arith)) in
    let no_update = watch_update_quiet source_dir count now files here.quiet in
    let round : watch_round source_dir count now (shared files) ≡ goes_on [] (shared files) =
      rw (watch_round, no_create, and_then, no_delete, no_update) refl in
    rw (watch, round)
      (sent_nothing (watch source_dir count (before ++ seconds) (shared files))
        ∙ watch_calm source_dir count before seconds files earlier)
