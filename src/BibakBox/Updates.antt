-- ===== src/BibakBox/Updates.antt =====
-- Final_HW6/BibakBOXClient.c: `check_update`, on the array of 100 files that the client allocates.
-- `glob_count` of them are files; those behind hold what was there before.
pub mod Kept
pub mod Reported
use advanced_c_language_proj.Base.{
  ℕ, zero, suc, ◌+◌, ◌-◌, Bool, List, [], ◌∷◌, ◌++◌, Option, none, some, ◌==◌, ltb, if◌then◌else◌,
  take, drop, get_or, set,
}
use advanced_c_language_proj.Base.Text.{Text}
use advanced_c_language_proj.BibakBox.Tracking.{Info, found, remove_file_from_path}

-- What `fopen` and `stat` say of a path.
pub data State : Type 0 where
  missing : State  -- it does not open
  unknown : State  -- `stat` fails
  modified : ℕ → State  -- `st_mtime`

pub record Files : Type 0 where
  pub slots : List Info
  pub glob_count : ℕ

abbrev pub no_info : Info
no_info = record { filepath = []; last_modified_time = 0 }

-- `remove_file_from_path` on the array: the last of the files stays where it was, too.
unfoldable pub remove_slot : Text → Files → Files
remove_slot filepath files =
    let infos = take files.glob_count files.slots in
    if found filepath infos
    then record {
      slots = remove_file_from_path filepath infos ++ drop (files.glob_count - 1) files.slots;
      glob_count = files.glob_count - 1;
    }
    else files

unfoldable pub set_time : ℕ → ℕ → Files → Files
set_time i time files = record files {
  slots = set files.slots i (record (get_or files.slots i no_info) { last_modified_time = time });
}

-- The loop from index `i` on, with `rounds` indices left: the index that is returned, `none` for -1.
unfoldable pub check_from : (Text → State) → ℕ → ℕ → Files → Option ℕ × Files
check_from state zero i files = (none, files)
check_from state (suc rounds) i files =
    let info = get_or files.slots i no_info in
    elim (state info.filepath) [
      | missing ↦ check_from state rounds (i + 1) (remove_slot info.filepath files)
      | unknown ↦ check_from state rounds (i + 1) files
      | modified current_time ↦
          let first = check_from state rounds (i + 1) (set_time i current_time files) in
          let next = check_from state rounds (i + 1) files in
          if info.last_modified_time == 0
          then first
          else (if ltb info.last_modified_time current_time
              then (some i, set_time i current_time files)
              else next)
    ]

-- `count` is an argument: `checkFileModificationTimes` passes the number of files at its own start.
unfoldable pub check_update : (Text → State) → ℕ → Files → Option ℕ × Files
check_update state count files = check_from state count 0 files
