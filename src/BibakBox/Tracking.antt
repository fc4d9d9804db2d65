-- ===== src/BibakBox/Tracking.antt =====
-- Final_HW6/BibakBOXClient.c: how the client finds files that were created or deleted, with the list
-- of files that it remembers.
pub mod Scan
pub mod Missing
use advanced_c_language_proj.Base.{
  ℕ, ◌-◌, Bool, true, false, List, [], ◌∷◌, ◌++◌, Option, none, some, leb, if◌then◌else◌, length,
  take,
}
use advanced_c_language_proj.BibakBox.Paths.{join_path}
use advanced_c_language_proj.Base.Text.{Text, str_eq}

abbrev pub max_files : ℕ
max_files = 100

-- `FileModificationInfo`
pub record Info : Type 0 where
  pub filepath : Text
  pub last_modified_time : ℕ

-- What is left of a directory for `readdir`: nothing, or an entry and what comes behind it. An entry is
-- a file, a directory that can be opened, or one that the traversal passes over.
pub data Directory : Type 0 where
  ended : Directory
  file : Text → ℕ → Directory → Directory
  folder : Text → Directory → Directory → Directory
  passed_over : Directory → Directory

-- `files` is what the array holds so far. A full array ends the loop over this directory only.
unfoldable pub save_file_modification_times : Text → Directory → List Info → List Info
unfolding join_path
save_file_modification_times directory ended files = files
save_file_modification_times directory (file name st_mtime more) files =
    let info : Info = record {
      filepath = join_path directory name;
      last_modified_time = st_mtime;
    } in
    let rest = save_file_modification_times directory more (files ++ info ∷ []) in
    if leb max_files (length files) then files else rest
save_file_modification_times directory (folder name entries more) files =
    save_file_modification_times directory more
      (save_file_modification_times (join_path directory name) entries files)
save_file_modification_times directory (passed_over more) files =
    save_file_modification_times directory more files

-- The inner loop of `check_create` and `check_delete`: `found`.
unfoldable pub found : Text → List Info → Bool
found filepath [] = false
found filepath (info ∷ infos) =
    let rest = found filepath infos in if str_eq filepath info.filepath then true else rest

-- The outer loop: the first file that the other list does not have.
unfoldable pub first_missing : List Info → List Info → Option Text
unfolding found
first_missing [] others = none
first_missing (info ∷ infos) others =
    let rest = first_missing infos others in
    if found info.filepath others then rest else some info.filepath

-- What a check comes to. `reports`: it sends a message about the path, frees the array that it has, and
-- puts the files of the directory as it then is into a new one, of which they are the first
-- `glob_count`. `undefined`: it reads an array that has been freed.
pub data Check : Type 0 where
  silent undefined : Check
  reports : Text → List Info → Check

-- `now` is the directory when it is first read, `later` when it is read again. `file_infos` are the first
-- `glob_count` elements of the array that the parameter shows; `none`: it has been freed. The address
-- of the new array is stored in the parameter only, and is lost at the return.
unfoldable pub check_create : Text → Directory → Directory → ℕ → Option (List Info) → Check
unfolding save_file_modification_times first_missing
check_create dir_path now later glob_count file_infos =
    let temp = save_file_modification_times dir_path now [] in
    if leb (length temp) glob_count then silent else elim file_infos [
      | none ↦ undefined
      | some infos ↦ elim (first_missing temp infos) [
        | none ↦ silent
        | some filepath ↦ reports filepath (save_file_modification_times dir_path later [])
      ]
    ]

-- Here `file_infos` are those of the global array, and the address of the new one is stored in the
-- global variable.
unfoldable pub check_delete : Text → Directory → Directory → ℕ → Option (List Info) → Check
unfolding save_file_modification_times first_missing
check_delete dir_path now later glob_count file_infos =
    let temp = save_file_modification_times dir_path now [] in
    if leb glob_count (length temp) then silent else elim file_infos [
      | none ↦ undefined
      | some infos ↦ elim (first_missing infos temp) [
        | none ↦ silent
        | some filepath ↦ reports filepath (save_file_modification_times dir_path later [])
      ]
    ]

-- The elements behind the first one with the path move one place to the front.
unfoldable pub remove_file_from_path : Text → List Info → List Info
remove_file_from_path filepath [] = []
remove_file_from_path filepath (info ∷ infos) =
    let rest = remove_file_from_path filepath infos in
    if str_eq info.filepath filepath then infos else info ∷ rest
