-- ===== src/BibakBox/Tests.antt =====
-- Final_HW6 at concrete inputs.
use advanced_c_language_proj.Base.{
  ℕ, All, get_or, if◌then◌else◌, true, false, List, ◌⊎◌, ◌<◌, ◌≡◌, refl, [], ◌∷◌, ◌++◌, none, some,
  flatten, arith, replicate,
}
use advanced_c_language_proj.Base.Bytes.{bytes_of}
use advanced_c_language_proj.Base.Text.{Text, codes, starts_with, str_eq}
use advanced_c_language_proj.BibakBox.Updates.{
  State, modified, Files, no_info, check_from, check_update,
}
use advanced_c_language_proj.BibakBox.Updates.Reported.{has_changed, check_update_lem}
use advanced_c_language_proj.BibakBox.Clearing
use advanced_c_language_proj.BibakBox.Clearing.{
  is_removed, clear_directory, is_clearable, is_removed-clear_directory,
}
use advanced_c_language_proj.BibakBox.Paths.{
  with_slash, skip_separator, remove_base_path, join_path,
}
use advanced_c_language_proj.BibakBox.Messages.{get_file_size, sign_extend, update_detected}
use advanced_c_language_proj.BibakBox.Handlers.{handle_update}
use advanced_c_language_proj.BibakBox.Handlers.Replies.{handle_update-update_detected}
use advanced_c_language_proj.BibakBox.Thread.{Memory}
use advanced_c_language_proj.BibakBox.Clients.{accept_clients, init}
use advanced_c_language_proj.BibakBox.Clients.Served.{accept_clients_lem}
use advanced_c_language_proj.BibakBox.Tracking.{
  Info, Directory, ended, file, folder, passed_over, save_file_modification_times,
  remove_file_from_path,
}

abbrev memory : Memory
memory = record {
  size = replicate 4 0;
  behind = b'x' ∷ 0 ∷ [];
  create_size = replicate 4 0;
  update_size = replicate 8 0;
}

handle_update-update_detected_example :
    handle_update 3
      (codes "/s")
      (replicate 8 0)
      (replicate 4 0)
      (bytes_of 8 3 ∷ bytes_of 4 2 ∷ ((codes "/f" ∷ []) ++ ((1 ∷ []) ∷ (2 ∷ 3 ∷ []) ∷ [])))
    ≡ some ((codes "/s" ++ codes "/f", 1 ∷ 2 ∷ 3 ∷ []), [])
unfolding update_detected remove_base_path with_slash skip_separator starts_with flatten
    get_file_size sign_extend
handle_update-update_detected_example =
    handle_update-update_detected (codes "/c/f") (codes "/c") (codes "/s") (replicate 8 0)
      (replicate 4 0) _ _ (bytes_of 8 3) (bytes_of 4 2) (codes "/f") ((1 ∷ 2 ∷ 3 ∷ []) ∷ [])
      ((1 ∷ []) ∷ (2 ∷ 3 ∷ []) ∷ []) (codes "/f" ∷ []) refl refl refl (omega arith) (omega arith)
      (omega arith, (omega arith, tt)) refl ((λ e. cc), tt) refl
      (((λ e. cc), omega arith), (((λ e. cc), omega arith), tt))

accept_clients_lem_example :
    ((accept_clients (init 2) (5 ∷ 6 ∷ 7 ∷ [])).threads ≡ 5 ∷ 6 ∷ [])
    × ((accept_clients (init 2) (5 ∷ 6 ∷ 7 ∷ [])).closed ≡ 7 ∷ [])
    × ((accept_clients (init 2) (5 ∷ 6 ∷ 7 ∷ [])).client_count ≡ 2)
accept_clients_lem_example = accept_clients_lem 2 (5 ∷ 6 ∷ 7 ∷ [])

-- A directory with a file and a directory that has another file.
abbrev tree : Directory
tree = passed_over (file (codes "a") 1 (folder (codes "d") (file (codes "b") 2 ended) ended))

abbrev remembered : List Info
remembered = record { filepath = codes "/c/a"; last_modified_time = 1 } ∷ []

tree_runs :
    save_file_modification_times (codes "/c") tree []
    ≡ record { filepath = codes "/c/a"; last_modified_time = 1 }
      ∷ record { filepath = codes "/c/d/b"; last_modified_time = 2 }
      ∷ []
unfolding save_file_modification_times join_path
tree_runs = refl

remove_file_from_path_runs : remove_file_from_path (codes "/c/a") remembered ≡ []
unfolding remove_file_from_path str_eq
remove_file_from_path_runs = refl

-- A folder that has a FIFO stays.
is_removed-clear_directory_example :
    is_removed (
      clear_directory
        (Clearing.folder (Clearing.other Clearing.ended) (Clearing.file true Clearing.ended)))
    ≡ false
unfolding is_clearable
is_removed-clear_directory_example =
    is_removed-clear_directory
      (Clearing.folder (Clearing.other Clearing.ended) (Clearing.file true Clearing.ended))

-- The second of two files has changed.
abbrev changed : Files
changed = record {
  slots =
      record { filepath = codes "a"; last_modified_time = 5 }
      ∷ record { filepath = codes "b"; last_modified_time = 5 }
      ∷ [];
  glob_count = 2;
}

abbrev at_seven : Text → State
at_seven path = if str_eq path (codes "a") then modified 5 else modified 7

check_update_lem_example :
    ((check_update at_seven 2 changed).0 ≡ none)
      × All (λ info. has_changed at_seven info ≡ false) changed.slots
    ⊎ ((k : ℕ) × ((check_update at_seven 2 changed).0 ≡ some k)
        × (k < 2)
        × (has_changed at_seven (get_or changed.slots k no_info) ≡ true)
        × (at_seven (get_or (check_update at_seven 2 changed).1.slots k no_info).filepath
            ≡ modified
                (get_or (check_update at_seven 2 changed).1.slots k no_info).last_modified_time))
unfolding str_eq
check_update_lem_example =
    check_update_lem at_seven 2 2 changed (omega arith) (omega arith)
      ((λ e. absurd cc), ((λ e. absurd cc), tt))

reported : (check_update at_seven 2 changed).0 ≡ some 1
unfolding check_update check_from str_eq
reported = refl
