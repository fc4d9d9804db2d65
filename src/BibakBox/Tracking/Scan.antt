-- ===== src/BibakBox/Tracking/Scan.antt =====
-- Final_HW6/BibakBOXClient.c: which files `saveFileModificationTimes` collects.
use advanced_c_language_proj.Base.{
  ℕ, zero, suc, ◌≤◌, ◌≡◌, refl, sym, ap, List, [], ◌∷◌, ◌++◌, leb, length, take, arith,
  length-append, length-take, append-nil, append_assoc, take-all, take-append, Bool-cases, inl, inr,
}
use advanced_c_language_proj.Base.Text.{Text}
use advanced_c_language_proj.BibakBox.Paths.{join_path}
use advanced_c_language_proj.BibakBox.Tracking.{
  Info, Directory, ended, file, folder, passed_over, max_files, save_file_modification_times,
}

-- The files of a directory and of the directories in it, each with its whole path.
unfoldable pub all_files : Text → Directory → List Info
all_files directory ended = []
all_files directory (file name st_mtime more) =
    record { filepath = join_path directory name; last_modified_time = st_mtime }
    ∷ all_files directory more
all_files directory (folder name entries more) =
    all_files (join_path directory name) entries ++ all_files directory more
all_files directory (passed_over more) = all_files directory more

module _ {A : Type 0} where
  take-take-append : (n : ℕ) (xs ys : List A) → take n (take n xs ++ ys) ≡ take n (xs ++ ys)
  take-take-append zero xs ys = refl
  take-take-append (suc n) [] ys = refl
  take-take-append (suc n) (x ∷ xs) ys = ap (λ l. x ∷ l) (take-take-append n xs ys)

  take-append_le : (n : ℕ) (xs ys : List A) → n ≡ length xs → take n (xs ++ ys) ≡ xs
  take-append_le n xs ys h = rw h (take-append xs ys)

save_from :
    (directory : Text) (d : Directory) (files : List Info)
    → length files ≤ max_files
    → save_file_modification_times directory d files
      ≡ take max_files (files ++ all_files directory d)
unfolding save_file_modification_times all_files
save_from directory ended files h = rw (append-nil files) (sym (take-all files max_files h))
save_from directory (file name st_mtime more) files h =
    let info : Info = record {
      filepath = join_path directory name;
      last_modified_time = st_mtime;
    } in
    let others = all_files directory more in
    elim (Bool-cases (leb max_files (length files))) [
      | inl e ↦
          let cut = take-append_le max_files files (info ∷ others) (ground (arith, e)) in
          rw (save_file_modification_times, e) (sym cut)
      | inr e ↦
          let room : length (files ++ info ∷ []) ≤ max_files =
            ground (arith, e, length-append files (info ∷ [])) in
          let later = save_from directory more (files ++ info ∷ []) room in
          rw (save_file_modification_times, e, later, append_assoc files (info ∷ []) others) refl
    ]
save_from directory (folder name entries more) files h =
    let inner = all_files (join_path directory name) entries in
    let within = save_from (join_path directory name) entries files h in
    let short : length (take max_files (files ++ inner)) ≤ max_files =
      omega (arith, length-take max_files (files ++ inner)) in
    let later = save_from directory more (take max_files (files ++ inner)) short in
    rw
      (
        within,
        later,
        take-take-append max_files (files ++ inner) (all_files directory more),
        append_assoc files inner (all_files directory more),
      )
      refl
save_from directory (passed_over more) files h = save_from directory more files h

-- saveFileModificationTimes collects the first 100 files of the directory and its subdirectories, in
-- the order in which they are read, and no others.
pub save_file_modification_times_lem :
    (directory : Text) (d : Directory)
    → save_file_modification_times directory d [] ≡ take 100 (all_files directory d)
save_file_modification_times_lem directory d = save_from directory d [] (omega arith)
