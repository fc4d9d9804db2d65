-- ===== src/Copier/Traversal/Counted.antt =====
-- HW5/program.c: the table of the file types behind a walk.
use advanced_c_language_proj.Base.{
  ◌<◌, ◌≡◌, ◌^◌, ◌∙◌, refl, sym, ap, min, List, [], ◌∷◌, ◌++◌, length,
}
use advanced_c_language_proj.Base.Text.{Text, codes}
use advanced_c_language_proj.Copier.FileNames.{file_extension}
use advanced_c_language_proj.Copier.HashTable.{Table, register, register_all, report}
use advanced_c_language_proj.Copier.HashTable.Counts.{occurrences}
use advanced_c_language_proj.Copier.HashTable.Measure.{measure}
use advanced_c_language_proj.Copier.HashTable.Register.{valued, one_each, is_key}
use advanced_c_language_proj.Copier.HashTable.Report.{report-register_all}
use advanced_c_language_proj.Copier.Traversal.{
  Directory, ended, folder, file, fifo, passed_over, Walk, new_walk, make_folder, join_thread,
  hand_over, make_fifo, entry_path, traverse_directory,
}

-- The types of the files and FIFOs of a tree.
unfoldable pub types : Directory → List Text
types ended = []
types (folder name entries more) = types entries ++ types more
types (file name task more) = file_extension name ∷ types more
types (fifo name more) = codes "fifo" ∷ types more
types (passed_over more) = types more

register_all-append :
    (t : Table) (xs ys : List Text)
    → register_all t (xs ++ ys) ≡ register_all (register_all t xs) ys
unfolding register_all
register_all-append t [] ys = refl
register_all-append t (x ∷ xs) ys = register_all-append (register t x) xs ys

traverse_directory-hashtable :
    (source dest : Text) (d : Directory) (w : Walk)
    → (traverse_directory source dest d w).hashtable ≡ register_all w.hashtable (types d)
unfolding traverse_directory types register_all make_folder join_thread hand_over make_fifo
traverse_directory-hashtable source dest ended w = refl
traverse_directory-hashtable source dest (folder name entries more) w =
    let inside = make_folder dest name w in
    let left = traverse_directory (entry_path source name) (entry_path dest name) entries inside in
    traverse_directory-hashtable source dest more (join_thread left)
    ∙ ap (λ t. register_all t (types more))
        (traverse_directory-hashtable (entry_path source name) (entry_path dest name) entries
          inside)
    ∙ sym (register_all-append w.hashtable (types entries) (types more))
traverse_directory-hashtable source dest (file name task more) w =
    traverse_directory-hashtable source dest more (hand_over source dest name task w)
traverse_directory-hashtable source dest (fifo name more) w =
    traverse_directory-hashtable source dest more (make_fifo dest name w)
traverse_directory-hashtable source dest (passed_over more) w =
    traverse_directory-hashtable source dest more w

-- The table that is printed at the end has exactly one line for each type that a file or FIFO of the
-- source tree has, its values for a type sum up to the number of these files, and there is no line
-- for any other type. There are fewer than 2 ^ 31 files and FIFOs.
pub report-traverse_directory :
    (source dest : Text) (d : Directory) (q : Text)
    → length (types d) < 2 ^ 31
    → let printed = report (traverse_directory source dest d new_walk).hashtable in
      (measure (one_each (is_key q)) printed ≡ min 1 (occurrences q (types d)))
      × (measure (valued (is_key q)) printed ≡ occurrences q (types d))
report-traverse_directory source dest d q small =
    rw (traverse_directory-hashtable source dest d new_walk) (report-register_all (types d) q small)
