-- ===== src/Copier/Traversal.antt =====
-- HW5/program.c: the walk of `traverse_directory`. It runs in one thread at a time, since a parent joins
-- the thread of each subdirectory.
pub mod Handed
pub mod Counted
use advanced_c_language_proj.Base.{ℕ, ◌+◌, List, [], ◌∷◌, ◌++◌, take}
use advanced_c_language_proj.Base.Int.{add32}
use advanced_c_language_proj.Base.Text.{Text, codes}
use advanced_c_language_proj.Copier.FileNames.{file_extension}
use advanced_c_language_proj.Copier.HashTable.{Table, create_hashtable, register}
use advanced_c_language_proj.Copier.TaskBuffer.{Task}

-- What is left of a directory for `readdir`: nothing, or an entry and what comes behind it. An entry is
-- a directory for which a thread runs, with what is in it, a regular file with the task that the two
-- calls of `open` make of it, a FIFO that `mkfifo` makes again, or one that the loop passes over: the
-- directory itself, its parent, another kind, and those for which a call fails.
pub data Directory : Type 0 where
  ended : Directory
  folder : Text → Directory → Directory → Directory
  file : Text → Task → Directory → Directory
  fifo : Text → Directory → Directory
  passed_over : Directory → Directory

-- `snprintf(path, sizeof(path), "%s/%s", directory, name)`
abbrev pub entry_path : Text → Text → Text
entry_path directory name = take 1023 (directory ++ b'/' ∷ name)

-- The calls of `add_task_to_buffer`, the paths that are opened for them, what is made in the
-- destination, and the counts.
pub record Walk : Type 0 where
  pub handed : List Task
  pub opened : List (Text × Text)
  pub folders : List Text
  pub fifos : List Text
  pub hashtable : Table
  pub regular_files : ℕ
  pub directories : ℕ
  pub fifos_copied : ℕ

abbrev pub new_walk : Walk
new_walk = record {
  handed = [];
  opened = [];
  folders = [];
  fifos = [];
  hashtable = create_hashtable;
  regular_files = 0;
  directories = 0;
  fifos_copied = 0;
}

-- The branch for a directory up to `pthread_create`, and behind `pthread_join`.
unfoldable pub make_folder : Text → Text → Walk → Walk
make_folder dest_dir name w = record w { folders = w.folders ++ entry_path dest_dir name ∷ [] }

unfoldable pub join_thread : Walk → Walk
join_thread w = record w { directories = add32 w.directories 1 }

-- The branch for a regular file.
unfoldable pub hand_over : Text → Text → Text → Task → Walk → Walk
hand_over source_dir dest_dir name task w = record w {
  handed = w.handed ++ task ∷ [];
  opened = w.opened ++ (entry_path source_dir name, entry_path dest_dir name) ∷ [];
  hashtable = register w.hashtable (file_extension name);
  regular_files = add32 w.regular_files 1;
}

-- The branch for a FIFO.
unfoldable pub make_fifo : Text → Text → Walk → Walk
make_fifo dest_dir name w = record w {
  fifos = w.fifos ++ entry_path dest_dir name ∷ [];
  hashtable = register w.hashtable (codes "fifo");
  fifos_copied = add32 w.fifos_copied 1;
}

unfoldable pub traverse_directory : Text → Text → Directory → Walk → Walk
traverse_directory source_dir dest_dir ended w = w
traverse_directory source_dir dest_dir (folder name entries more) w =
    traverse_directory source_dir dest_dir more (
      join_thread (
        traverse_directory (entry_path source_dir name) (entry_path dest_dir name) entries
          (make_folder dest_dir name w)))
traverse_directory source_dir dest_dir (file name task more) w =
    traverse_directory source_dir dest_dir more (hand_over source_dir dest_dir name task w)
traverse_directory source_dir dest_dir (fifo name more) w =
    traverse_directory source_dir dest_dir more (make_fifo dest_dir name w)
traverse_directory source_dir dest_dir (passed_over more) w =
    traverse_directory source_dir dest_dir more w
