-- ===== src/Copier/Tests.antt =====
-- HW5/program.c at concrete inputs.
use advanced_c_language_proj.Base.{
  ◌≤◌, ℕ, ◌≡◌, refl, true, false, List, [], ◌∷◌, ◌++◌, some, arith, min, length,
}
use advanced_c_language_proj.Base.Int.{add32}
use advanced_c_language_proj.Base.Text.{Text, codes, after_last, str_eq}
use advanced_c_language_proj.Copier.FileNames.{file_extension, get_last_folder}
use advanced_c_language_proj.Copier.HashTable.{
  hash, get, find, register, insert, register_all, create_hashtable, report,
}
use advanced_c_language_proj.Copier.HashTable.Measure.{measure}
use advanced_c_language_proj.Copier.HashTable.Register.{one_each, valued, is_key}
use advanced_c_language_proj.Copier.HashTable.Counts.{occurrences}
use advanced_c_language_proj.Copier.TaskBuffer.{
  Task, Buffer, no_task, is_full, is_empty, add_task, next_task,
}
use advanced_c_language_proj.Copier.TaskBuffer.Fifo.{
  IsValid, contents, contents-add_task, contents-next_task,
}
use advanced_c_language_proj.Copier.Pool.{
  Pool, Run, Reach, start, later, lock_traverser, add, wake_none, finish, mark_done, broadcast,
  lock, decide, process, stop, stopped, deciding, asleep, adding, joining_root, joining_workers,
  a_worker, init,
}
use advanced_c_language_proj.Copier.Pool.Invariant.{remaining}
use advanced_c_language_proj.Copier.Pool.Order.{copied_in_order, mutual_exclusion}
use advanced_c_language_proj.Copier.Pool.Blocking.{lost_wakeup}
use advanced_c_language_proj.Copier.CopyFd.{Round, Copy, copy_fd, count_written}
use advanced_c_language_proj.Copier.CopyFd.Bytes.{copy_fd_complete}
use advanced_c_language_proj.Copier.Traversal.{
  Directory, ended, folder, file, fifo, passed_over, new_walk, make_folder, join_thread, hand_over,
  make_fifo, traverse_directory,
}
use advanced_c_language_proj.Copier.Traversal.Handed
use advanced_c_language_proj.Copier.Traversal.Handed.{paths, Fits, traverse_directory-all_copied}
use advanced_c_language_proj.Copier.Traversal.Counted
use advanced_c_language_proj.Copier.Traversal.Counted.{report-traverse_directory}

abbrev c_file : Text
c_file = codes "c"

abbrev h_file : Text
h_file = codes "h"

abbrev types : List Text
types = c_file ∷ h_file ∷ c_file ∷ []

hash_runs : hash (codes "txt") 10 ≡ 2
unfolding hash
hash_runs = refl

get_runs : get (register_all create_hashtable types) c_file ≡ 2
unfolding get find register_all register insert create_hashtable hash str_eq
get_runs = refl

extension_runs : file_extension (codes "a.tar.gz") ≡ codes "gz"
unfolding file_extension after_last
extension_runs = refl

-- A path that ends in a slash has the empty last folder.
trailing_slash : get_last_folder (some (codes "dir/")) ≡ some []
unfolding get_last_folder after_last
trailing_slash = refl

abbrev task : Task
task = record { src_fd = 3; dest_fd = 4; filename = 0 }

-- Three places; one task, at the last of them.
abbrev ring : Buffer
ring = record {
  buffer = no_task ∷ no_task ∷ task ∷ [];
  buffer_in = 0;
  buffer_out = 2;
  buffer_size = 3;
}

ring-IsValid : IsValid ring
ring-IsValid = omega arith

contents-add_task_example : contents (add_task ring task) ≡ contents ring ++ task ∷ []
unfolding is_full
contents-add_task_example = contents-add_task ring-IsValid task refl

contents-next_task_example : contents ring ≡ (next_task ring).0 ∷ contents (next_task ring).1
unfolding is_empty
contents-next_task_example = contents-next_task ring-IsValid refl

-- One worker, two places and one task, up to the first copy.
abbrev files : List Task
files = task ∷ []

session : (s : Pool) × Reach false 1 2 files s × (s.worker 0 ≡ stopped)
unfolding init is_full is_empty add_task next_task
session =
    let r₁ : Reach false 1 2 files _ = later start (lock_traverser refl refl) in
    let r₂ : Reach false 1 2 files _ = later r₁ (add refl refl (wake_none (λ i. λ e. cc))) in
    let r₃ : Reach false 1 2 files _ = later r₂ (finish refl) in
    let r₄ : Reach false 1 2 files _ = later r₃ (lock 0 (omega arith) refl refl) in
    let r₅ : Reach false 1 2 files _ = later r₄ (process 0 (omega arith) refl refl) in
    let r₆ : Reach false 1 2 files _ = later r₅ (mark_done refl refl) in
    let r₇ : Reach false 1 2 files _ = later r₆ (broadcast refl) in
    let r₈ : Reach false 1 2 files _ = later r₇ (lock 0 (omega arith) refl refl) in
    let r₉ : Reach false 1 2 files _ = later r₈ (stop 0 (omega arith) refl refl refl) in
    (_, r₉, refl)

copied_in_order_example :
    session.0.copied ++ (contents session.0.tasks ++ remaining session.0.traverser) ≡ files
copied_in_order_example = copied_in_order (omega arith) session.1

-- The worker decides to wait before the traversal has added anything.
early :
    (s : Pool) × Reach false 1 2 [] s
    × (s.worker 0 ≡ deciding)
    × (s.traverser ≡ adding [])
    × (s.main ≡ joining_root)
unfolding init is_empty
early =
    let r₁ : Reach false 1 2 [] _ = later start (lock 0 (omega arith) refl refl) in
    let r₂ : Reach false 1 2 [] _ = later r₁ (decide 0 (omega arith) refl refl refl) in
    (_, r₂, refl, refl, refl)

mutual_exclusion_example : a_worker 0 ≡ a_worker 0
unfolding early init
mutual_exclusion_example = mutual_exclusion 2 [] early.1 (a_worker 0) (a_worker 0) refl refl

lost_wakeup_example :
    (u : Pool) × Run false 1 early.0 u
    × (u.main ≡ joining_workers 0)
    × ((v : Pool)
        → Run false 1 u v
        → (v.worker 0 ≡ asleep) × (j : ℕ) × (j ≤ 0) × (v.main ≡ joining_workers j))
lost_wakeup_example = lost_wakeup 0 early.0 (omega arith) early.2 early.3 early.4

jammed : (s : Pool) × Reach false 1 1 files s
unfolding init
jammed = (_, later start (lock_traverser refl refl))

abbrev good_round : Round
good_round = record { read_ok = true; read_limit = 1; write_ok = true; write_limit = 1024 }

abbrev good_rounds : List Round
good_rounds = good_round ∷ good_round ∷ good_round ∷ good_round ∷ []

abbrev fresh : Copy
fresh = record { dest = []; bytes_copied = 7; messages = [] }

abbrev source : List ℕ
source = 10 ∷ 20 ∷ 30 ∷ []

copy_fd_complete_example :
    copy_fd good_rounds source fresh
    ≡ some (record fresh { dest = source; bytes_copied = add32 7 3 })
copy_fd_complete_example =
    copy_fd_complete good_rounds source fresh (ground arith) (omega arith) (omega arith)

-- The first `write` takes one byte of two, and the second `read` meets the end.
abbrev short_round : Round
short_round = record { read_ok = true; read_limit = 1; write_ok = true; write_limit = 1 }

abbrev lossy : Copy
lossy = record { dest = 10 ∷ 30 ∷ []; bytes_copied = 9; messages = [] }

lossy_run : copy_fd (short_round ∷ good_rounds) source fresh ≡ some lossy
unfolding copy_fd count_written
lossy_run = refl

-- The file is in a folder, behind a FIFO.
abbrev tree : Directory
tree = fifo (codes "p") (folder (codes "d") (file (codes "a.c") task ended) (passed_over ended))

tree-Fits : Fits (codes "s") tree × Fits (codes "t") tree
unfolding Fits
tree-Fits = omega arith

handed : (traverse_directory (codes "s") (codes "t") tree new_walk).handed ≡ files
unfolding traverse_directory make_folder join_thread hand_over make_fifo
handed = refl

traverse_directory-all_copied_example :
    (session.0.copied ≡ files)
    × ((traverse_directory (codes "s") (codes "t") tree new_walk).opened
        ≡ (codes "s/d/a.c", codes "t/d/a.c") ∷ [])
    × ((traverse_directory (codes "s") (codes "t") tree new_walk).regular_files
        ≡ length session.0.copied)
    × (length (codes "/d/a.c" ∷ []) ≡ length session.0.copied)
unfolding Handed.files paths traverse_directory make_folder join_thread hand_over make_fifo
traverse_directory-all_copied_example =
    traverse_directory-all_copied (codes "s") (codes "t") tree tree-Fits.0 tree-Fits.1 (omega arith)
      (omega arith) session.1 0 session.2

report-traverse_directory_example :
    (measure
        (one_each (is_key c_file))
        (report (traverse_directory (codes "s") (codes "t") tree new_walk).hashtable)
      ≡ min 1 (occurrences c_file (Counted.types tree)))
    × (measure
          (valued (is_key c_file))
          (report (traverse_directory (codes "s") (codes "t") tree new_walk).hashtable)
        ≡ occurrences c_file (Counted.types tree))
unfolding Counted.types
report-traverse_directory_example =
    report-traverse_directory (codes "s") (codes "t") tree c_file (omega arith)
