-- ===== src/Copier/Traversal/Handed.antt =====
-- HW5/program.c: what a walk hands over to the workers.
use advanced_c_language_proj.Base.{
  ℕ, suc, ◌+◌, ◌≤◌, ◌<◌, ◌≡◌, ◌^◌, ◌∙◌, refl, sym, ap, Bool, List, [], ◌∷◌, ◌++◌, map, map-append,
  length, length-append, take-all, arith, append_assoc, append-nil,
}
use advanced_c_language_proj.Base.Text.{Text}
use advanced_c_language_proj.Copier.TaskBuffer.{Task}
use advanced_c_language_proj.Copier.Pool.{Pool, stopped, Reach}
use advanced_c_language_proj.Copier.Pool.Order.{stopped-all_copied}
use advanced_c_language_proj.Copier.Traversal.{
  Directory, ended, folder, file, fifo, passed_over, Walk, new_walk, entry_path, make_folder,
  join_thread, hand_over, make_fifo, traverse_directory,
}

-- The regular files of a tree: the tasks that their calls of `open` make, and their paths under the
-- tree's directory, with `under` in front.
unfoldable pub files : Directory → List Task
files ended = []
files (folder name entries more) = files entries ++ files more
files (file name task more) = task ∷ files more
files (fifo name more) = files more
files (passed_over more) = files more

unfoldable pub paths : Text → Directory → List Text
paths under ended = []
paths under (folder name entries more) = paths (under ++ b'/' ∷ name) entries ++ paths under more
paths under (file name task more) = (under ++ b'/' ∷ name) ∷ paths under more
paths under (fifo name more) = paths under more
paths under (passed_over more) = paths under more

-- Every path of a file or folder under a directory fits into an array of 1024 bytes.
unfoldable pub Fits : Text → Directory → Type 0
Fits directory ended = Unit {0}
Fits directory (folder name entries more) =
    (length (directory ++ b'/' ∷ name) ≤ 1023)
    × Fits (directory ++ b'/' ∷ name) entries
    × Fits directory more
Fits directory (file name task more) =
    (length (directory ++ b'/' ∷ name) ≤ 1023) × Fits directory more
Fits directory (fifo name more) = Fits directory more
Fits directory (passed_over more) = Fits directory more

length-paths : (under : Text) (d : Directory) → length (paths under d) ≡ length (files d)
unfolding paths files
length-paths under ended = refl
length-paths under (folder name entries more) = omega (
  arith,
  length-append (paths (under ++ b'/' ∷ name) entries) (paths under more),
  length-append (files entries) (files more),
  length-paths (under ++ b'/' ∷ name) entries,
  length-paths under more,
)
length-paths under (file name task more) = ap (λ n. suc n) (length-paths under more)
length-paths under (fifo name more) = length-paths under more
length-paths under (passed_over more) = length-paths under more

traverse_directory-handed :
    (source dest : Text) (d : Directory) (w : Walk)
    → (traverse_directory source dest d w).handed ≡ w.handed ++ files d
unfolding traverse_directory files make_folder join_thread hand_over make_fifo
traverse_directory-handed source dest ended w = sym (append-nil w.handed)
traverse_directory-handed source dest (folder name entries more) w =
    let inside = make_folder dest name w in
    let left = traverse_directory (entry_path source name) (entry_path dest name) entries inside in
    traverse_directory-handed source dest more (join_thread left)
    ∙ ap (λ l. l ++ files more)
        (traverse_directory-handed (entry_path source name) (entry_path dest name) entries inside)
    ∙ append_assoc w.handed (files entries) (files more)
traverse_directory-handed source dest (file name task more) w =
    traverse_directory-handed source dest more (hand_over source dest name task w)
    ∙ append_assoc w.handed (task ∷ []) (files more)
traverse_directory-handed source dest (fifo name more) w =
    traverse_directory-handed source dest more (make_fifo dest name w)
traverse_directory-handed source dest (passed_over more) w =
    traverse_directory-handed source dest more w

traverse_directory-regular_files :
    (source dest : Text) (d : Directory) (w : Walk)
    → w.regular_files + length (files d) < 2 ^ 31
    → (traverse_directory source dest d w).regular_files ≡ w.regular_files + length (files d)
unfolding traverse_directory files make_folder join_thread hand_over make_fifo
traverse_directory-regular_files source dest ended w small = omega arith
traverse_directory-regular_files source dest (folder name entries more) w small =
    let inside = make_folder dest name w in
    let left = traverse_directory (entry_path source name) (entry_path dest name) entries inside in
    let size = length-append (files entries) (files more) in
    let first =
      traverse_directory-regular_files (entry_path source name) (entry_path dest name) entries
        inside (omega (arith, size)) in
    let second =
      traverse_directory-regular_files source dest more (join_thread left)
        (omega (arith, first, size)) in
    omega (arith, first, second, size)
traverse_directory-regular_files source dest (file name task more) w small = omega (
  arith,
  traverse_directory-regular_files source dest more (hand_over source dest name task w)
      (omega arith),
)
traverse_directory-regular_files source dest (fifo name more) w small =
    traverse_directory-regular_files source dest more (make_fifo dest name w) small
traverse_directory-regular_files source dest (passed_over more) w small =
    traverse_directory-regular_files source dest more w small

-- Both sides of a path.
abbrev pub both_sides : Text → Text → Text → Text × Text
both_sides source dest path = (source ++ path, dest ++ path)

entry_path-append :
    (top under directory name : Text)
    → directory ≡ top ++ under
    → length (directory ++ b'/' ∷ name) ≤ 1023
    → (entry_path directory name ≡ directory ++ b'/' ∷ name)
      × (entry_path directory name ≡ top ++ (under ++ b'/' ∷ name))
entry_path-append top under directory name e fits =
    let whole = take-all (directory ++ b'/' ∷ name) 1023 fits in
    (whole, whole ∙ ap (λ u. u ++ b'/' ∷ name) e ∙ append_assoc top under (b'/' ∷ name))

traverse_directory-opened :
    (source dest under source_dir dest_dir : Text) (d : Directory) (w : Walk)
    → source_dir ≡ source ++ under
    → dest_dir ≡ dest ++ under
    → Fits source_dir d
    → Fits dest_dir d
    → (traverse_directory source_dir dest_dir d w).opened
      ≡ w.opened ++ map (both_sides source dest) (paths under d)
unfolding traverse_directory paths Fits make_folder join_thread hand_over make_fifo
traverse_directory-opened source dest under source_dir dest_dir ended w e e' h h' =
    sym (append-nil w.opened)
traverse_directory-opened source dest under source_dir dest_dir (folder name entries more) w e e' h
      h' =
    let inside = make_folder dest_dir name w in
    let left =
      traverse_directory (entry_path source_dir name) (entry_path dest_dir name) entries inside in
    let (whole, below) = entry_path-append source under source_dir name e h.0 in
    let (whole', below') = entry_path-append dest under dest_dir name e' h'.0 in
    let f = both_sides source dest in
    let under' = under ++ b'/' ∷ name in
    let first =
      traverse_directory-opened source dest under' (entry_path source_dir name)
        (entry_path dest_dir name) entries inside below below' (rw whole h.1) (rw whole' h'.1) in
    traverse_directory-opened source dest under source_dir dest_dir more (join_thread left) e e' h.2
      h'.2
    ∙ ap (λ l. l ++ map f (paths under more)) first
    ∙ append_assoc w.opened (map f (paths under' entries)) (map f (paths under more))
    ∙ ap (λ l. w.opened ++ l) (sym (map-append f (paths under' entries) (paths under more)))
traverse_directory-opened source dest under source_dir dest_dir (file name task more) w e e' h h' =
    let (_, below) = entry_path-append source under source_dir name e h.0 in
    let (_, below') = entry_path-append dest under dest_dir name e' h'.0 in
    let f = both_sides source dest in
    traverse_directory-opened source dest under source_dir dest_dir more
      (hand_over source_dir dest_dir name task w) e e' h.1 h'.1
    ∙ append_assoc w.opened ((entry_path source_dir name, entry_path dest_dir name) ∷ [])
        (map f (paths under more))
    ∙ ap (λ l. w.opened ++ l) (rw (below, below') refl)
traverse_directory-opened source dest under source_dir dest_dir (fifo name more) w e e' h h' =
    traverse_directory-opened source dest under source_dir dest_dir more (make_fifo dest_dir name w)
      e e' h h'
traverse_directory-opened source dest under source_dir dest_dir (passed_over more) w e e' h h' =
    traverse_directory-opened source dest under source_dir dest_dir more w e e' h h'

-- Once a worker has stopped, the tasks that have been copied are those of the regular files of the
-- source tree, each once and in the order of the tree; each was opened in the source and in the
-- destination under the same path; and `regular_files`, which is printed, is their number. There are
-- fewer than 2 ^ 31 of them and the buffer has a place. Paths are shorter than 1024 bytes.
pub traverse_directory-all_copied :
    {spurious : Bool} {n size : ℕ} {s : Pool} (source dest : Text) (d : Directory)
    → Fits source d
    → Fits dest d
    → length (files d) < 2 ^ 31
    → 0 < size
    → Reach spurious n size (traverse_directory source dest d new_walk).handed s
    → (i : ℕ) → s.worker i ≡ stopped
    → let w = traverse_directory source dest d new_walk in
      (s.copied ≡ files d)
      × (w.opened ≡ map (both_sides source dest) (paths [] d))
      × (w.regular_files ≡ length s.copied)
      × (length (paths [] d) ≡ length s.copied)
traverse_directory-all_copied {s} source dest d fits fits' small pos run i e =
    let (all, _) = stopped-all_copied pos run i e in
    let copied : s.copied ≡ files d = all ∙ traverse_directory-handed source dest d new_walk in
    let counted = traverse_directory-regular_files source dest d new_walk (omega arith) in
    (
      copied,
      traverse_directory-opened source dest [] source dest d new_walk (sym (append-nil source))
          (sym (append-nil dest)) fits fits',
      rw copied (omega (arith, counted)),
      rw copied (length-paths [] d),
    )
