-- ===== src/BibakBox/FirstCopy/Mirror.antt =====
-- Final_HW6: the first copy that a client makes against the directory of the server.
use advanced_c_language_proj.Base.{
  ℕ, suc, ◌+◌, ◌≤◌, ◌<◌, ◌≡◌, ◌^◌, ◌⊎◌, ◌∙◌, inl, inr, refl, sym, List, [], ◌∷◌, ◌++◌, Option, some,
  length, take, drop, map, flatten, All, arith, length-append, append-nil, append_assoc, take-all,
  Bool-cases, true, if◌then◌else◌,
}
use advanced_c_language_proj.Base.Text.{Text}
use advanced_c_language_proj.BibakBox.Paths.{max_path_length, join_path}
use advanced_c_language_proj.BibakBox.Listing.{
  FilePath, Tree, ended, file, folder, special, passed_over, get_directory_contents, send_file,
}
use advanced_c_language_proj.BibakBox.FirstCopy.{
  StringArray, no_paths, opens, add_string_to_array, create_same_directory_structure, save_file,
}
use advanced_c_language_proj.BibakBox.FirstCopy.Saved.{
  Delivered, text_of, files_of, copies, save_files-send_file,
}

-- The elements of the array are within its capacity.
pub record IsValid (a : StringArray) : Type 0 where
  pub counted : length a.new_paths ≡ a.array_size
  pub within : a.array_size ≤ a.array_capacity
  pub room : 1 ≤ a.array_capacity

pub no_paths-IsValid : IsValid no_paths
no_paths-IsValid = omega arith

add_string_to_array-IsValid :
    (str : Text) (a : StringArray) → IsValid a → IsValid (add_string_to_array str a)
unfolding add_string_to_array
add_string_to_array-IsValid str a v = ground (arith, length-append a.new_paths (str ∷ []))

-- Where the client puts an entry of the server's list.
abbrev pub place : Text → Text → Text → Text
place source destination path = join_path destination (drop (length source + 1) path)

create_same_directory_structure-new_paths :
    (source destination : Text) (contents : List FilePath) (folders : List Text) (a : StringArray)
    → IsValid a
    → ((create_same_directory_structure source destination contents folders a).1.new_paths
        ≡ a.new_paths ++ map (place source destination) (files_of contents))
      × IsValid (create_same_directory_structure source destination contents folders a).1
unfolding create_same_directory_structure files_of
create_same_directory_structure-new_paths source destination [] folders a v =
    (sym (append-nil a.new_paths), v)
create_same_directory_structure-new_paths source destination (entry ∷ contents) folders a v =
    let path = place source destination entry.path in
    elim (Bool-cases entry.is_file) [
      | inl e ↦
          let later =
            create_same_directory_structure-new_paths source destination contents folders
              (add_string_to_array path a) (add_string_to_array-IsValid path a v) in
          rw e (
            later.0
                ∙ unfold add_string_to_array in
                  append_assoc a.new_paths (path ∷ [])
                    (map (place source destination) (files_of contents)),
            later.1,
          )
      | inr e ↦ rw e (
          create_same_directory_structure-new_paths source destination contents
            (if opens folders path then folders ++ path ∷ [] else folders) a v)
    ]

-- The files of a directory and of those in it, with the place of each under the destination.
unfoldable pub mirror : (Text → Option Text) → Text → Text → Tree → List (Text × Text)
mirror open_file source destination ended = []
mirror open_file source destination (file name more) =
    (destination ++ b'/' ∷ name, text_of (open_file (source ++ b'/' ∷ name)))
    ∷ mirror open_file source destination more
mirror open_file source destination (folder name entries more) =
    mirror open_file (source ++ b'/' ∷ name) (destination ++ b'/' ∷ name) entries
    ++ mirror open_file source destination more
mirror open_file source destination (special name more) = mirror open_file source destination more
mirror open_file source destination (passed_over more) = mirror open_file source destination more

-- Every path under a directory fits into an array of 1024 bytes.
unfoldable pub Fits : Text → Tree → Type 0
Fits directory ended = Unit {0}
Fits directory (file name more) =
    (length (directory ++ b'/' ∷ name) < max_path_length) × Fits directory more
Fits directory (folder name entries more) =
    (length (directory ++ b'/' ∷ name) < max_path_length)
    × Fits (directory ++ b'/' ∷ name) entries
    × Fits directory more
Fits directory (special name more) =
    (length (directory ++ b'/' ∷ name) < max_path_length) × Fits directory more
Fits directory (passed_over more) = Fits directory more

pub join_path_fits :
    (directory name : Text)
    → length (directory ++ b'/' ∷ name) < max_path_length
    → join_path directory name ≡ directory ++ b'/' ∷ name
unfolding join_path
join_path_fits directory name h = take-all (directory ++ b'/' ∷ name) 1023 (omega arith)

drop-append_suc : (xs ys : Text) → drop (length xs + 1) (xs ++ ys) ≡ drop 1 ys
drop-append_suc [] ys = refl
drop-append_suc (x ∷ xs) ys =
    let one : length (x ∷ xs) + 1 ≡ suc (length xs + 1) = omega arith in
    rw one (drop-append_suc xs ys)

-- A path under a directory: nothing, or a slash and what follows.
abbrev pub IsUnder : Text → Type 0
IsUnder under = (under ≡ []) ⊎ ((name : Text) × (under ≡ b'/' ∷ name))

pub place-append :
    (source destination under name : Text)
    → IsUnder under
    → length (destination ++ (under ++ b'/' ∷ name)) < max_path_length
    → place source destination (source ++ (under ++ b'/' ∷ name))
      ≡ destination ++ (under ++ b'/' ∷ name)
place-append source destination under name (inl e) h =
    let fits : length (destination ++ b'/' ∷ name) < max_path_length = rw e at h in
    rw (drop-append_suc source (under ++ b'/' ∷ name), e) (join_path_fits destination name fits)
place-append source destination under name (inr (rest, e)) h =
    let fits : length (destination ++ (b'/' ∷ (rest ++ b'/' ∷ name))) < max_path_length =
      rw e at h in
    rw (drop-append_suc source (under ++ b'/' ∷ name), e)
      (join_path_fits destination (rest ++ b'/' ∷ name) fits)

-- One place further down, seen from both directories.
pub under_step :
    (base under path name : Text)
    → path ≡ base ++ under
    → path ++ b'/' ∷ name ≡ base ++ (under ++ b'/' ∷ name)
under_step base under path name e = rw e (append_assoc base under (b'/' ∷ name))

pub IsUnder-step : (under name : Text) → IsUnder under → IsUnder (under ++ b'/' ∷ name)
IsUnder-step under name (inl e) = inr (name, rw e refl)
IsUnder-step under name (inr (rest, e)) = inr (rest ++ b'/' ∷ name, rw e refl)

copies-append :
    (open_file : Text → Option Text) (at : Text → Text) (xs ys : List FilePath)
    → copies open_file at (xs ++ ys) ≡ copies open_file at xs ++ copies open_file at ys
unfolding copies
copies-append open_file at [] ys = refl
copies-append open_file at (x ∷ xs) ys = ground (arith, copies-append open_file at xs ys)

module _ (open_file : Text → Option Text) (source destination : Text) where
  copies-mirror :
      (under src dst : Text) (tree : Tree)
      → IsUnder under
      → src ≡ source ++ under
      → dst ≡ destination ++ under
      → Fits src tree
      → Fits dst tree
      → copies open_file (place source destination) (get_directory_contents src tree)
        ≡ mirror open_file src dst tree
  unfolding copies get_directory_contents mirror Fits
  copies-mirror under src dst ended u e e' h h' = refl
  copies-mirror under src dst (file name more) u e e' h h' =
      let later = copies-mirror under src dst more u e e' h.1 h'.1 in
      let from : join_path src name ≡ src ++ b'/' ∷ name = join_path_fits src name h.0 in
      let src' = under_step source under src name e in
      let dst' = under_step destination under dst name e' in
      let here : place source destination (src ++ b'/' ∷ name) ≡ dst ++ b'/' ∷ name =
        rw (src', dst') (place-append source destination under name u (rw dst' at h'.0)) in
      rw (from, here, later) refl
  copies-mirror under src dst (folder name entries more) u e e' h h' =
      let from : join_path src name ≡ src ++ b'/' ∷ name = join_path_fits src name h.0 in
      let inner =
        copies-mirror (under ++ b'/' ∷ name) (src ++ b'/' ∷ name) (dst ++ b'/' ∷ name) entries
          (IsUnder-step under name u) (under_step source under src name e)
          (under_step destination under dst name e') h.1 h'.1 in
      let later = copies-mirror under src dst more u e e' h.2 h'.2 in
      rw
        (
          from,
          copies-append open_file (place source destination)
              (get_directory_contents (src ++ b'/' ∷ name) entries)
              (get_directory_contents src more),
          inner,
          later,
        )
        refl
  copies-mirror under src dst (special name more) u e e' h h' =
      copies-mirror under src dst more u e e' h.1 h'.1
  copies-mirror under src dst (passed_over more) u e e' h h' =
      copies-mirror under src dst more u e e' h h'

-- The files that a client writes when it starts are the server's regular files, each under the
-- client's directory as it stands under the server's, with the server's contents, however the data are
-- cut into pieces on their way. The server sends its files for the list that it made of its directory,
-- and the client puts them by the same list. All paths are shorter than 1024 bytes, the files are
-- shorter than 2^31 bytes and at most `fuel` bytes long, nothing comes behind them, and the folder of
-- each file is there.
pub save_file-send_file :
    (fuel : ℕ) (memory source destination : Text) (tree : Tree) (open_file : Text → Option Text)
    (folders start : List Text) (sent : List (Text × List Text)) (stream : List Text)
    → length memory ≡ 8
    → Fits source tree
    → Fits destination tree
    → All
        (λ p. opens folders p ≡ true)
        (map (place source destination) (files_of (get_directory_contents source tree)))
    → send_file open_file (get_directory_contents source tree) ≡ some sent
    → Delivered sent stream
    → All (λ s. (length (flatten s.1) < 2 ^ 31) × (length (flatten s.1) ≤ fuel)) sent
    → save_file fuel memory folders
        (create_same_directory_structure source destination
          (get_directory_contents source tree)
          start
          no_paths).1
        stream
      ≡ some (mirror open_file source destination tree, [])
unfolding save_file
save_file-send_file fuel memory source destination tree open_file folders start sent stream size h
      h' there e came small =
    let contents = get_directory_contents source tree in
    let made = (create_same_directory_structure source destination contents start no_paths).1 in
    let (paths, valid) =
      create_same_directory_structure-new_paths source destination contents start no_paths
        no_paths-IsValid in
    let all : take made.array_size made.new_paths ≡ made.new_paths =
      take-all made.new_paths made.array_size (omega (arith, valid.counted)) in
    let saved =
      save_files-send_file fuel memory open_file (place source destination) folders contents sent
        stream size there e came small in
    let mirrored =
      copies-mirror open_file source destination [] source destination tree (inl refl)
        (sym (append-nil source)) (sym (append-nil destination)) h h' in
    rw (save_file, all, paths, saved, mirrored) refl
