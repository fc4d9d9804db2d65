-- ===== src/BibakBox/Listing.antt =====
-- Final_HW6/BibakBOXServer.c: the list of a directory that the server makes when it starts, and what
-- it sends of it to a client. Calls of `send` are those of a connection that is not broken.
use advanced_c_language_proj.Base.{
  ℕ, zero, suc, Bool, true, false, List, [], ◌∷◌, ◌++◌, Option, none, some, if◌then◌else◌, length,
  take, drop, map,
}
use advanced_c_language_proj.Base.Bytes.{bytes_of}
use advanced_c_language_proj.Base.Text.{Text}
use advanced_c_language_proj.BibakBox.Paths.{max_path_length, join_path}
use advanced_c_language_proj.BibakBox.Messages.{get_file_size, sign_extend}

-- `FilePath`
pub record FilePath : Type 0 where
  pub path : Text
  pub is_file : Bool

-- What is left of a directory for `readdir`: nothing, or an entry and what comes behind it. An entry is
-- a regular file, a directory with what is in it, something else that `stat` finds, or one that the
-- loop passes over.
pub data Tree : Type 0 where
  ended : Tree
  file : Text → Tree → Tree
  folder : Text → Tree → Tree → Tree
  special : Text → Tree → Tree
  passed_over : Tree → Tree

-- An entry stands before the entries of its own directory.
unfoldable pub get_directory_contents : Text → Tree → List FilePath
unfolding join_path
get_directory_contents directory_path ended = []
get_directory_contents directory_path (file name more) =
    record { path = join_path directory_path name; is_file = true }
    ∷ get_directory_contents directory_path more
get_directory_contents directory_path (folder name entries more) =
    record { path = join_path directory_path name; is_file = false }
    ∷ (get_directory_contents (join_path directory_path name) entries
        ++ get_directory_contents directory_path more)
get_directory_contents directory_path (special name more) =
    record { path = join_path directory_path name; is_file = false }
    ∷ get_directory_contents directory_path more
get_directory_contents directory_path (passed_over more) =
    get_directory_contents directory_path more

-- The bytes of a `FilePath`, whose array has `size` bytes. It is copied whole: `stack` is what stands
-- in it behind the path.
unfoldable pub entry_bytes : ℕ → Text → FilePath → Text
entry_bytes size stack entry =
    take size (entry.path ++ 0 ∷ stack) ++ bytes_of 4 (if entry.is_file then 1 else 0)

-- The calls of `send`.
unfoldable pub send_directory_contents : Text → List FilePath → List Text
send_directory_contents stack contents =
    bytes_of 4 (length contents) ∷ map (entry_bytes max_path_length stack) contents

-- The loop over `fread` with a buffer of `size` bytes. Each round takes at least one byte, so that the
-- length of the file is enough as `fuel`.
unfoldable pub read_blocks : ℕ → ℕ → Text → List Text
read_blocks size zero contents = []
read_blocks size (suc fuel) [] = []
read_blocks size (suc fuel) (c ∷ contents) =
    take size (c ∷ contents) ∷ read_blocks size fuel (drop size (c ∷ contents))

-- The calls of `send` for each regular file: one for its size, and those for its data. `none`: the
-- server exits, since a file does not open. `open_file` gives the files that can be opened.
unfoldable pub send_file : (Text → Option Text) → List FilePath → Option (List (Text × List Text))
send_file open_file [] = some []
send_file open_file (entry ∷ contents) =
    let rest = send_file open_file contents in
    if entry.is_file
    then (elim (open_file entry.path) [
      | none ↦ none
      | some text ↦ elim rest [
        | none ↦ none
        | some sent ↦ some (
            (
              bytes_of 8 (sign_extend (get_file_size (some (length text)))),
              read_blocks 1024 (length text) text,
            )
            ∷ sent)
      ]
    ])
    else rest
