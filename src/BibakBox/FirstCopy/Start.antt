-- ===== src/BibakBox/FirstCopy/Start.antt =====
-- Final_HW6: all that a connection carries before the first message, from the start of the server's
-- `thread_function` to the first copy in the client's `main`.
pub mod Whole
use advanced_c_language_proj.Base.{ℕ, ◌^◌, List, [], ◌∷◌, ◌++◌, Option, none, some, length}
use advanced_c_language_proj.Base.Bytes.{bytes_of}
use advanced_c_language_proj.Base.Text.{Text, c_string}
use advanced_c_language_proj.BibakBox.Wire.{recv, recv_value, positive_part}
use advanced_c_language_proj.BibakBox.Listing.{
  FilePath, Tree, get_directory_contents, send_directory_contents, send_file,
}
use advanced_c_language_proj.BibakBox.FirstCopy.{
  receive_directory_contents, create_same_directory_structure, no_paths, save_file,
}

-- The calls of `send`: those for the path and the list, and those for the files. `none`: the server
-- exits, since a file does not open.
unfoldable pub thread_start :
    (Text → Option Text) → Text → Text → Tree → Option (List Text × List (Text × List Text))
thread_start open_file stack base_path tree =
    let contents = get_directory_contents base_path tree in
    elim (send_file open_file contents) [
      | none ↦ none
      | some sent ↦
          some (
            bytes_of 4 (length base_path) ∷ base_path ∷ send_directory_contents stack contents,
            sent,
          )
    ]

-- What the client finds in memory that it reads and has not written.
pub record StartMemory : Type 0 where
  pub path_length : Text  -- `pathLength`
  pub behind : Text  -- behind the path
  pub count : Text  -- `count`
  pub entry : Text  -- the entries of the list
  pub file_size : Text  -- `fileSize`

-- The folders that are there at the end, the client's own directory first, the files that are written,
-- in order, and what is left on the connection. The client's directory is empty at the start.
unfoldable pub make_copy :
    ℕ
    → Text
    → Text
    → Text
    → List FilePath
    → List Text
    → Option (List Text × List (Text × Text) × List Text)
make_copy fuel file_size path directory_path contents pieces =
    let (folders, made) =
      create_same_directory_structure path directory_path contents (directory_path ∷ []) no_paths in
    elim (save_file fuel file_size folders made pieces) [
      | none ↦ none
      | some (files, behind) ↦ some (folders, files, behind)
    ]

-- `main` of the client from the length of the path to the files.
unfoldable pub client_start :
    ℕ → StartMemory → Text → List Text → Option (List Text × List (Text × Text) × List Text)
unfolding make_copy
client_start fuel memory directory_path pieces =
    let (path_length, rest) = recv_value 4 memory.path_length pieces in
    let (path, rest') = recv (positive_part (2 ^ 31) path_length) rest in
    let (contents, rest'') = receive_directory_contents memory.count memory.entry rest' in
    make_copy fuel memory.file_size (c_string (path ++ memory.behind)) directory_path contents
      rest''
