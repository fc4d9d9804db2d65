-- ===== src/BibakBox/FirstCopy.antt =====
-- Final_HW6/BibakBOXClient.c: the copy of the server's directory that a client makes when it starts.
-- `read` and `recv` find a connection that is not broken; a file or a folder can be made where the folder
-- of its path is there.
pub mod Entries
pub mod Saved
pub mod Mirror
pub mod Folders
pub mod Start
mod Tests
use advanced_c_language_proj.Base.{
  ℕ, zero, suc, ◌+◌, ◌*◌, ◌^◌, Bool, true, false, List, [], ◌∷◌, ◌++◌, Option, none, some, ◌==◌,
  if◌then◌else◌, length, take, drop, not,
}
use advanced_c_language_proj.Base.Bytes.{value_of}
use advanced_c_language_proj.Base.Text.{Text, c_string, str_eq}
use advanced_c_language_proj.BibakBox.Paths.{max_path_length, join_path}
use advanced_c_language_proj.BibakBox.Wire.{recv, recv_value, positive_part}
use advanced_c_language_proj.BibakBox.Handlers.{receive_data}
use advanced_c_language_proj.BibakBox.Listing.{FilePath}

-- What `read(fd, &paths[i], sizeof(FilePath))` leaves in an entry whose array has `size` bytes.
unfoldable pub entry_of : ℕ → Text → FilePath
entry_of size bytes = record {
  path = c_string (take size bytes);
  is_file = not (value_of (drop size bytes) == 0);
}

-- `memory` is what `malloc` gave for the entry.
unfoldable pub receive_entry : ℕ → Text → List Text → FilePath × List Text
receive_entry size memory pieces =
    let (got, rest) = recv (size + 4) pieces in
    (entry_of size (got ++ drop (length got) memory), rest)

-- The loop of `receiveDirectoryContents`.
unfoldable pub receive_entries : ℕ → ℕ → Text → List Text → List FilePath × List Text
receive_entries size zero memory pieces = ([], pieces)
receive_entries size (suc count) memory pieces =
    let (entry, rest) = receive_entry size memory pieces in
    let (entries, rest') = receive_entries size count memory rest in (entry ∷ entries, rest')

-- `count_memory` is what `count` holds before.
unfoldable pub receive_directory_contents : Text → Text → List Text → List FilePath × List Text
receive_directory_contents count_memory memory pieces =
    let (count, rest) = recv_value 4 count_memory pieces in
    receive_entries max_path_length (positive_part (2 ^ 31) count) memory rest

-- `newPaths`, `arraySize` and `arrayCapacity`
pub record StringArray : Type 0 where
  pub new_paths : List Text
  pub array_size : ℕ
  pub array_capacity : ℕ

abbrev pub no_paths : StringArray
no_paths = record { new_paths = []; array_size = 0; array_capacity = 5 }

unfoldable pub add_string_to_array : Text → StringArray → StringArray
add_string_to_array str a = record {
  new_paths = a.new_paths ++ str ∷ [];
  array_size = a.array_size + 1;
  array_capacity =
      if a.array_size == a.array_capacity then a.array_capacity * 2 else a.array_capacity;
}

-- A path up to its last slash.
unfoldable pub parent : Text → Option Text
parent [] = none
parent (c ∷ s) = elim (parent s) [
  | some t ↦ some (c ∷ t)
  | none ↦ if c == b'/' then some [] else none
]

unfoldable pub contains : List Text → Text → Bool
contains [] path = false
contains (folder ∷ folders) path =
    let rest = contains folders path in if str_eq folder path then true else rest

-- Whether `mkdir` and `fopen` can make the path: `folders` are those that are there. A path without a slash
-- stands in the working directory.
unfoldable pub opens : List Text → Text → Bool
unfolding parent contains
opens folders path = elim (parent path) [ none ↦ true | some folder ↦ contains folders folder ]

-- The folders that are there, and the array of the files. A folder that cannot be made is passed over.
unfoldable pub create_same_directory_structure :
    Text → Text → List FilePath → List Text → StringArray → List Text × StringArray
unfolding join_path add_string_to_array opens
create_same_directory_structure source destination [] folders a = (folders, a)
create_same_directory_structure source destination (entry ∷ contents) folders a =
    let destination_path = join_path destination (drop (length source + 1) entry.path) in
    let made =
      if opens folders destination_path then folders ++ destination_path ∷ [] else folders in
    create_same_directory_structure source destination contents
      (if entry.is_file then folders else made)
      (if entry.is_file then add_string_to_array destination_path a else a)

-- `saveFile`: what is written into the files of the array, in order. `none`: a file does not open and the
-- client exits, or a file is still being received after `fuel` rounds. `memory` is what `fileSize` holds
-- before, `folders` are those that are there.
unfoldable pub save_files :
    ℕ → Text → List Text → List Text → List Text → Option (List (Text × Text) × List Text)
unfolding opens
save_files fuel memory folders [] pieces = some ([], pieces)
save_files fuel memory folders (path ∷ paths) pieces =
    let (file_size, rest) = recv_value 8 memory pieces in
    elim (receive_data fuel (positive_part (2 ^ 63) file_size) rest) [
      | none ↦ none
      | some (written, rest') ↦ elim (save_files fuel memory folders paths rest') [
        | none ↦ none
        | some (files, rest'') ↦
            if opens folders path then some ((path, written) ∷ files, rest'') else none
      ]
    ]

unfoldable pub save_file :
    ℕ → Text → List Text → StringArray → List Text → Option (List (Text × Text) × List Text)
unfolding save_files
save_file fuel memory folders a pieces =
    save_files fuel memory folders (take a.array_size a.new_paths) pieces
