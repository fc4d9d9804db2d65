-- ===== src/BibakBox/Messages.antt =====
-- Final_HW6/BibakBOXClient.c: what the client sends for a file that it finds created, deleted or
-- changed. A function is the list of its calls of `send`. A `send` that fails ends the function, so
-- that the calls before it are those of the list.
use advanced_c_language_proj.Base.{
  ℕ, ◌+◌, ◌%◌, ◌^◌, ◌-◌, List, [], ◌∷◌, Option, none, some, ltb, if◌then◌else◌, length,
}
use advanced_c_language_proj.Base.Bytes.{bytes_of}
use advanced_c_language_proj.Base.Text.{Text, codes}
use advanced_c_language_proj.BibakBox.Paths.{remove_base_path}

-- `getFileSize`: the size is a `long` that is returned as an `int`, and -1 stands for a file that
-- `stat` does not find.
unfoldable pub get_file_size : Option ℕ → ℕ
get_file_size none = 2 ^ 32 - 1
get_file_size (some st_size) = st_size % 2 ^ 32

-- An `int` in a `long`.
unfoldable pub sign_extend : ℕ → ℕ
sign_extend value = if ltb value (2 ^ 31) then value else value + (2 ^ 64 - 2 ^ 32)

abbrev pub create_message : Text
create_message = codes "!_CREATE_!\n"

abbrev pub delete_message : Text
delete_message = codes "!_DELETE_!\n"

abbrev pub update_message : Text
update_message = codes "!_UPDATE_!\n"

-- The name that the client sends for a file.
unfoldable pub created_detected : Text → Text → Option ℕ → List Text
created_detected file_path base_path st_size =
    let new_path = remove_base_path file_path base_path in
    bytes_of 4 (length create_message)
    ∷ create_message
    ∷ bytes_of 4 (length new_path)
    ∷ new_path
    ∷ bytes_of 4 (get_file_size st_size)
    ∷ []

unfoldable pub deleted_detected : Text → Text → List Text
deleted_detected file_path base_path =
    let new_path = remove_base_path file_path base_path in
    bytes_of 4 (length delete_message)
    ∷ delete_message
    ∷ bytes_of 4 (length new_path)
    ∷ new_path
    ∷ []

-- `contents` is the file in the pieces that `fread` gives.
unfoldable pub update_detected : Text → Text → Option ℕ → List Text → List Text
update_detected file_path base_path st_size contents =
    let new_path = remove_base_path file_path base_path in
    bytes_of 4 (length update_message)
    ∷ update_message
    ∷ bytes_of 8 (sign_extend (get_file_size st_size))
    ∷ bytes_of 4 (length new_path)
    ∷ new_path
    ∷ contents
