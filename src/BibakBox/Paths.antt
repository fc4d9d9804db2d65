-- ===== src/BibakBox/Paths.antt =====
-- Final_HW6: the paths that client and server exchange. `remove_base_path` is the client's;
-- `configure_path` and `create_folder_structure` stand in both programs.
pub mod Relative
pub mod Folders
use advanced_c_language_proj.Base.{
  ℕ, zero, suc, ◌-◌, Bool, true, false, not, ◌&&◌, ◌||◌, List, [], ◌∷◌, ◌++◌, Option, none, some,
  ◌==◌, leb, if◌then◌else◌, length, take, drop,
}
use advanced_c_language_proj.Base.Text.{Text, codes, starts_with, after_last, next_token}

-- `if (new_path[0] != '/')`: the text gets a slash in front.
unfoldable pub with_slash : Text → Text
with_slash [] = b'/' ∷ []
with_slash (c ∷ s) = if c == b'/' then c ∷ s else b'/' ∷ c ∷ s

-- One separator at the front is left out.
unfoldable pub skip_separator : Text → Text
skip_separator [] = []
skip_separator (c ∷ s) = if c == b'/' || c == 92 then s else c ∷ s

-- The result is what `new_path` holds at the end.
unfoldable pub remove_base_path : Text → Text → Text
unfolding with_slash skip_separator
remove_base_path path base_path = with_slash (
    if leb (length base_path) (length path) && starts_with base_path path
    then skip_separator (drop (length base_path) path)
    else path)

unfoldable pub configure_path : Text → Text → Text
configure_path path base_path = base_path ++ path

-- The loop of `create_folder_structure`: the paths for which `stat` and `mkdir` are called, when each
-- of them exists as a directory or can be made. `fuel` bounds the number of tokens.
unfoldable pub folders_from : ℕ → Text → Text → List Text
folders_from zero current_path s = []
folders_from (suc fuel) current_path s = elim (next_token b'/' s) [
  | none ↦ []
  | some (token, rest) ↦
      let folder = current_path ++ token in folder ∷ folders_from fuel (folder ++ b'/' ∷ []) rest
]

-- Each token takes at least one byte of the path.
unfoldable pub create_folder_structure : Text → List Text
unfolding folders_from
create_folder_structure path = folders_from (length path) (b'/' ∷ []) path

-- What `handle_create` makes for a path: folders, and the file itself if the last component of the
-- path has a dot. The path has a slash, since the name sent by the client begins with one.
pub record Made : Type 0 where
  pub folders : List Text
  pub file : Option Text

unfoldable pub make_path : Text → Made
make_path result = elim (after_last b'/' result) [
  | none ↦ record { folders = []; file = none }
  | some temp ↦ elim (after_last b'.' temp) [
    | none ↦ record { folders = create_folder_structure result; file = none }
    | some extension ↦ record {
      folders = create_folder_structure (take (length result - length temp) result);
      file = some result;
    }
  ]
]

abbrev pub max_path_length : ℕ
max_path_length = 1024

-- `snprintf(path, MAX_PATH_LENGTH, "%s/%s", …)`
unfoldable pub join_path : Text → Text → Text
join_path directory name = take (max_path_length - 1) (directory ++ b'/' ∷ name)
