-- ===== src/BibakBox/Handlers.antt =====
-- Final_HW6/BibakBOXServer.c: `handle_create`, `handle_delete` and `handle_update`. Calls of `recv`
-- find a connection that is not broken. The memory that a function reads without having written it is
-- an argument: the integers before `recv`, and what stands behind the name in `fileName`.
pub mod Replies
pub mod Data
use advanced_c_language_proj.Base.{
  ℕ, zero, suc, ◌-◌, ◌^◌, List, [], ◌∷◌, ◌++◌, Option, none, some, leb, if◌then◌else◌, length,
}
use advanced_c_language_proj.Base.Text.{Text, c_string}
use advanced_c_language_proj.BibakBox.Paths.{Made, make_path, configure_path}
use advanced_c_language_proj.BibakBox.Wire.{recv, recv_value, recv_name, positive_part}

-- The file name that a message carries: its size, then as many bytes. `none`: the server exits.
unfoldable pub receive_file_name : Text → List Text → Option (Text × List Text)
receive_file_name memory pieces =
    let (value, rest) = recv_value 4 memory pieces in
    let left = positive_part (2 ^ 31) value in recv_name left left rest

-- No terminator is written behind the name: `behind` is what the memory holds there.
unfoldable pub handle_create : Text → Text → Text → Text → List Text → Option (Made × List Text)
handle_create base_path memory behind size_memory pieces = elim (receive_file_name memory pieces) [
  | none ↦ none
  | some (file_name, rest) ↦
      let (file_size, rest') = recv_value 4 size_memory rest in
      some (make_path (configure_path (c_string (file_name ++ behind)) base_path), rest')
]

-- The path that is given to `remove`. No terminator is written here either.
unfoldable pub handle_delete : Text → Text → Text → List Text → Option (Text × List Text)
handle_delete base_path memory behind pieces = elim (receive_file_name memory pieces) [
  | none ↦ none
  | some (file_name, rest) ↦ some (configure_path (c_string (file_name ++ behind)) base_path, rest)
]

-- The loop `while (file_size > 0)`: what is written into the file. A connection that is closed gives
-- no bytes and does not end the loop. `none`: still running after `fuel` rounds.
unfoldable pub receive_data : ℕ → ℕ → List Text → Option (Text × List Text)
receive_data zero file_size pieces = if leb file_size 0 then some ([], pieces) else none
receive_data (suc fuel) file_size pieces =
    let (buffer, rest) = recv 1024 pieces in
    let more = receive_data fuel (file_size - length buffer) rest in
    if leb file_size 0
    then some ([], pieces)
    else elim more [ none ↦ none | some (written, behind) ↦ some (buffer ++ written, behind) ]

-- What `handle_update` writes, and where. The name ends in the terminator that is written here.
unfoldable pub handle_update :
    ℕ → Text → Text → Text → List Text → Option ((Text × Text) × List Text)
handle_update fuel base_path size_memory memory pieces =
    let (file_size, rest) = recv_value 8 size_memory pieces in
    elim (receive_file_name memory rest) [
      | none ↦ none
      | some (file_name, rest') ↦
          elim (receive_data fuel (positive_part (2 ^ 63) file_size) rest') [
            | none ↦ none
            | some (written, behind) ↦
                some ((configure_path (c_string file_name) base_path, written), behind)
          ]
    ]
