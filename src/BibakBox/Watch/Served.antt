-- ===== src/BibakBox/Watch/Served.antt =====
-- Final_HW6: a file that is created on the client, from the loop of the client to that of the server.
use advanced_c_language_proj.Base.{◌<◌, ◌^◌, List, [], ◌∷◌, ◌++◌, length}
use advanced_c_language_proj.Base.Text.{Text, Absent}
use advanced_c_language_proj.BibakBox.Paths.{remove_base_path}
use advanced_c_language_proj.BibakBox.Tracking.{Info}

-- The calls of `send` for a created file as they arrive, with the name cut into pieces.
unfoldable pub arriving : (Text → List Text) → List Text → List Text
arriving cut (header ∷ message ∷ size ∷ name ∷ file_size ∷ []) =
    header ∷ message ∷ size ∷ (cut name ++ file_size ∷ [])
arriving cut sent = sent

-- A path that fits into a message.
abbrev pub Fits : Text → Info → Type 0
Fits source_dir info =
    (length (remove_base_path info.filepath source_dir) < 2 ^ 31)
    × Absent 0 (remove_base_path info.filepath source_dir)
