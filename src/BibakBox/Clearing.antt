-- ===== src/BibakBox/Clearing.antt =====
-- Final_HW6/BibakBOXClient.c: `clearDirectory`, with which a client empties its directory before the
-- first copy. The paths fit their array, and directories can be opened.
use advanced_c_language_proj.Base.{◌≡◌, refl, Bool, true, false, ◌&&◌, if◌then◌else◌, arith}

-- What is left of a directory for `readdir`: nothing, or an entry and what comes behind it. An entry is
-- a directory with what is in it, the directory itself or its parent, a regular file and whether
-- `unlink` deletes it, or something else, or that `stat` does not find.
pub data Entries : Type 0 where
  ended : Entries
  folder : Entries → Entries → Entries
  itself : Entries → Entries
  file : Bool → Entries → Entries
  other : Entries → Entries

-- `rmdir` removes a directory of which only itself and its parent are left.
unfoldable pub is_removed : Entries → Bool
is_removed ended = true
is_removed (folder entries more) = false
is_removed (itself more) = is_removed more
is_removed (file deleted more) = false
is_removed (other more) = false

-- What is left of a directory. A file that is not deleted ends the call for its directory.
unfoldable pub clear_directory : Entries → Entries
unfolding is_removed
clear_directory ended = ended
clear_directory (folder entries more) =
    let left = clear_directory entries in
    let rest = clear_directory more in if is_removed left then rest else folder left rest
clear_directory (itself more) = itself (clear_directory more)
clear_directory (file deleted more) =
    let rest = clear_directory more in if deleted then rest else file deleted more
clear_directory (other more) = other (clear_directory more)

-- Only directories and files that can be deleted, at every depth.
unfoldable pub is_clearable : Entries → Bool
is_clearable ended = true
is_clearable (folder entries more) = is_clearable entries && is_clearable more
is_clearable (itself more) = is_clearable more
is_clearable (file deleted more) = deleted && is_clearable more
is_clearable (other more) = false

-- clearDirectory empties a directory exactly when there are only directories and files that can be
-- deleted in it, at every depth.
pub is_removed-clear_directory : (d : Entries) → is_removed (clear_directory d) ≡ is_clearable d
unfolding is_removed clear_directory is_clearable
is_removed-clear_directory ended = refl
is_removed-clear_directory (folder entries more) =
    ground (arith, is_removed-clear_directory entries, is_removed-clear_directory more)
is_removed-clear_directory (itself more) = is_removed-clear_directory more
is_removed-clear_directory (file deleted more) = ground (arith, is_removed-clear_directory more)
is_removed-clear_directory (other more) = refl
