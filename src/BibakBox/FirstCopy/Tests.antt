-- ===== src/BibakBox/FirstCopy/Tests.antt =====
-- Final_HW6: the first copy at concrete inputs.
use advanced_c_language_proj.Base.{
  ℕ, ◌≡◌, refl, List, [], ◌∷◌, ◌++◌, Option, some, arith, flatten, replicate, length,
  length-replicate, if◌then◌else◌,
}
use advanced_c_language_proj.Base.Text.{Text, codes, str_eq}
use advanced_c_language_proj.Base.Bytes.{bytes_of}
use advanced_c_language_proj.BibakBox.Messages.{get_file_size, sign_extend}
use advanced_c_language_proj.BibakBox.Listing.{
  Tree, ended, file, folder, passed_over, get_directory_contents, send_directory_contents,
  send_file, read_blocks,
}
use advanced_c_language_proj.BibakBox.FirstCopy.Start.{thread_start, StartMemory, client_start}
use advanced_c_language_proj.BibakBox.FirstCopy.Start.Whole.{
  IsStartMemory, client_start-thread_start,
}
use advanced_c_language_proj.BibakBox.FirstCopy.Saved.{Delivered}
use advanced_c_language_proj.BibakBox.FirstCopy.Folders.{mirror_folders}
use advanced_c_language_proj.BibakBox.FirstCopy.Mirror.{Fits, mirror}

-- `a`, and `b` in a folder `d`.
abbrev directory : Tree
directory = file (codes "a") (folder (codes "d") (file (codes "b") ended) (passed_over ended))

abbrev open_file : Text → Option Text
open_file path = if str_eq path (codes "/s/a") then some (codes "hello") else some []

abbrev size_of : Text → Text
size_of text = bytes_of 8 (sign_extend (get_file_size (some (length text))))

-- `b` is empty.
abbrev sent : List (Text × List Text)
sent = (size_of (codes "hello"), codes "hello" ∷ []) ∷ (size_of [], []) ∷ []

abbrev stream : List Text
stream = size_of (codes "hello") ∷ codes "he" ∷ codes "llo" ∷ size_of [] ∷ []

stream-Delivered : Delivered sent stream
unfolding flatten read_blocks
stream-Delivered = (
  codes "he" ∷ codes "llo" ∷ [],
  size_of [] ∷ [],
  refl,
  refl,
  ((λ e. absurd cc, omega arith), ((λ e. absurd cc, omega arith), tt)),
  ([], [], refl, refl, tt, refl),
)

abbrev memory : StartMemory
memory = record {
  path_length = replicate 4 7;
  behind = 0 ∷ 7 ∷ [];
  count = replicate 4 7;
  entry = replicate 1028 7;
  file_size = replicate 8 7;
}

memory-IsStartMemory : IsStartMemory memory
memory-IsStartMemory = record {
  path_length = refl;
  count = refl;
  entry = length-replicate {A = ℕ} 1028 7;
  file_size = refl;
  more = 7 ∷ [];
  terminated = refl;
}

abbrev head : List Text
head =
    bytes_of 4 2
    ∷ codes "/s"
    ∷ send_directory_contents (replicate 1023 9) (get_directory_contents (codes "/s") directory)

client_start-thread_start_example :
    client_start 5 memory (codes "/c") (head ++ stream)
    ≡ some (
      codes "/c" ∷ mirror_folders (codes "/c") directory,
      mirror open_file (codes "/s") (codes "/c") directory,
      [],
    )
unfolding get_directory_contents send_file read_blocks str_eq flatten Fits thread_start
client_start-thread_start_example =
    client_start-thread_start 5 memory open_file (replicate 1023 9) (codes "/s") (codes "/c")
      directory head stream sent memory-IsStartMemory
      (omega (arith, length-replicate {A = ℕ} 1023 9)) (omega arith) (omega arith) (omega arith)
      (omega arith) (omega arith) (omega arith) (omega arith) refl stream-Delivered (omega arith)
