-- ===== src/BibakBox/FirstCopy/Saved.antt =====
-- Final_HW6: the files of the server on their way to a client.
use advanced_c_language_proj.Base.{
  ℕ, zero, suc, ◌≤◌, ◌<◌, ◌≡◌, ◌≢◌, ◌^◌, ◌∙◌, inl, inr, refl, sym, ap, true, List, [], ◌∷◌, ◌++◌,
  if◌then◌else◌, Option, none, some, length, drop, map, flatten, All, arith, length-drop,
  take-append-drop, Option-cases, Bool-cases,
}
use advanced_c_language_proj.Base.Bytes.{bytes_of}
use advanced_c_language_proj.Base.Text.{Text}
use advanced_c_language_proj.BibakBox.Wire.{recv_value, positive_part}
use advanced_c_language_proj.BibakBox.Wire.Receive.{recv_value-bytes_of}
use advanced_c_language_proj.BibakBox.Messages.{get_file_size, sign_extend}
use advanced_c_language_proj.BibakBox.Handlers.Data.{receive_data-pieces}
use advanced_c_language_proj.BibakBox.Handlers.Replies.{sign_extend_small, small_bound}
use advanced_c_language_proj.BibakBox.Listing.{FilePath, read_blocks, send_file}
use advanced_c_language_proj.BibakBox.FirstCopy.{opens, save_files}

flatten-read_blocks :
    (size fuel : ℕ) (contents : Text)
    → length contents ≤ fuel
    → flatten (read_blocks (suc size) fuel contents) ≡ contents
unfolding read_blocks flatten
flatten-read_blocks size zero [] h = refl
flatten-read_blocks size zero (c ∷ s) h = absurd (omega arith)
flatten-read_blocks size (suc fuel) [] h = refl
flatten-read_blocks size (suc fuel) (c ∷ s) h =
    let rest = flatten-read_blocks size fuel (drop size s) (omega (arith, length-drop size s)) in
    rw (rest, take-append-drop size s) refl

-- What the calls of `send_file` become on the way: a size comes in one piece, and the data of a file in
-- any pieces of up to 1024 bytes.
abbrev pub Delivered : List (Text × List Text) → List Text → Type 0
Delivered [] stream = stream ≡ []
Delivered ((size_call, reads) ∷ sent) stream =
    (pieces : List Text) × (more : List Text) × (stream ≡ size_call ∷ (pieces ++ more))
    × (flatten pieces ≡ flatten reads)
    × All (λ p. (p ≢ []) × (length p ≤ 1024)) pieces
    × Delivered sent more

-- The text of a file; the empty text stands for one that does not open.
abbrev pub text_of : Option Text → Text
text_of none = []
text_of (some text) = text

-- The regular files of a list.
unfoldable pub files_of : List FilePath → List Text
files_of [] = []
files_of (entry ∷ contents) =
    let rest = files_of contents in if entry.is_file then entry.path ∷ rest else rest

unfoldable pub copies : (Text → Option Text) → (Text → Text) → List FilePath → List (Text × Text)
copies open_file place [] = []
copies open_file place (entry ∷ contents) =
    let rest = copies open_file place contents in
    if entry.is_file then (place entry.path, text_of (open_file entry.path)) ∷ rest else rest

-- A file that comes whole is written whole.
save_files-next :
    (fuel : ℕ) (memory path text : Text) (folders paths pieces more : List Text)
    (files : List (Text × Text))
    → length memory ≡ 8
    → length text < 2 ^ 31
    → length text ≤ fuel
    → flatten pieces ≡ text
    → All (λ p. (p ≢ []) × (length p ≤ 1024)) pieces
    → save_files fuel memory folders paths more ≡ some (files, [])
    → opens folders path ≡ true
    → save_files fuel memory folders
        (path ∷ paths)
        (bytes_of 8 (sign_extend (get_file_size (some (length text)))) ∷ (pieces ++ more))
      ≡ some ((path, text) ∷ files, [])
unfolding save_files positive_part
save_files-next fuel memory path text folders paths pieces more files size small enough e filled
      later opened =
    let n : ℕ = length text in
    let taken : recv_value 8 memory (bytes_of 8 n ∷ (pieces ++ more)) ≡ (n, pieces ++ more) =
      recv_value-bytes_of 8 n memory (pieces ++ more) (small_bound n small) size in
    let fits : positive_part (2 ^ 63) n ≡ n = ground arith in
    let written = receive_data-pieces fuel n pieces more (ap length e) enough filled in
    rw (sign_extend_small n small, save_files, taken, fits, written, later, opened, e) refl

send_file-eq-some :
    (open_file : Text → Option Text) (entry : FilePath) (contents : List FilePath)
    (sent : List (Text × List Text))
    → entry.is_file ≡ true
    → send_file open_file (entry ∷ contents) ≡ some sent
    → (text : Text) × (sent' : List (Text × List Text)) × (open_file entry.path ≡ some text)
      × (send_file open_file contents ≡ some sent')
      × (sent
          ≡ (
            bytes_of 8 (sign_extend (get_file_size (some (length text)))),
            read_blocks 1024 (length text) text,
          )
            ∷ sent')
unfolding send_file
send_file-eq-some open_file entry contents sent file_entry e =
    elim (Option-cases (open_file entry.path)) [
      | inl closed ↦ absurd (ground (arith, closed, e))
      | inr (text, opened) ↦ elim (Option-cases (send_file open_file contents)) [
        | inl failed ↦ absurd (ground (arith, opened, failed, e))
        | inr (sent', rest) ↦ (text, sent', opened, rest, ground (arith, opened, rest, e))
      ]
    ]

pub save_files-send_file :
    (fuel : ℕ) (memory : Text) (open_file : Text → Option Text) (place : Text → Text)
    (folders : List Text) (contents : List FilePath) (sent : List (Text × List Text))
    (stream : List Text)
    → length memory ≡ 8
    → All (λ p. opens folders p ≡ true) (map place (files_of contents))
    → send_file open_file contents ≡ some sent
    → Delivered sent stream
    → All (λ s. (length (flatten s.1) < 2 ^ 31) × (length (flatten s.1) ≤ fuel)) sent
    → save_files fuel memory folders (map place (files_of contents)) stream
      ≡ some (copies open_file place contents, [])
unfolding send_file files_of copies save_files
save_files-send_file fuel memory open_file place folders [] sent stream size opened e came small =
    let nothing_sent : [] ≡ sent = cc in
    let silent : stream ≡ [] = rw (sym nothing_sent) at came in rw silent refl
save_files-send_file fuel memory open_file place folders (entry ∷ contents) sent stream size there e
      came small =
    elim (Bool-cases entry.is_file) [
      | inr folder_entry ↦
          let rest : send_file open_file contents ≡ some sent = rw folder_entry at e in
          let later =
            save_files-send_file fuel memory open_file place folders contents sent stream size
              (rw folder_entry at there) rest came small in
          rw folder_entry later
      | inl file_entry ↦
          let (text, sent', opened, rest, same) =
            send_file-eq-some open_file entry contents sent file_entry e in
          let (pieces, more, split, whole, filled, came') = rw same at came in
          let small' = rw same at small in
          let blocks : flatten (read_blocks 1024 (length text) text) ≡ text =
            flatten-read_blocks 1023 (length text) text (omega arith) in
          let opened_there : (opens folders (place entry.path) ≡ true)
              × All (λ p. opens folders p ≡ true) (map place (files_of contents)) =
            rw file_entry at there in
          let later =
            save_files-send_file fuel memory open_file place folders contents sent' more size
              opened_there.1 rest came' small'.1 in
          let short : length text < 2 ^ 31 = rw blocks at small'.0.0 in
          let enough : length text ≤ fuel = rw blocks at small'.0.1 in
          let next =
            save_files-next fuel memory (place entry.path) text folders
              (map place (files_of contents)) pieces more (copies open_file place contents) size
              short enough (whole ∙ blocks) filled later opened_there.0 in
          rw (file_entry, split, opened) next
    ]
