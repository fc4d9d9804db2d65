-- ===== src/BibakBox/FirstCopy/Start/Whole.antt =====
-- Final_HW6: the first copy from end to end.
use advanced_c_language_proj.Base.{
  ℕ, ◌≤◌, ◌<◌, ◌≡◌, ◌^◌, refl, List, [], ◌∷◌, ◌++◌, Option, some, length, flatten, All, arith,
  Option-cases, inl, inr, ap, sym, append-nil,
}
use advanced_c_language_proj.Base.Bytes.{bytes_of, bound}
use advanced_c_language_proj.Base.Text.{Text, Absent, c_string}
use advanced_c_language_proj.BibakBox.Wire.{positive_part}
use advanced_c_language_proj.BibakBox.Wire.Receive.{recv-whole, recv_value-bytes_of}
use advanced_c_language_proj.BibakBox.Listing.{
  Tree, get_directory_contents, send_directory_contents, send_file,
}
use advanced_c_language_proj.BibakBox.FirstCopy.Entries.{
  HasNames, receive_directory_contents-send_directory_contents,
}
use advanced_c_language_proj.BibakBox.FirstCopy.Saved.{Delivered}
use advanced_c_language_proj.BibakBox.FirstCopy.Mirror.{Fits, mirror, save_file-send_file}
use advanced_c_language_proj.BibakBox.FirstCopy.{no_paths}
use advanced_c_language_proj.BibakBox.FirstCopy.Folders.{
  mirror_folders, AreEntries, contains-here, contains-behind, create-mirror_folders, files-opens,
}
use advanced_c_language_proj.BibakBox.FirstCopy.Start.{
  thread_start, StartMemory, make_copy, client_start,
}

-- The memory has the sizes of its variables, and a zero byte follows the path.
pub record IsStartMemory (memory : StartMemory) : Type 0 where
  pub path_length : length memory.path_length ≡ 4
  pub count : length memory.count ≡ 4
  pub entry : length memory.entry ≡ 1028
  pub file_size : length memory.file_size ≡ 8
  pub more : Text
  pub terminated : memory.behind ≡ 0 ∷ more

c_string-append : (s t : Text) → Absent 0 s → c_string (s ++ 0 ∷ t) ≡ s
unfolding c_string
c_string-append [] t h = refl
c_string-append (c ∷ s) t h = ground (arith, c_string-append s t h.1)

thread_start-eq-some :
    (open_file : Text → Option Text) (stack base_path : Text) (tree : Tree) (head : List Text)
    (sent : List (Text × List Text))
    → thread_start open_file stack base_path tree ≡ some (head, sent)
    → (head
        ≡ bytes_of 4 (length base_path)
          ∷ base_path
          ∷ send_directory_contents stack (get_directory_contents base_path tree))
      × (send_file open_file (get_directory_contents base_path tree) ≡ some sent)
unfolding thread_start
thread_start-eq-some open_file stack base_path tree head sent e =
    elim (Option-cases (send_file open_file (get_directory_contents base_path tree))) [
      | inl none_sent ↦ absurd (ground (arith, none_sent))
      | inr (sent', made) ↦ ground (arith, made)
    ]

in_range : (s : Text) → length s < 256 → length s < bound 4
unfolding bound
in_range s h = omega arith

-- A client that connects reads the path and the list of the server and ends with the folders of the
-- server, each made under its own directory as it stands under the server's, behind the folder in which
-- it is, and with the regular files of the server at their places, with the contents that the server
-- sends, however these are cut into pieces on their way. It has then taken everything off the
-- connection. The path and the names are C strings, the names without a slash, the path of the server
-- has fewer than 256 bytes and a zero byte happens to follow it in the client's memory, other paths are
-- shorter than 1024 bytes, there are fewer than 2^31 entries, the path and each entry of the list come
-- in one piece, no piece holds data of two files, and every file opens, is shorter than 2^31 bytes and
-- has at most `fuel` bytes.
pub client_start-thread_start :
    (fuel : ℕ) (memory : StartMemory) (open_file : Text → Option Text)
    (stack base_path directory_path : Text) (tree : Tree) (head stream : List Text)
    (sent : List (Text × List Text))
    → IsStartMemory memory
    → 1023 ≤ length stack
    → Absent 0 base_path
    → HasNames tree
    → AreEntries tree
    → Fits base_path tree
    → Fits directory_path tree
    → length base_path < 256
    → length (get_directory_contents base_path tree) < 2 ^ 31
    → thread_start open_file stack base_path tree ≡ some (head, sent)
    → Delivered sent stream
    → All (λ s. (length (flatten s.1) < 2 ^ 31) × (length (flatten s.1) ≤ fuel)) sent
    → client_start fuel memory directory_path (head ++ stream)
      ≡ some (
        directory_path ∷ mirror_folders directory_path tree,
        mirror open_file base_path directory_path tree,
        [],
      )
unfolding client_start make_copy
client_start-thread_start fuel memory open_file stack base_path directory_path tree head stream sent
      valid filled plain names entries fits fits' short few e came small =
    let contents = get_directory_contents base_path tree in
    let (shape, opened) = thread_start-eq-some open_file stack base_path tree head sent e in
    let listed = send_directory_contents stack contents ++ stream in
    let counted =
      recv_value-bytes_of 4 (length base_path) memory.path_length (base_path ∷ listed)
        (in_range base_path short) valid.path_length in
    let positive : positive_part (2 ^ 31) (length base_path) ≡ length base_path =
      unfold positive_part in ground arith in
    let got = recv-whole (length base_path) base_path listed (omega arith) in
    let source : c_string (base_path ++ memory.behind) ≡ base_path =
      rw valid.terminated (c_string-append base_path valid.more plain) in
    let read =
      receive_directory_contents-send_directory_contents stack memory.count memory.entry base_path
        tree stream filled valid.count valid.entry plain names few in
    let folders = directory_path ∷ mirror_folders directory_path tree in
    let made =
      create-mirror_folders base_path directory_path [] base_path directory_path tree
        (directory_path ∷ []) no_paths (inl refl) (sym (append-nil base_path))
        (sym (append-nil directory_path)) fits fits' entries (contains-here directory_path []) in
    let there =
      files-opens base_path directory_path [] base_path directory_path tree folders (inl refl)
        (sym (append-nil base_path)) (sym (append-nil directory_path)) fits fits' entries
        (contains-here directory_path (mirror_folders directory_path tree))
        (contains-behind directory_path (mirror_folders directory_path tree)) in
    let saved =
      save_file-send_file fuel memory.file_size base_path directory_path tree open_file folders
        (directory_path ∷ []) sent stream valid.file_size fits fits' there opened came small in
    let copied : make_copy fuel memory.file_size base_path directory_path contents stream
        ≡ some (folders, mirror open_file base_path directory_path tree, []) =
      rw (make_copy, made, saved)
        (ap (λ l. some (l, mirror open_file base_path directory_path tree, [])) made) in
    rw (client_start, shape, counted, positive, got, source, read) copied
