-- ===== src/BibakBox/FirstCopy/Entries.antt =====
-- Final_HW6: the list of the server's directory on its way to a client.
use advanced_c_language_proj.Base.{
  ◌≢◌, ℕ, zero, suc, ◌+◌, ◌≤◌, ◌<◌, ◌≡◌, ◌^◌, refl, sym, Bool, true, false, not, List, [], ◌∷◌,
  ◌++◌, ◌==◌, if◌then◌else◌, length, take, drop, map, All, All-append, arith, length-append,
  length-take, append-nil, drop-all, take-append, drop-append,
}
use advanced_c_language_proj.Base.Bytes.{bytes_of, value_of, bound, length-bytes_of}
use advanced_c_language_proj.Base.Text.{Text, Absent, c_string}
use advanced_c_language_proj.BibakBox.Paths.{max_path_length, join_path}
use advanced_c_language_proj.BibakBox.Wire.{recv_value, positive_part}
use advanced_c_language_proj.BibakBox.Wire.Receive.{recv-whole, recv_value-bytes_of}
use advanced_c_language_proj.BibakBox.Listing.{
  FilePath, Tree, ended, file, folder, special, passed_over, get_directory_contents, entry_bytes,
  send_directory_contents,
}
use advanced_c_language_proj.BibakBox.FirstCopy.{
  entry_of, receive_entry, receive_entries, receive_directory_contents,
}

take-append_le : (n : ℕ) (xs ys : Text) → n ≡ length xs → take n (xs ++ ys) ≡ xs
take-append_le n xs ys h = rw h (take-append xs ys)

drop-append_le : (n : ℕ) (xs ys : Text) → n ≡ length xs → drop n (xs ++ ys) ≡ ys
drop-append_le n xs ys h = rw h (drop-append xs ys)

flag_of-bytes_of :
    (is_file : Bool) → not (value_of (bytes_of 4 (if is_file then 1 else 0)) == 0) ≡ is_file
unfolding value_of bytes_of
flag_of-bytes_of true = refl
flag_of-bytes_of false = refl

-- A path that an entry can hold and that is a C string.
abbrev IsPath : Text → Type 0
IsPath path = (length path < max_path_length) × Absent 0 path

c_string-take :
    (n : ℕ) (path stack : Text)
    → length path < n
    → Absent 0 path
    → c_string (take n (path ++ 0 ∷ stack)) ≡ path
unfolding c_string
c_string-take zero path stack h free = absurd (omega arith)
c_string-take (suc n) [] stack h free = refl
c_string-take (suc n) (c ∷ path) stack h free =
    ground (arith, c_string-take n path stack (omega arith) free.1)

module _ (n : ℕ) (stack memory : Text) (filled : n ≤ length stack + 1)
    (size : length memory ≡ n + 4) where
  length-entry_text : (path : Text) → length (take n (path ++ 0 ∷ stack)) ≡ n
  length-entry_text path =
      omega (arith, length-take n (path ++ 0 ∷ stack), length-append path (0 ∷ stack))

  length-entry_bytes : (entry : FilePath) → length (entry_bytes n stack entry) ≡ n + 4
  unfolding entry_bytes
  length-entry_bytes entry =
      let text = take n (entry.path ++ 0 ∷ stack) in
      let flag : ℕ = if entry.is_file then 1 else 0 in
      omega (
        arith,
        length-append text (bytes_of 4 flag),
        length-bytes_of 4 flag,
        length-entry_text entry.path,
      )

  entry_of-entry_bytes :
      (path : Text) (is_file : Bool)
      → length path < n
      → Absent 0 path
      → entry_of n (entry_bytes n stack (record { path = path; is_file = is_file }))
        ≡ record { path = path; is_file = is_file }
  unfolding entry_of entry_bytes
  entry_of-entry_bytes path is_file h free =
      let text = take n (path ++ 0 ∷ stack) in
      let flag : Text = bytes_of 4 (if is_file then 1 else 0) in
      let front = take-append_le n text flag (sym (length-entry_text path)) in
      let back = drop-append_le n text flag (sym (length-entry_text path)) in
      rw (front, back, c_string-take n path stack h free, flag_of-bytes_of is_file) refl

  receive_entry-entry_bytes :
      (entry : FilePath) (rest : List Text)
      → length entry.path < n
      → Absent 0 entry.path
      → receive_entry n memory (entry_bytes n stack entry ∷ rest) ≡ (entry, rest)
  unfolding receive_entry
  receive_entry-entry_bytes entry rest h free =
      let bytes = entry_bytes n stack entry in
      let long : length bytes ≡ n + 4 = length-entry_bytes entry in
      let whole = recv-whole (n + 4) bytes rest (omega (arith, long)) in
      let over : drop (length bytes) memory ≡ [] =
        drop-all memory (length bytes) (omega (arith, long, size)) in
      rw
        (
          receive_entry,
          whole,
          over,
          append-nil bytes,
          entry_of-entry_bytes entry.path entry.is_file h free,
        )
        refl

  receive_entries-map :
      (entries : List FilePath) (rest : List Text)
      → All (λ e. (length e.path < n) × Absent 0 e.path) entries
      → receive_entries n (length entries) memory (map (entry_bytes n stack) entries ++ rest)
        ≡ (entries, rest)
  unfolding receive_entries
  receive_entries-map [] rest h = refl
  receive_entries-map (entry ∷ entries) rest h =
      let more = map (entry_bytes n stack) entries ++ rest in
      rw (receive_entry-entry_bytes entry more h.0.0 h.0.1, receive_entries-map entries rest h.1)
        refl

Absent-take : (n : ℕ) (s : Text) → Absent 0 s → Absent 0 (take n s)
Absent-take zero s h = tt
Absent-take (suc n) [] h = tt
Absent-take (suc n) (c ∷ s) h = (h.0, Absent-take n s h.1)

join_path-IsPath :
    (directory name : Text) → Absent 0 directory → Absent 0 name → IsPath (join_path directory name)
unfolding join_path
join_path-IsPath directory name h h' = (
  omega (arith, length-take 1023 (directory ++ b'/' ∷ name)),
  Absent-take 1023 (directory ++ b'/' ∷ name)
      (All-append (λ c. c ≢ 0) directory (b'/' ∷ name) h ((omega arith), h')),
)

-- The names in a directory are C strings.
abbrev pub HasNames : Tree → Type 0
HasNames ended = Unit {0}
HasNames (file name more) = Absent 0 name × HasNames more
HasNames (folder name entries more) = Absent 0 name × HasNames entries × HasNames more
HasNames (special name more) = Absent 0 name × HasNames more
HasNames (passed_over more) = HasNames more

get_directory_contents-IsPath :
    (directory : Text) (tree : Tree)
    → Absent 0 directory
    → HasNames tree
    → All (λ e. IsPath e.path) (get_directory_contents directory tree)
unfolding get_directory_contents
get_directory_contents-IsPath directory ended h names = tt
get_directory_contents-IsPath directory (file name more) h names = (
  join_path-IsPath directory name h names.0,
  get_directory_contents-IsPath directory more h names.1,
)
get_directory_contents-IsPath directory (folder name entries more) h names =
    let path = join_path-IsPath directory name h names.0 in
    (
      path,
      All-append (λ e. IsPath e.path) (get_directory_contents (join_path directory name) entries)
          (get_directory_contents directory more)
          (get_directory_contents-IsPath (join_path directory name) entries path.1 names.1)
          (get_directory_contents-IsPath directory more h names.2),
    )
get_directory_contents-IsPath directory (special name more) h names = (
  join_path-IsPath directory name h names.0,
  get_directory_contents-IsPath directory more h names.1,
)
get_directory_contents-IsPath directory (passed_over more) h names =
    get_directory_contents-IsPath directory more h names

-- The client reads back exactly the list that the server made of its directory, whatever stands in the
-- arrays behind the paths, and takes no more than the list off the connection. The directory and the
-- names in it are C strings, there are fewer than 2^31 entries, and each `send` comes in one piece.
pub receive_directory_contents-send_directory_contents :
    (stack count_memory memory directory : Text) (tree : Tree) (rest : List Text)
    → 1023 ≤ length stack
    → length count_memory ≡ 4
    → length memory ≡ 1028
    → Absent 0 directory
    → HasNames tree
    → length (get_directory_contents directory tree) < 2 ^ 31
    → receive_directory_contents count_memory memory
        (send_directory_contents stack (get_directory_contents directory tree) ++ rest)
      ≡ (get_directory_contents directory tree, rest)
unfolding receive_directory_contents send_directory_contents bound positive_part
receive_directory_contents-send_directory_contents stack count_memory memory directory tree rest
      filled size size' h names few =
    let contents = get_directory_contents directory tree in
    let sent = map (entry_bytes max_path_length stack) contents ++ rest in
    let counted : recv_value 4 count_memory (bytes_of 4 (length contents) ∷ sent)
        ≡ (length contents, sent) =
      recv_value-bytes_of 4 (length contents) count_memory sent (omega arith) size in
    let fits : positive_part (2 ^ 31) (length contents) ≡ length contents = ground arith in
    let paths = get_directory_contents-IsPath directory tree h names in
    let read =
      receive_entries-map max_path_length stack memory (omega arith) (omega arith) contents rest
        paths in
    rw (receive_directory_contents, counted, fits) read
