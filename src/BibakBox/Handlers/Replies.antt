-- ===== src/BibakBox/Handlers/Replies.antt =====
-- Final_HW6: the handlers of the server at the messages of the client.
use advanced_c_language_proj.Base.{
  append-nil, ℕ, ◌^◌, ◌≤◌, ◌<◌, ◌≡◌, ◌≢◌, refl, sym, ap, true, List, [], ◌∷◌, ◌++◌, Option, none,
  some, ltb, length, flatten, All, arith,
}
use advanced_c_language_proj.Base.Bytes.{bytes_of, bound}
use advanced_c_language_proj.Base.Text.{Text, Absent, c_string, c_string_of_Absent}
use advanced_c_language_proj.BibakBox.Paths.{make_path, configure_path, remove_base_path}
use advanced_c_language_proj.BibakBox.Wire.{recv_value, positive_part}
use advanced_c_language_proj.BibakBox.Wire.Receive.{recv_value-bytes_of, recv_name-pieces}
use advanced_c_language_proj.BibakBox.Messages.{
  get_file_size, sign_extend, created_detected, deleted_detected, update_detected,
}
use advanced_c_language_proj.BibakBox.Handlers.{
  receive_data, receive_file_name, handle_create, handle_delete, handle_update,
}
use advanced_c_language_proj.BibakBox.Handlers.Data.{receive_data-pieces}

-- The string that is read from an array ends at the terminator.
c_string_append : (s behind : Text) → Absent 0 s → c_string (s ++ behind) ≡ s ++ c_string behind
unfolding c_string
c_string_append [] behind h = refl
c_string_append (c ∷ s) behind h = ground (arith, c_string_append s behind h.1)

get_file_size_small : (st_size : Option ℕ) → get_file_size st_size < bound 4
unfolding get_file_size bound
get_file_size_small none = omega arith
get_file_size_small (some n) = omega arith

-- A name that came in pieces, however it was cut.
receive_file_name-pieces :
    (memory name : Text) (pieces rest : List Text)
    → length memory ≡ 4
    → length name < 2 ^ 31
    → flatten pieces ≡ name
    → All (λ p. p ≢ []) pieces
    → receive_file_name memory (bytes_of 4 (length name) ∷ (pieces ++ rest)) ≡ some (name, rest)
unfolding receive_file_name bound positive_part
receive_file_name-pieces memory name pieces rest size small e filled =
    let sized : recv_value 4 memory (bytes_of 4 (length name) ∷ (pieces ++ rest))
        ≡ (length name, pieces ++ rest) =
      recv_value-bytes_of 4 (length name) memory (pieces ++ rest) (omega arith) size in
    let fits : ltb (length name) (2 ^ 31) ≡ true = ground arith in
    let named =
      recv_name-pieces (length name) (length name) pieces rest (ap length e) (omega arith) filled in
    rw (sized, fits, named, e) refl

-- For what deletedDetected sends, handle_delete removes the path that is the server's base path, the
-- name sent, and whatever stands in the memory behind the name up to a zero byte, however the name
-- is cut into pieces on its way. The name has fewer than 2^31 bytes, none of them zero, and its size
-- comes in one piece.
pub handle_delete-deleted_detected :
    (file_path client_base server_base memory behind header message size_call name : Text)
    (pieces rest : List Text)
    → deleted_detected file_path client_base ≡ header ∷ message ∷ size_call ∷ name ∷ []
    → length memory ≡ 4
    → length name < 2 ^ 31
    → Absent 0 name
    → flatten pieces ≡ name
    → All (λ p. p ≢ []) pieces
    → handle_delete server_base memory behind (size_call ∷ (pieces ++ rest))
      ≡ some (server_base ++ (name ++ c_string behind), rest)
unfolding handle_delete configure_path deleted_detected
handle_delete-deleted_detected file_path client_base server_base memory behind header message
      size_call name pieces rest sent size small plain e filled =
    let named : remove_base_path file_path client_base ≡ name = cc in
    let sized : bytes_of 4 (length (remove_base_path file_path client_base)) ≡ size_call = cc in
    let sized' : size_call ≡ bytes_of 4 (length name) = rw (named) at (sym sized) in
    let received = receive_file_name-pieces memory name pieces rest size small e filled in
    rw (sized', handle_delete, received, c_string_append name behind plain) refl

-- For what createdDetected sends, handle_create makes what its rule says for the path that is the
-- server's base path, the name sent, and whatever stands in the memory behind the name up to a zero
-- byte, however the name is cut into pieces on its way. It takes exactly the bytes of the message. The
-- name has fewer than 2^31 bytes, none of them zero, and the two sizes come in one piece each.
pub handle_create-created_detected :
    (file_path client_base server_base memory behind size_memory header message size_call
      name : Text)
    (st_size : Option ℕ) (file_size : Text) (pieces rest : List Text)
    → created_detected file_path client_base st_size
      ≡ header ∷ message ∷ size_call ∷ name ∷ file_size ∷ []
    → length memory ≡ 4
    → length size_memory ≡ 4
    → length name < 2 ^ 31
    → Absent 0 name
    → flatten pieces ≡ name
    → All (λ p. p ≢ []) pieces
    → handle_create server_base memory behind size_memory
        (size_call ∷ (pieces ++ (file_size ∷ rest)))
      ≡ some (make_path (server_base ++ (name ++ c_string behind)), rest)
unfolding handle_create configure_path created_detected
handle_create-created_detected file_path client_base server_base memory behind size_memory header
      message size_call name st_size file_size pieces rest sent size size' small plain e filled =
    let named : remove_base_path file_path client_base ≡ name = cc in
    let sized : bytes_of 4 (length (remove_base_path file_path client_base)) ≡ size_call = cc in
    let sized' : size_call ≡ bytes_of 4 (length name) = rw (named) at (sym sized) in
    let last : file_size ≡ bytes_of 4 (get_file_size st_size) = cc in
    let received =
      receive_file_name-pieces memory name pieces (file_size ∷ rest) size small e filled in
    let taken =
      recv_value-bytes_of 4 (get_file_size st_size) size_memory rest (get_file_size_small st_size)
        size' in
    rw (sized', handle_create, received, c_string_append name behind plain, last, taken) refl

pub small_bound : (n : ℕ) → n < 2 ^ 31 → n < bound 8
unfolding bound
small_bound n h = omega arith

-- A size below 2^31 comes back from the bytes that updateDetected sends.
pub sign_extend_small : (n : ℕ) → n < 2 ^ 31 → sign_extend (get_file_size (some n)) ≡ n
unfolding sign_extend get_file_size
sign_extend_small n h = ground arith

-- For what updateDetected sends for a file of fewer than 2^31 bytes, handle_update writes exactly the
-- file's contents to the path that is the server's base path and the name sent, and ends, when the
-- client sends nothing more until then, however name and contents are cut into pieces. The name has
-- fewer than 2^31 bytes, none of them zero; the sizes come in one piece each, and the pieces of the
-- contents have at most 1024 bytes.
pub handle_update-update_detected :
    (file_path client_base server_base size_memory memory header message file_size size_call
      name : Text)
    (reads data_pieces pieces : List Text)
    → update_detected file_path client_base (some (length (flatten reads))) reads
      ≡ header ∷ message ∷ file_size ∷ size_call ∷ name ∷ reads
    → length size_memory ≡ 8
    → length memory ≡ 4
    → length (flatten reads) < 2 ^ 31
    → length name < 2 ^ 31
    → Absent 0 name
    → flatten pieces ≡ name
    → All (λ p. p ≢ []) pieces
    → flatten data_pieces ≡ flatten reads
    → All (λ p. (p ≢ []) × (length p ≤ 1024)) data_pieces
    → handle_update
        (length (flatten reads))
        server_base
        size_memory
        memory
        (file_size ∷ size_call ∷ (pieces ++ data_pieces))
      ≡ some ((server_base ++ name, flatten reads), [])
unfolding handle_update configure_path update_detected positive_part
handle_update-update_detected file_path client_base server_base size_memory memory header message
      file_size size_call name reads data_pieces pieces sent size size' small small' plain e filled
      e' filled' =
    let n : ℕ = length (flatten reads) in
    let named : remove_base_path file_path client_base ≡ name = cc in
    let sized : bytes_of 4 (length (remove_base_path file_path client_base)) ≡ size_call = cc in
    let sized' : size_call ≡ bytes_of 4 (length name) = rw (named) at (sym sized) in
    let announced : bytes_of 8 (sign_extend (get_file_size (some n))) ≡ file_size = cc in
    let announced' : file_size ≡ bytes_of 8 n = rw (sign_extend_small n small) at (sym announced) in
    let rest : List Text = bytes_of 4 (length name) ∷ (pieces ++ data_pieces) in
    let taken : recv_value 8 size_memory (bytes_of 8 n ∷ rest) ≡ (n, rest) =
      recv_value-bytes_of 8 n size_memory rest (small_bound n small) size in
    let fits : positive_part (2 ^ 63) n ≡ n = ground arith in
    let received = receive_file_name-pieces memory name pieces data_pieces size' small' e filled in
    let written : receive_data n n data_pieces ≡ some (flatten data_pieces, []) =
      rw (append-nil data_pieces) at
        (receive_data-pieces n n data_pieces [] (ap length e') (omega arith) filled') in
    rw
      (
        announced',
        sized',
        handle_update,
        taken,
        received,
        announced',
        sized',
        taken,
        fits,
        written,
        e',
        c_string_of_Absent name plain,
      )
      refl
