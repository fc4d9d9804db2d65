-- ===== src/BibakBox/Thread/Rounds.antt =====
-- Final_HW6/BibakBOXServer.c: rounds of `thread_function`.
use advanced_c_language_proj.Base.{
  ℕ, zero, suc, ◌-◌, ◌<◌, ◌^◌, ◌≡◌, ◌≢◌, refl, sym, false, List, [], ◌∷◌, ◌++◌, Option, none, ◌==◌,
  length, flatten, All, arith, drop-all,
}
use advanced_c_language_proj.Base.Bytes.{bytes_of, value_of}
use advanced_c_language_proj.Base.Text.{Text, Absent, c_string, starts_with}
use advanced_c_language_proj.BibakBox.Wire.{recv, recv_name, positive_part}
use advanced_c_language_proj.BibakBox.Messages.{
  create_message, delete_message, get_file_size, created_detected, deleted_detected,
}
use advanced_c_language_proj.BibakBox.Handlers.Replies.{
  handle_create-created_detected, handle_delete-deleted_detected,
}
use advanced_c_language_proj.BibakBox.Paths.{make_path, remove_base_path}
use advanced_c_language_proj.BibakBox.Thread.{
  created, deleted, exited, goes_on, Memory, dispatch, message_round,
}

recv_name-closed : (fuel left : ℕ) → fuel ≢ 0 → left ≢ 0 → recv_name fuel left [] ≡ none
unfolding recv_name recv
recv_name-closed zero left h h' = absurd (h refl)
recv_name-closed (suc fuel) left h h' = ground arith

-- When a client has closed its connection, the next round of its thread keeps the length of the last
-- message, waits for as many bytes and exits, with the whole server. The last length is positive.
pub message_round-closed :
    (fuel : ℕ) (base_path : Text) (memory : Memory) (before : Text)
    → value_of before ≢ 0
    → value_of before < 2 ^ 31
    → message_round fuel base_path memory before [] ≡ exited
unfolding message_round recv positive_part
message_round-closed fuel base_path memory before positive small =
    let n : ℕ = value_of before in
    let not_failed : (n == 2 ^ 32 - 1) ≡ false = ground arith in
    let not_empty : (n == 0) ≡ false = ground arith in
    let fits : positive_part (2 ^ 31) n ≡ n = ground arith in
    rw (not_failed, not_empty, fits, recv_name-closed n n positive positive) refl

-- A round of the thread that finds what deletedDetected sends removes the path that is the server's
-- base path, the name sent, and whatever stands in the memory behind the name up to a zero byte, and
-- leaves exactly what comes behind the message, however the name is cut into pieces on its way. The
-- name has fewer than 2^31 bytes, none of them zero, and the other parts come in one piece each.
pub message_round-deleted_detected :
    (fuel : ℕ) (file_path client_base server_base : Text) (memory : Memory)
    (before header message size_call name : Text) (pieces rest : List Text)
    → deleted_detected file_path client_base ≡ header ∷ message ∷ size_call ∷ name ∷ []
    → length before ≡ 4
    → length memory.size ≡ 4
    → length name < 2 ^ 31
    → Absent 0 name
    → flatten pieces ≡ name
    → All (λ p. p ≢ []) pieces
    → message_round fuel server_base memory before (header ∷ message ∷ size_call ∷ (pieces ++ rest))
      ≡ goes_on header (deleted (server_base ++ (name ++ c_string memory.behind))) rest
unfolding message_round dispatch deleted_detected bytes_of recv recv_name value_of positive_part
    starts_with
message_round-deleted_detected fuel file_path client_base server_base memory before header message
      size_call name pieces rest sent size size' small plain e filled =
    let handled =
      handle_delete-deleted_detected file_path client_base server_base memory.size memory.behind
        header message size_call name pieces rest sent size' small plain e filled in
    let first : header ≡ 11 ∷ 0 ∷ 0 ∷ 0 ∷ [] = cc in
    let second : message ≡ delete_message = cc in
    rw (first, second, drop-all before 4 (sym size), handled, first, drop-all before 4 (sym size))
      refl

-- A round of the thread that finds what createdDetected sends makes what handle_create makes for the
-- path that is the server's base path, the name sent, and whatever stands in the memory behind the name
-- up to a zero byte, and leaves exactly what comes behind the message, however the name is cut into
-- pieces on its way. The name has fewer than 2^31 bytes, none of them zero, and the other parts come in
-- one piece each.
pub message_round-created_detected :
    (fuel : ℕ) (file_path client_base server_base : Text) (memory : Memory) (before : Text)
    (st_size : Option ℕ) (pieces rest : List Text)
    → let name = remove_base_path file_path client_base in
      length before ≡ 4
      → length memory.size ≡ 4
      → length memory.create_size ≡ 4
      → length name < 2 ^ 31
      → Absent 0 name
      → flatten pieces ≡ name
      → All (λ p. p ≢ []) pieces
      → message_round fuel server_base memory before (
          bytes_of 4 11
          ∷ create_message
          ∷ bytes_of 4 (length name)
          ∷ (pieces ++ (bytes_of 4 (get_file_size st_size) ∷ rest)))
        ≡ goes_on
            (bytes_of 4 11)
            (created (make_path (server_base ++ (name ++ c_string memory.behind))))
            rest
unfolding message_round dispatch created_detected bytes_of recv recv_name value_of positive_part
    starts_with
message_round-created_detected fuel file_path client_base server_base memory before st_size pieces
      rest size size' size'' small plain e filled =
    let name = remove_base_path file_path client_base in
    let handled =
      handle_create-created_detected file_path client_base server_base memory.size memory.behind
        memory.create_size (bytes_of 4 11) create_message (bytes_of 4 (length name)) name st_size
        (bytes_of 4 (get_file_size st_size)) pieces rest refl size' size'' small plain e filled in
    rw (drop-all before 4 (sym size), handled, drop-all before 4 (sym size)) refl
