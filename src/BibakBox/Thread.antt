-- ===== src/BibakBox/Thread.antt =====
-- Final_HW6/BibakBOXServer.c: the loop of `thread_function` over the messages of a client. A round in
-- which the call of `recv` with MSG_DONTWAIT finds nothing changes nothing and is left out. Messages
-- fit into the buffer of 1024 bytes.
pub mod Rounds
use advanced_c_language_proj.Base.{
  ℕ, ◌-◌, ◌^◌, List, [], ◌∷◌, ◌++◌, Option, none, some, ◌==◌, if◌then◌else◌, length, drop,
}
use advanced_c_language_proj.Base.Bytes.{value_of}
use advanced_c_language_proj.Base.Text.{Text, starts_with}
use advanced_c_language_proj.BibakBox.Paths.{Made}
use advanced_c_language_proj.BibakBox.Wire.{recv, recv_name, positive_part}
use advanced_c_language_proj.BibakBox.Messages.{create_message, delete_message, update_message}
use advanced_c_language_proj.BibakBox.Handlers.{handle_create, handle_delete, handle_update}

-- What a message does to the files of the server.
pub data Action : Type 0 where
  nothing : Action
  created : Made → Action
  deleted : Text → Action
  updated : Text → Text → Action

-- How a round ends: the process exits, `handle_update` is still running when its rounds are used up or
-- has exited, or the loop goes on with the bytes of `messageLength` and the rest of the connection.
pub data Round : Type 0 where
  exited : Round
  updating : Round
  goes_on : Text → Action → List Text → Round

-- What the handlers find in memory that they read and have not written.
pub record Memory : Type 0 where
  pub size : Text  -- `fileNameSize`
  pub behind : Text  -- behind the name
  pub create_size : Text  -- `file_size` of `handle_create`
  pub update_size : Text  -- `file_size` of `handle_update`

-- The three comparisons of `buffer`.
unfoldable pub dispatch : ℕ → Text → Memory → Text → Text → List Text → Round
dispatch fuel base_path memory message_length buffer pieces =
    if starts_with update_message buffer
    then (elim (handle_update fuel base_path memory.update_size memory.size pieces) [
      | none ↦ updating
      | some ((path, written), rest) ↦ goes_on message_length (updated path written) rest
    ])
    else (if starts_with create_message buffer
        then (elim (handle_create base_path memory.size memory.behind memory.create_size pieces) [
          | none ↦ exited
          | some (made, rest) ↦ goes_on message_length (created made) rest
        ])
        else (if starts_with delete_message buffer
            then (elim (handle_delete base_path memory.size memory.behind pieces) [
              | none ↦ exited
              | some (path, rest) ↦ goes_on message_length (deleted path) rest
            ])
            else goes_on message_length nothing pieces))

-- One round. `before` is what `messageLength` holds from the round before.
unfoldable pub message_round : ℕ → Text → Memory → Text → List Text → Round
message_round fuel base_path memory before pieces =
    let (got, rest) = recv 4 pieces in
    let message_length = got ++ drop (length got) before in
    let left = positive_part (2 ^ 31) (value_of message_length) in
    if value_of message_length == 2 ^ 32 - 1
    then exited
    else (if value_of message_length == 0
        then goes_on message_length nothing rest
        else elim (recv_name left left rest) [
          | none ↦ exited
          | some (buffer, rest') ↦ dispatch fuel base_path memory message_length buffer rest'
        ])
