-- ===== src/Bibo/Client.antt =====
-- Midterm_HW3/biboClient.c, and the loop of `handle_client` in biboServer.c that it talks to. A FIFO is
-- the pieces that its readers find, in order: a `write` of at most PIPE_BUF bytes goes into it at once
-- and is one, a longer one can come in several. A message is its length, an `int`, and its bytes.
pub mod Conversation
mod Tests
use advanced_c_language_proj.Base.{
  ℕ, zero, suc, ◌+◌, ◌^◌, Bool, true, false, not, ◌&&◌, List, [], ◌∷◌, ◌++◌, Option, none, some,
  ◌==◌, ltb, if◌then◌else◌, length, take, drop,
}
use advanced_c_language_proj.Base.Text.{Text, codes, str_eq, c_string, scan}
use advanced_c_language_proj.Base.Bytes.{bytes_of, value_of}
use advanced_c_language_proj.Bibo.Requests.{
  Outside, handle_message, responds, silent, disconnects, kills_server, crashes,
}

-- The most that a `write` puts into a FIFO at once.
abbrev pub pipe_buf : ℕ
pipe_buf = 4096

-- One call of `read`: at most `n` bytes, of the first piece. A piece is not empty.
unfoldable pub read : ℕ → List Text → Text × List Text
read zero fifo = ([], fifo)
read (suc n) [] = ([], [])
read (suc n) (piece ∷ fifo) =
    (take (suc n) piece, if ltb (suc n) (length piece) then drop (suc n) piece ∷ fifo else fifo)

-- A call for `n` bytes. `none`: it gets fewer, and the code goes on with bytes that nothing has written.
unfoldable pub read_bytes : ℕ → List Text → Option (Text × List Text)
unfolding read
read_bytes n fifo =
    let (got, rest) = read n fifo in if length got == n then some (got, rest) else none

-- `get_connection_status`: its loop ends when there is an `int`.
unfoldable pub get_connection_status : List Text → Option (ℕ × List Text)
get_connection_status fifo = elim (read_bytes 4 fifo) [
  | none ↦ none
  | some (status, rest) ↦ some (value_of status, rest)
]

-- `connection_mode`: 1 for tryConnect.
unfoldable pub connection_mode : Text → ℕ
connection_mode argument = if str_eq argument (codes "tryConnect") then 1 else 0

-- The loop that waits for the status 2, with `fuel` as the number of rounds.
unfoldable pub wait_for_connection : ℕ → List Text → Option (List Text)
wait_for_connection zero fifo = none
wait_for_connection (suc fuel) fifo = elim (get_connection_status fifo) [
  | none ↦ none
  | some (status, rest) ↦
      let more = wait_for_connection fuel rest in if status == 2 then some rest else more
]

-- Up to the opening of the FIFO to the server.
unfoldable pub connect : ℕ → ℕ → List Text → Option (List Text)
connect fuel mode fifo = elim (get_connection_status fifo) [
  | none ↦ none
  | some (status, rest) ↦
      if mode == 1 && not (status == 2) then wait_for_connection fuel rest else some rest
]

-- `&message_len` and the message, in two calls of `write`; that of no bytes leaves nothing.
unfoldable pub framed : Text → List Text
framed message = bytes_of 4 (length message) ∷ (if length message == 0 then [] else message ∷ [])

-- A length and as many bytes, up to the first zero byte. `none`: a read gets fewer bytes, or the length
-- is negative.
unfoldable pub read_message : List Text → Option (Text × List Text)
read_message fifo = elim (read_bytes 4 fifo) [
  | none ↦ none
  | some (len, rest) ↦
      if ltb (value_of len) (2 ^ 31)
      then elim (read_bytes (value_of len) rest) [
        | none ↦ none
        | some (message, behind) ↦ some (c_string message, behind)
      ]
      else none
]

-- `message[strcspn(message, "\n")] = '\0'` on the line that `fgets` leaves.
unfoldable pub typed_message : Text → Text
typed_message line = (scan (length line) (λ c. c == b'\n') line).0

-- What a client has sent and printed at the end, and what is left in the FIFO.
pub record Session : Type 0 where
  pub sent : List Text
  pub printed : List Text
  pub rest : List Text

-- The loop over the lines that are typed, with `handle_response`, and the notification behind it.
-- `none`: something that is read is not there, or there are no more lines and the loop does not end.
unfoldable pub exchange : List Text → List Text → Option Session
exchange [] fifo = none
exchange (line ∷ lines) fifo =
    let message = typed_message line in
    if str_eq message (codes "quit")
    then elim (read_message fifo) [
      | none ↦ none
      | some (notification, rest) ↦
          some (record { sent = framed message; printed = notification ∷ []; rest = rest })
    ]
    else elim (read_message fifo) [
      | none ↦ none
      | some (response, rest) ↦ elim (exchange lines rest) [
        | none ↦ none
        | some s ↦ some (record {
          sent = framed message ++ s.sent;
          printed = response ∷ s.printed;
          rest = s.rest;
        })
      ]
    ]

-- A client with the argument `argument`, lines that are typed and what comes from the server.
unfoldable pub client : ℕ → Text → List Text → List Text → Option Session
client fuel argument lines fifo = elim (connect fuel (connection_mode argument) fifo) [
  | none ↦ none
  | some rest ↦ exchange lines rest
]

-- What the child that serves a client does behind its last message.
pub data Ending : Type 0 where
  waits closed killed crashed : Ending

-- The loop of `handle_client` on what the client has written: what the child has written, and how it
-- goes on. `fuel` bounds the number of messages.
unfoldable pub handle_client : ℕ → Outside → ℕ → List Text → List Text × Ending
handle_client zero out pid fifo = ([], waits)
handle_client (suc fuel) out pid fifo = elim (read_message fifo) [
  | none ↦ ([], waits)
  | some (message, rest) ↦ elim (handle_message out pid message) [
    | responds response ↦
        let (written, ending) = handle_client fuel out pid rest in
        (framed response ++ written, ending)
    | silent ↦ handle_client fuel out pid rest
    | disconnects farewell ↦ (framed farewell, closed)
    | kills_server ↦ ([], killed)
    | crashes ↦ ([], crashed)
  ]
]
