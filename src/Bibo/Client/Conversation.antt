-- ===== src/Bibo/Client/Conversation.antt =====
-- Midterm_HW3: a whole conversation of a client with the child of the server that serves it.
use advanced_c_language_proj.Base.{
  ℕ, suc, ◌≤◌, take-all, ◌<◌, ◌≡◌, ◌≢◌, ◌^◌, ◌∙◌, refl, sym, ap, true, false, List, [], ◌∷◌, ◌++◌,
  some, ◌==◌, ltb, length, length-append, arith, append-nil,
}
use advanced_c_language_proj.Base.Text.{Text, codes, Absent, str_eq, c_string, decimal, scan-append}
use advanced_c_language_proj.Base.Bytes.{bytes_of, bound, length-bytes_of, value_of-bytes_of}
use advanced_c_language_proj.Bibo.Requests.{Outside, handle_message, responds}
use advanced_c_language_proj.Bibo.Client.{
  read, read_bytes, pipe_buf, get_connection_status, framed, read_message, typed_message,
}

pub read_bytes-whole :
    (s : Text) (rest : List Text) → s ≢ [] → read_bytes (length s) (s ∷ rest) ≡ some (s, rest)
unfolding read_bytes read
read_bytes-whole [] rest filled = absurd (filled refl)
read_bytes-whole (c ∷ s) rest filled = ground (arith, take-all (c ∷ s) (length (c ∷ s)))

read_none : (rest : List Text) → read_bytes 0 rest ≡ some ([], rest)
unfolding read_bytes read
read_none rest = refl

read_int :
    (value : ℕ) (rest : List Text)
    → read_bytes 4 (bytes_of 4 value ∷ rest) ≡ some (bytes_of 4 value, rest)
read_int value rest = rw (length-bytes_of 4 value) at (
    read_bytes-whole (bytes_of 4 value) rest
      (λ e. absurd (ground (arith, length-bytes_of 4 value, e))))

in_range : (n : ℕ) → n < 2 ^ 31 → n < bound 4
unfolding bound
in_range n h = omega arith

pub read_message-framed :
    (m : Text) (rest : List Text)
    → length m < 2 ^ 31
    → read_message (framed m ++ rest) ≡ some (c_string m, rest)
unfolding framed read_message
read_message-framed [] rest small =
    let value = value_of-bytes_of 4 0 (in_range 0 small) in
    rw (read_message, read_int 0 rest, value, read_none rest) refl
read_message-framed (c ∷ s) rest small =
    let m = c ∷ s in
    let value = value_of-bytes_of 4 (length m) (in_range (length m) small) in
    let short : ltb (length m) (2 ^ 31) ≡ true = ground arith in
    let filled : (length m == 0) ≡ false = ground arith in
    rw
      (
        read_message,
        filled,
        read_int (length m) (m ∷ rest),
        value,
        short,
        read_bytes-whole m rest (λ e. absurd cc),
      )
      refl

pub typed_message-newline : (m : Text) → Absent b'\n' m → typed_message (m ++ b'\n' ∷ []) ≡ m
unfolding typed_message
typed_message-newline m free =
    let found = scan-append (length m) b'\n' m [] (omega arith) free in
    let size : length (m ++ b'\n' ∷ []) ≡ suc (length m) =
      omega (arith, length-append m (b'\n' ∷ [])) in
    rw (typed_message, size, found) refl

pub read_message-last :
    (m : Text) → length m < 2 ^ 31 → read_message (framed m) ≡ some (c_string m, [])
read_message-last m small =
    ap read_message (sym (append-nil (framed m))) ∙ read_message-framed m [] small

pub get_connection_status-append :
    (status : ℕ) (rest : List Text)
    → status < 2 ^ 31
    → get_connection_status (bytes_of 4 status ∷ rest) ≡ some (status, rest)
unfolding get_connection_status
get_connection_status-append status rest small =
    rw
      (
        get_connection_status,
        read_int status rest,
        value_of-bytes_of 4 status (in_range status small),
      )
      refl

-- What the server says on `quit`.
unfoldable pub farewell : ℕ → Text
farewell pid = codes "Client " ++ (decimal pid ++ codes " has disconnected.\n")

-- A conversation is messages with the responses to them, and `quit`: the lines that are typed, what
-- the client sends, what the server sends and what the client prints.
abbrev pub lines : List (Text × Text) → List Text
lines [] = (codes "quit" ++ b'\n' ∷ []) ∷ []
lines (m ∷ ms) = (m.0 ++ b'\n' ∷ []) ∷ lines ms

abbrev pub requests : List (Text × Text) → List Text
requests [] = framed (codes "quit")
requests (m ∷ ms) = framed m.0 ++ requests ms

abbrev pub responses : ℕ → List (Text × Text) → List Text
responses pid [] = framed (farewell pid)
responses pid (m ∷ ms) = framed m.1 ++ responses pid ms

abbrev pub shown : ℕ → List (Text × Text) → List Text
shown pid [] = c_string (farewell pid) ∷ []
shown pid (m ∷ ms) = c_string m.1 ∷ shown pid ms

-- The status integers of a client that waits.
abbrev pub statuses : List ℕ → List Text
statuses [] = []
statuses (status ∷ rest) = bytes_of 4 status ∷ statuses rest

-- A line of text, not `quit`, that fits the buffer, and the response that the server has for it, which
-- a FIFO takes at once.
pub record IsAnswered (out : Outside) (pid : ℕ) (m : Text × Text) : Type 0 where
  pub no_newline : Absent b'\n' m.0
  pub no_zero : Absent 0 m.0
  pub fits : length m.0 < 1023
  pub goes_on : str_eq m.0 (codes "quit") ≡ false
  pub answer : handle_message out pid m.0 ≡ responds m.1
  pub short : length m.1 ≤ pipe_buf
