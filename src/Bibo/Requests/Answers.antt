-- ===== src/Bibo/Requests/Answers.antt =====
-- Which messages are answered, and whether the answer fits its buffer.
use advanced_c_language_proj.Base.{
  ℕ, ◌+◌, ◌≤◌, ◌<◌, ◌≡◌, ◌↔◌, refl, true, ◌∷◌, ◌++◌, none, some, arith, length, length-append,
}
use advanced_c_language_proj.Base.Text.{
  Text, codes, str_eq, starts_with, starts_with-eq-true, Absent, next_token, skip, scan,
  next_token-single,
}
use advanced_c_language_proj.Bibo.ReadFile.{read_f}
use advanced_c_language_proj.Bibo.Requests.{
  Command, parse_command, unknown_command, help_message, silent, Outside, read_file, handle_message,
}

-- The message asks `readF` for a file that does not open.
abbrev pub MissesFile : Outside → Text → Type 0
MissesFile out message =
    (starts_with (codes "readF ") message ≡ true) × (read_f out.open_file message ≡ none)

-- No test stands in the way of a message that begins with "readF ".
handle_message-read_f :
    (out : Outside) (pid : ℕ) (rest : Text)
    → handle_message out pid (codes "readF " ++ rest)
      ≡ read_file out.open_file (codes "readF " ++ rest)
unfolding handle_message str_eq starts_with
handle_message-read_f out pid rest = refl

silent-MissesFile :
    (out : Outside) (pid : ℕ) (message : Text)
    → handle_message out pid message ≡ silent
    → MissesFile out message
unfolding handle_message
silent-MissesFile out pid message h = ground arith

MissesFile-silent :
    (out : Outside) (pid : ℕ) (message : Text)
    → MissesFile out message
    → handle_message out pid message ≡ silent
unfolding read_file
MissesFile-silent out pid message h =
    let (rest, e) = starts_with-eq-true (codes "readF ") message h.0 in
    ground (arith, h.1, e, handle_message-read_f out pid rest)

-- The child goes on without an answer, for which the client waits, exactly when `readF` is asked for a
-- file that does not open.
pub handle_message-silent :
    (out : Outside) (pid : ℕ) (message : Text)
    → (handle_message out pid message ≡ silent) ↔ MissesFile out message
handle_message-silent out pid message =
    (silent-MissesFile out pid message, MissesFile-silent out pid message)

next_token-help :
    (c : ℕ) (s : Text) → next_token b' ' (codes "help " ++ (c ∷ s)) ≡ some (codes "help", c ∷ s)
unfolding next_token skip scan
next_token-help c s = refl

length-unknown_command :
    (argument : Text) → length (unknown_command argument) ≡ length argument + 71
unfolding unknown_command
length-unknown_command argument =
    omega (
      arith,
      length-append argument (codes "'. Type 'help' to get a list of available commands.\n"),
    )

abbrev pub help_buffer : ℕ
help_buffer = 1000

-- The answer to "help" with a word of `n` letters that is no command needs `n + 72` bytes with its
-- terminator, so it overflows the buffer `help_message` of 1000 bytes from 929 letters on; a message
-- may have 1023 bytes.
pub help_message-unknown :
    (text : Command → Text) (c : ℕ) (s : Text)
    → Absent b' ' (c ∷ s)
    → parse_command (c ∷ s) ≡ none
    → (help_message text (codes "help " ++ (c ∷ s)) ≡ unknown_command (c ∷ s))
      × ((help_buffer < length (help_message text (codes "help " ++ (c ∷ s))) + 1)
          ↔ (929 ≤ length (c ∷ s)))
unfolding help_message
help_message-unknown text c s word unknown =
    let first : next_token b' ' (codes "help " ++ (c ∷ s)) ≡ some (codes "help", c ∷ s) =
      next_token-help c s in
    let same : help_message text (codes "help " ++ (c ∷ s)) ≡ unknown_command (c ∷ s) =
      ground (arith, first, next_token-single b' ' c s word, unknown) in
    (
      same,
      rw same (
        omega (arith, length-unknown_command (c ∷ s)),
        omega (arith, length-unknown_command (c ∷ s)),
      ),
    )
