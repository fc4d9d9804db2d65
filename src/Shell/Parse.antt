-- ===== src/Shell/Parse.antt =====
-- HW2/terminal.c: the `fgets` of `main`, the loop that cuts a line into commands and a command into arguments,
-- and `trim`.
pub mod Trimmed
pub mod Tokens
pub mod Reading
pub mod Lines
use advanced_c_language_proj.Base.{
  ℕ, zero, suc, ◌+◌, ◌-◌, ◌==◌, Bool, List, [], ◌∷◌, ◌++◌, Option, none, some, map, if◌then◌else◌,
}
use advanced_c_language_proj.Base.Text.{Text, skip, is_space, c_string, next_token}
use mathlib.Core.List.{reverse}

abbrev pub max_args : ℕ
max_args = 20

abbrev pub max_command_len : ℕ
max_command_len = 256

-- At most `n` characters of the input, up to a newline, which is kept, and what is left.
unfoldable pub fgets : ℕ → Text → Text × Text
fgets zero input = ([], input)
fgets (suc n) [] = ([], [])
fgets (suc n) (c ∷ input) =
    let (line, rest) = fgets n input in if c == b'\n' then (c ∷ [], input) else (c ∷ line, rest)

-- What `command` holds behind the call of `fgets`, as C reads it: at the end of the input what it held
-- before. What is left behind a line of more than 255 bytes is the line of the next round.
unfoldable pub read_command : Text → Text → Text
unfolding fgets c_string
read_command command [] = command
read_command command (c ∷ input) = c_string (fgets (max_command_len - 1) (c ∷ input)).0

-- The text that `str` holds at the end. `none`: there is nothing but white space, and the second loop
-- runs on in front of the array.
unfoldable pub trim : Text → Option Text
unfolding skip
trim str = elim (skip is_space str) [
  | [] ↦ none
  | c ∷ s ↦ some (reverse (skip is_space (reverse (c ∷ s))))
]

-- The loop over `strtok` with room for `limit` tokens: the tokens that are kept.
unfoldable pub tokens : ℕ → ℕ → Text → List Text
tokens zero delim s = []
tokens (suc limit) delim s = elim (next_token delim s) [
  | none ↦ []
  | some (token, rest) ↦ token ∷ tokens limit delim rest
]

-- The number of elements of the array that the loop writes, the null pointer behind the tokens
-- included. It has room for `limit` ones.
unfoldable pub written : ℕ → ℕ → Text → ℕ
written zero delim s = 1
written (suc limit) delim s = elim (next_token delim s) [
  | none ↦ 1
  | some (token, rest) ↦ 1 + written limit delim rest
]

-- The trimmed commands of a line. `none`: `trim` left an array.
unfoldable pub trim_all : List Text → Option (List Text)
trim_all [] = some []
trim_all (command ∷ commands) = elim (trim command) [
  | none ↦ none
  | some text ↦ elim (trim_all commands) [ none ↦ none | some texts ↦ some (text ∷ texts) ]
]

-- The arguments of each command of the line that is read, where `command` is what the array holds
-- before.
unfoldable pub parse_line : Text → Text → Option (List (List Text))
unfolding read_command
parse_line command input = elim (trim_all (tokens max_args b'|' (read_command command input))) [
  | none ↦ none
  | some commands ↦ some (map (tokens max_args b' ') commands)
]
