-- ===== src/Bibo/ReadFile.antt =====
-- Midterm_HW3/biboServer.c: `readF`. The files that `fopen` can open are a parameter, a function from
-- a name to the bytes of the file. Line numbers of more than 31 bits are outside `%d`.
pub mod Lines
pub mod Whole
use advanced_c_language_proj.Base.{
  ℕ, zero, suc, ◌+◌, ◌-◌, ◌*◌, Bool, true, false, ◌||◌, ◌&&◌, List, [], ◌∷◌, ◌++◌, Option, none,
  some, ◌==◌, ltb, leb, if◌then◌else◌, drop, length,
}
use advanced_c_language_proj.Base.Int.{ℤ, pos, negsuc}
use advanced_c_language_proj.Base.Text.{Text, codes, skip, scan, is_space, c_string, decimal}

abbrev is_newline : ℕ → Bool
is_newline c = c == 10

-- The value of the digits at the front, and whether there are any.
unfoldable pub scan_digits : ℕ → Bool → Text → ℕ × Bool
scan_digits n any [] = (n, any)
scan_digits n any (c ∷ s) =
    let rest = scan_digits (n * 10 + (c - b'0')) true s in
    if leb b'0' c && leb c b'9' then rest else (n, any)

negate : ℕ → ℤ
negate zero = pos 0
negate (suc n) = negsuc n

-- `%d` behind its white space: `none` if there is no number.
unfoldable pub scan_int : Text → Option ℤ
unfolding scan_digits negate
scan_int [] = none
scan_int (c ∷ s) =
    let (m, any_m) = scan_digits 0 false s in
    let (n, any_n) = scan_digits 0 false (c ∷ s) in
    if c == b'-'
    then (if any_m then some (negate m) else none)
    else (if c == b'+'
        then (if any_m then some (pos m) else none)
        else (if any_n then some (pos n) else none))

-- `sscanf(command, "readF %49s %d", …)` on a command that begins with "readF": `none` if no file name
-- was read, otherwise the name and the line number, which is -1 if none was read.
unfoldable pub parse_read : Text → Option (Text × ℤ)
unfolding scan_int skip scan
parse_read command =
    let line = (scan (length command) is_newline command).0 in
    let (name, rest) = scan 49 is_space (skip is_space (drop 5 line)) in
    elim name [
      | [] ↦ none
      | c ∷ s ↦
          some (c ∷ s, (elim (scan_int (skip is_space rest)) [ none ↦ negsuc 0 | some n ↦ n ]))
    ]

-- The pieces that `fgets(buffer, 1024, file)` reads one after the other: each ends with a newline,
-- after 1023 bytes or at the end of the file. `room` more bytes fit behind `piece`.
unfoldable pub pieces_from : ℕ → Text → Text → List Text
pieces_from room [] [] = []
pieces_from room (c ∷ piece) [] = (c ∷ piece) ∷ []
pieces_from room piece (c ∷ s) =
    let full = piece ++ c ∷ [] in
    let new = pieces_from 1023 [] s in
    let on = pieces_from (room - 1) full s in if is_newline c || room == 1 then full ∷ new else on

unfoldable pub pieces : Text → List Text
unfolding pieces_from
pieces file = pieces_from 1023 [] file

-- The loop over the lines: the value of `current_line` at its end, and the line that was found.
unfoldable pub find_line : ℕ → ℕ → List Text → ℕ × Option Text
find_line line_number current [] = (current, none)
find_line line_number current (buffer ∷ more) =
    let rest = find_line line_number (current + 1) more in
    if current == line_number then (current, some buffer) else rest

-- The response for a positive line number.
unfoldable pub line_response : ℕ → Text → Text
unfolding find_line
line_response n file =
    let (current, found) = find_line n 1 (pieces file) in
    (elim found [
      | none ↦ []
      | some buffer ↦ codes "Line " ++ (decimal n ++ (codes ": " ++ c_string buffer))
    ])
    ++ (if ltb current n
        then codes "The file has only " ++ (decimal (current - 1) ++ codes " lines.\n")
        else [])

-- The loop over the characters: `ch` is a `char`, so the byte 255 compares equal to `EOF`, and a zero
-- byte makes an empty `buffer`.
unfoldable pub whole_response : Text → Text
whole_response [] = []
whole_response (ch ∷ file) =
    let rest = whole_response file in
    if ch == 255 then [] else (if ch == 0 then rest else ch ∷ rest)

-- What `readF` writes to the client, if anything. A message is its length and its bytes.
unfoldable pub read_f : (Text → Option Text) → Text → Option Text
unfolding parse_read
read_f open_file command = elim (parse_read command) [
  | none ↦ some (codes "Invalid command format.\n")
  | some (name, line_number) ↦ elim (open_file name) [
    | none ↦ none
    | some file ↦ some (elim line_number [
      | pos n ↦ if n == 0 then whole_response file else line_response n file
      | negsuc n ↦ whole_response file
    ])
  ]
]
