-- ===== src/Copier/CopyFd.antt =====
-- HW5/program.c: `copy_fd`, the loop that copies an open file. What the kernel answers is given by a
-- list of rounds, one for each turn of the loop; the loop with no round left has no result.
pub mod Bytes
use advanced_c_language_proj.Base.{
  ℕ, ◌+◌, min, Bool, not, List, [], ◌∷◌, ◌++◌, Option, none, some, ◌==◌, if◌then◌else◌, length,
  take, drop,
}
use advanced_c_language_proj.Base.Int.{add32}

abbrev pub buf_size : ℕ
buf_size = 1024

-- `read` fails or gives the next `read_limit + 1` bytes, as far as there are so many and the buffer
-- holds them: it gives none only at the end of the file. `write` fails or takes the first
-- `write_limit` of the bytes that it is given.
pub record Round : Type 0 where
  pub read_ok : Bool
  pub read_limit : ℕ
  pub write_ok : Bool
  pub write_limit : ℕ

pub data Message : Type 0 where
  read_failed write_failed : Message

-- The destination file, `copy_stats.bytes_copied` and what was printed to `stderr`.
pub record Copy : Type 0 where
  pub dest : List ℕ
  pub bytes_copied : ℕ
  pub messages : List Message

abbrev pub chunk : Round → List ℕ → List ℕ
chunk r src = take (min buf_size (r.read_limit + 1)) src

abbrev pub accepted : Round → List ℕ → List ℕ
accepted r src = take r.write_limit (chunk r src)

-- The body of the loop behind a `write` that did not fail.
unfoldable pub count_written : List ℕ → Copy → Copy
count_written written c = record c {
  dest = c.dest ++ written;
  bytes_copied = add32 c.bytes_copied (length written);
}

unfoldable pub copy_fd : List Round → List ℕ → Copy → Option Copy
copy_fd [] src c = none
copy_fd (r ∷ rs) src c =
    let rest = copy_fd rs (drop (length (chunk r src)) src) (count_written (accepted r src) c) in
    if not r.read_ok
    then some (record c { messages = c.messages ++ read_failed ∷ [] })
    else (if length (chunk r src) == 0
        then some c
        else (if not r.write_ok
            then some (record c { messages = c.messages ++ write_failed ∷ [] })
            else rest))
