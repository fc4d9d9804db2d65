-- ===== src/Append.antt =====
-- HW1/appendMeMore.c: processes that write bytes to the end of one file at the same time, each call of
-- `lseek` and of `write` a step. Calls that fail end a process and are left out.
pub mod Bytes
pub mod Appending
pub mod Lockstep
pub mod Main
mod Tests
use advanced_c_language_proj.Base.{
  ℕ, zero, suc, ◌+◌, ◌-◌, ◌≡◌, Bool, true, false, List, [], ◌∷◌, ◌++◌, Option, none, some, ltb,
  if◌then◌else◌, length, set, replicate,
}
use advanced_c_language_proj.Base.Text.{Text}

abbrev pub byte : ℕ
byte = b'a'

-- A process in the loop of `write_bytes_to_file`: `third_arg`, the rounds that are left, and the
-- offset of its descriptor between `lseek` and `write`.
pub record Writer : Type 0 where
  pub third_arg : Bool
  pub left : ℕ
  pub offset : Option ℕ

pub record Writers : Type 0 where
  pub file : Text
  pub writers : List Writer

-- `write(fd, &byte, 1)` at an offset. A gap in front of it is filled with zero bytes.
unfoldable pub write_at : ℕ → Text → Text
write_at offset file =
    if ltb offset (length file)
    then set file offset byte
    else file ++ (replicate (offset - length file) 0 ++ byte ∷ [])

pub data Step (s : Writers) : Writers → Type 0 where
  -- `lseek(fd, 0, SEEK_END)`
  seek :
      (a b : List Writer) (n : ℕ)
      → s.writers ≡ a ++ record { third_arg = true; left = suc n; offset = none } ∷ b
      → Step s (record s {
        writers = a ++ record { third_arg = true; left = suc n; offset = some (length s.file) } ∷ b;
      })
  -- `write` behind `lseek`
  write :
      (a b : List Writer) (n offset : ℕ)
      → s.writers ≡ a ++ record { third_arg = true; left = suc n; offset = some offset } ∷ b
      → Step s (record {
        file = write_at offset s.file;
        writers = a ++ record { third_arg = true; left = n; offset = none } ∷ b;
      })
  -- `write` with O_APPEND, which goes to the end
  append :
      (a b : List Writer) (n : ℕ)
      → s.writers ≡ a ++ record { third_arg = false; left = suc n; offset = none } ∷ b
      → Step s (record {
        file = s.file ++ byte ∷ [];
        writers = a ++ record { third_arg = false; left = n; offset = none } ∷ b;
      })

pub data Run (s : Writers) : Writers → Type 0 where
  begin : Run s s
  after : {t u : Writers} → Run s t → Step t u → Run s u

-- A process behind `open`.
unfoldable pub opened : Bool → ℕ → Writer
opened third_arg num_bytes = record { third_arg = third_arg; left = num_bytes; offset = none }
