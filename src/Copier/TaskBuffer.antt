-- ===== src/Copier/TaskBuffer.antt =====
-- HW5/program.c: the circular buffer of copy tasks. The globals `buffer`, `buffer_in`, `buffer_out`
-- and `buffer_size` are one record, and `buffer_mutex` is held wherever these functions run. The
-- program exits unless `malloc` gives the buffer; a size of 0 divides by zero at the first task.
pub mod Fifo
use advanced_c_language_proj.Base.{ℕ, ◌+◌, ◌%◌, Bool, List, ◌==◌, get_or, set}

-- `struct Task`. `filename` is a pointer into the traversing thread's stack, read only for messages.
pub record Task : Type 0 where
  pub src_fd : ℕ
  pub dest_fd : ℕ
  pub filename : ℕ

pub record Buffer : Type 0 where
  pub buffer : List Task
  pub buffer_in : ℕ
  pub buffer_out : ℕ
  pub buffer_size : ℕ

abbrev pub no_task : Task
no_task = record { src_fd = 0; dest_fd = 0; filename = 0 }

-- The test of the wait in `add_task_to_buffer`.
unfoldable pub is_full : Buffer → Bool
is_full b = (b.buffer_in + 1) % b.buffer_size == b.buffer_out

-- The test of the wait in `worker_thread`, without `done`.
unfoldable pub is_empty : Buffer → Bool
is_empty b = b.buffer_in == b.buffer_out

-- `add_task_to_buffer` behind its wait.
unfoldable pub add_task : Buffer → Task → Buffer
add_task b t = record b {
  buffer = set b.buffer b.buffer_in t;
  buffer_in = (b.buffer_in + 1) % b.buffer_size;
}

-- The start of `process_task_from_buffer`: the task, and the buffer without it.
unfoldable pub next_task : Buffer → Task × Buffer
next_task b = (
  get_or b.buffer b.buffer_out no_task,
  record b { buffer_out = (b.buffer_out + 1) % b.buffer_size },
)
