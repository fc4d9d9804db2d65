-- ===== src/Bibo/Queue.antt =====
-- Midterm_HW3/biboServer.c: the queue of the clients that wait. It fills its array from the left and
-- starts over only when it is empty. Its items are process ids, which are not negative.
pub mod Fifo
use advanced_c_language_proj.Base.{ℕ, Bool, ◌&&◌, List, get_or, set, replicate, if◌then◌else◌}
use advanced_c_language_proj.Base.Int.{ℤ, pos, negsuc, eq_ℤ, inc}

abbrev pub max_size : ℕ
max_size = 1024

pub record Queue : Type 0 where
  pub items : List ℕ
  pub front : ℤ
  pub rear : ℤ

abbrev pub minus_one : ℤ
minus_one = negsuc 0

-- `items` is as `main` finds it on its stack.
unfoldable pub initialize_queue : List ℕ → Queue
initialize_queue items = record { items = items; front = minus_one; rear = minus_one }

unfoldable pub is_full : Queue → Bool
is_full q = eq_ℤ q.rear (pos 1023)

unfoldable pub is_empty : Queue → Bool
is_empty q = eq_ℤ q.front minus_one && eq_ℤ q.rear minus_one

-- `q->items[i] = data`. A write before the array is outside the model: `Fifo.IsValid` rules it out.
unfoldable pub store : Queue → ℤ → ℕ → Queue
store q (pos i) item = record q { items = set q.items i item }
store q (negsuc i) item = q

unfoldable pub load : Queue → ℤ → ℕ
load q (pos i) = get_or q.items i 0
load q (negsuc i) = 0

unfoldable pub enqueue : Queue → ℕ → Queue
enqueue q item =
    if is_full q
    then q
    else (if is_empty q
        then store (record q { front = pos 0; rear = pos 0 }) (pos 0) item
        else store (record q { rear = inc q.rear }) (inc q.rear) item)

-- The result, -1 for an empty queue, and the queue that is left.
unfoldable pub dequeue : Queue → ℤ × Queue
dequeue q = if is_empty q then (minus_one, q) else (
  pos (load q q.front),
  (if eq_ℤ q.front q.rear
      then record q { front = minus_one; rear = minus_one }
      else record q { front = inc q.front }),
)
