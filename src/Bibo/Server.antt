-- ===== src/Bibo/Server.antt =====
-- Midterm_HW3/biboServer.c: the loop of `main` and the child processes that it forks, as interleaved
-- steps. `empty_slot_count` is in shared memory: a child reads it and then writes it, and `atomic`
-- says whether other children stay away in between. A child that serves a client ends in `quit`, which
-- exits: what `main` has behind `handle_client` is never reached.
pub mod Invariant
pub mod Waiting
use advanced_c_language_proj.Base.{
  ℕ, suc, ◌+◌, ◌-◌, ◌≡◌, ◌≢◌, ◌⊎◌, Bool, true, false, List, [], ◌∷◌, ◌++◌, Option, none, some, ◌==◌,
  if◌then◌else◌, length,
}
use advanced_c_language_proj.Base.Int.{ℤ, pos, negsuc, is_positive, dec}
use advanced_c_language_proj.Bibo.Queue.{Queue, initialize_queue, is_empty, enqueue, dequeue}
use advanced_c_language_proj.Bibo.Slots.{free_slots, add_client, free_slot, killed}

-- `ServerStruct`, the queue of `main`, the statuses sent to clients, and the children: forked, between
-- the read and the write of `empty_slot_count` (with what they read), and serving. `started` counts
-- the children that have served or serve; no code reads it.
pub record Server : Type 0 where
  pub queue : Queue
  pub slots : List ℕ
  pub empty_slot_count : ℤ
  pub notified : List (ℕ × ℕ)
  pub forked : List ℕ
  pub starting : List (ℕ × ℤ)
  pub serving : List ℕ
  pub started : ℕ

-- `send_notification`: 0 for a full server, 1 for a place in the queue, 2 for a connection.
unfoldable pub send_notification : ℕ → ℕ → Server → Server
send_notification pid flag s = record s { notified = s.notified ++ (pid, flag) ∷ [] }

unfoldable pub fork : ℕ → Server → Server
fork pid s = record s { forked = pid ∷ s.forked }

-- What the loop does with a request that it has read: a mode of 0 is `connect`, 1 is `tryConnect`.
unfoldable pub accept : ℕ → ℕ → Server → Server
unfolding send_notification fork
accept pid mode s = elim (add_client pid s.slots) [
  | some slots ↦ fork pid (send_notification pid 2 (record s { slots = slots }))
  | none ↦
      if mode == 0
      then send_notification pid 0 s
      else (if mode == 1
          then (let s' = send_notification pid 1 s in record s' { queue = enqueue s'.queue pid })
          else fork pid (send_notification pid 2 s))
]

-- The branch of the loop for a client that waits.
unfoldable pub serve_next : ℕ → Server → Server
unfolding send_notification fork
serve_next pid s = fork pid (send_notification pid 2 (record s { queue = (dequeue s.queue).1 }))

pub data Step (atomic : Bool) (s : Server) : Server → Type 0 where
  serve_waiting :
      {pid : ℕ}
      → is_empty s.queue ≡ false
      → is_positive s.empty_slot_count ≡ true
      → (dequeue s.queue).0 ≡ pos pid
      → Step atomic s (serve_next pid s)
  receive :
      (pid mode : ℕ)
      → pid ≢ 0
      → (is_empty s.queue ≡ true) ⊎ (is_positive s.empty_slot_count ≡ false)
      → Step atomic s (accept pid mode s)
  start_load :
      (pid : ℕ) (a b : List ℕ)
      → s.forked ≡ a ++ pid ∷ b
      → (atomic ≡ true → s.starting ≡ [])
      → Step atomic s
          (record s { forked = a ++ b; starting = (pid, s.empty_slot_count) ∷ s.starting })
  start_store :
      (pid : ℕ) (value : ℤ) (a b : List (ℕ × ℤ))
      → s.starting ≡ a ++ (pid, value) ∷ b
      → Step atomic s (record s {
        starting = a ++ b;
        empty_slot_count = dec value;
        serving = pid ∷ s.serving;
        started = suc s.started;
      })
  quit :
      (pid : ℕ) (a b : List ℕ)
      → s.serving ≡ a ++ pid ∷ b
      → Step atomic s (record s { serving = a ++ b; slots = free_slot pid s.slots })

pub data Run (atomic : Bool) (s : Server) : Server → Type 0 where
  begin : Run atomic s s
  after : {t u : Server} → Run atomic s t → Step atomic t u → Run atomic s u

-- The server behind `create_shared_struct`, with `items` as the array of its queue.
unfoldable pub init : List ℕ → ℕ → Server
unfolding initialize_queue free_slots
init items max_clients = record {
  queue = initialize_queue items;
  slots = free_slots max_clients;
  empty_slot_count = pos max_clients;
  notified = [];
  forked = [];
  starting = [];
  serving = [];
  started = 0;
}

-- The number of rounds of `signal_handler2`, `max_clients - empty_slot_count`.
unfoldable pub kill_rounds : ℕ → ℤ → ℕ
kill_rounds max_clients (pos n) = max_clients - n
kill_rounds max_clients (negsuc n) = max_clients + suc n

-- The processes to which `signal_handler2` sends SIGTERM.
unfoldable pub signal_handler2 : Server → List ℕ
unfolding kill_rounds killed
signal_handler2 s = killed (kill_rounds (length s.slots) s.empty_slot_count) s.slots
