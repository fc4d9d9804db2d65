-- ===== src/Bibo/Arrivals/Tests.antt =====
-- Midterm_HW3: requests of two clients.
use advanced_c_language_proj.Base.{◌+◌, ◌≤◌, ◌≡◌, ◌≢◌, refl, [], ◌∷◌, ◌++◌, some, length, arith}
use advanced_c_language_proj.Bibo.Arrivals.{
  waits, writes_mode, leaves, Arrivals, sem_wait, write_pid, read_pid, Run, begin, after, arriving,
  start,
}
use advanced_c_language_proj.Bibo.Arrivals.Holders.{words, pending, holders}
use advanced_c_language_proj.Bibo.Arrivals.Order.{Run-taken}
use advanced_c_language_proj.Bibo.Arrivals.Split.{split_request}
use advanced_c_language_proj.Bibo.FifoNames.{
  client_to_server_fifo_name, server_to_client_fifo_name, fifo_names_lem,
}

-- The second of two clients has written its process id, which the server has read.
abbrev half : Arrivals
half = record {
  semaphore = 0;
  clients = waits 40 0 ∷ writes_mode 1 ∷ [];
  fifo = [];
  client_pid = some 50;
  connection_mode = 7;
  accepted = [];
  requested = (50, 1) ∷ [];
  taken = 50 ∷ [];
}

half_run : Run (start ((40, 0) ∷ (50, 1) ∷ []) 7) half
unfolding start arriving
half_run =
    after
      (after (after begin (sem_wait (waits 40 0 ∷ []) [] 50 1 0 refl refl))
        (write_pid (waits 40 0 ∷ []) [] 50 1 refl))
      (read_pid 50 [] refl refl)

Run-taken_example : (1 ≤ 1) × (words ((50, 1) ∷ []) ≡ (50 ∷ []) ++ ([] ++ 1 ∷ []))
unfolding words pending holders
Run-taken_example = Run-taken ((40, 0) ∷ (50, 1) ∷ []) 7 half_run

split_request_example :
    (s : Arrivals) × Run (start ((50, 1) ∷ []) 0) s
    × (s.clients ≡ leaves ∷ [])
    × (s.fifo ≡ [])
    × (s.requested ≡ (50, 1) ∷ [])
    × (s.accepted ≡ (50, 0) ∷ (1, 0) ∷ [])
split_request_example = split_request 50 1 0

fifo_names_lem_example :
    (length (client_to_server_fifo_name 4194304) + 1 ≤ 35)
    × (length (server_to_client_fifo_name 4194304) + 1 ≤ 35)
    × (client_to_server_fifo_name 4194304 ≢ server_to_client_fifo_name 7)
    × (client_to_server_fifo_name 4194304 ≢ server_to_client_fifo_name 4194304)
    × (client_to_server_fifo_name 4194304 ≢ client_to_server_fifo_name 7)
    × (server_to_client_fifo_name 4194304 ≢ server_to_client_fifo_name 7)
fifo_names_lem_example = fifo_names_lem 4194304 7 (omega arith) (omega arith)
