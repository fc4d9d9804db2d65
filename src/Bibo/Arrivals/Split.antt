-- ===== src/Bibo/Arrivals/Split.antt =====
-- Midterm_HW3: the two parts of a request with a server that does not wait.
use advanced_c_language_proj.Base.{ℕ, ◌≡◌, refl, [], ◌∷◌, none, some}
use advanced_c_language_proj.Bibo.Arrivals.{
  writes_pid, writes_mode, posts, leaves, Arrivals, sem_wait, write_pid, write_mode, sem_post,
  read_pid, read_nothing, Run, begin, after, arriving, start,
}

-- A server that reads between the two calls of `write` of a client goes on with the client under the
-- mode of the request before, and then with the client's mode as the process id of another client.
pub split_request :
    (pid mode before : ℕ)
    → (s : Arrivals) × Run (start ((pid, mode) ∷ []) before) s
      × (s.clients ≡ leaves ∷ [])
      × (s.fifo ≡ [])
      × (s.requested ≡ (pid, mode) ∷ [])
      × (s.accepted ≡ (pid, before) ∷ (mode, before) ∷ [])
unfolding start arriving
split_request pid mode before =
    let s0 = start ((pid, mode) ∷ []) before in
    let s1 : Arrivals = record s0 {
      clients = writes_pid pid mode ∷ [];
      semaphore = 0;
      requested = (pid, mode) ∷ [];
    } in
    let s2 : Arrivals = record s1 { clients = writes_mode mode ∷ []; fifo = pid ∷ [] } in
    let s3 : Arrivals = record s2 { client_pid = some pid; fifo = []; taken = pid ∷ [] } in
    let s4 : Arrivals = record s3 { client_pid = none; accepted = (pid, before) ∷ [] } in
    let s5 : Arrivals = record s4 { clients = posts ∷ []; fifo = mode ∷ [] } in
    let s6 : Arrivals = record s5 { clients = leaves ∷ []; semaphore = 1 } in
    let s7 : Arrivals = record s6 { client_pid = some mode; fifo = []; taken = pid ∷ mode ∷ [] } in
    let s8 : Arrivals = record s7 {
      client_pid = none;
      accepted = (pid, before) ∷ (mode, before) ∷ [];
    } in
    let r1 : Run s0 s1 = after begin (sem_wait [] [] pid mode 0 refl refl) in
    let r2 : Run s0 s2 = after r1 (write_pid [] [] pid mode refl) in
    let r3 : Run s0 s3 = after r2 (read_pid pid [] refl refl) in
    let r4 : Run s0 s4 = after r3 (read_nothing pid refl refl) in
    let r5 : Run s0 s5 = after r4 (write_mode [] [] mode refl) in
    let r6 : Run s0 s6 = after r5 (sem_post [] [] refl) in
    let r7 : Run s0 s7 = after r6 (read_pid mode [] refl refl) in
    let r8 : Run s0 s8 = after r7 (read_nothing mode refl refl) in (s8, r8, refl, refl, refl, refl)
