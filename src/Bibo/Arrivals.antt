-- ===== src/Bibo/Arrivals.antt =====
-- Midterm_HW3: the FIFO of the server, in biboClient.c from `sem_wait` to `sem_post` and in the loop of
-- `main` in biboServer.c. Every call of `write` and of `read` on it is about one `int`, which is never
-- split, so that the FIFO is a list of such.
pub mod Holders
pub mod Order
pub mod Split
mod Tests
use advanced_c_language_proj.Base.{
  ℕ, zero, suc, ◌+◌, ◌≡◌, Bool, true, false, List, [], ◌∷◌, ◌++◌, Option, none, some,
}

-- Where a client stands: `client_pid` and `connection_mode`, in front of a call.
pub data Client : Type 0 where
  waits : ℕ → ℕ → Client
  writes_pid : ℕ → ℕ → Client
  writes_mode : ℕ → Client
  posts : Client
  leaves : Client

-- The semaphore, the FIFO, and the server: the `client_pid` that it has read when it is between its two
-- reads, `connection_mode`, and the requests that it has gone on with. `requested` are the clients that
-- have got the semaphore and `taken` the numbers that have been read; no code reads these two.
pub record Arrivals : Type 0 where
  pub semaphore : ℕ
  pub clients : List Client
  pub fifo : List ℕ
  pub client_pid : Option ℕ
  pub connection_mode : ℕ
  pub accepted : List (ℕ × ℕ)
  pub requested : List (ℕ × ℕ)
  pub taken : List ℕ

-- The server has opened the FIFO with O_NONBLOCK.
pub data Step (s : Arrivals) : Arrivals → Type 0 where
  sem_wait :
      (a b : List Client) (pid mode n : ℕ)
      → s.clients ≡ a ++ waits pid mode ∷ b
      → s.semaphore ≡ suc n
      → Step s (record s {
        clients = a ++ writes_pid pid mode ∷ b;
        semaphore = n;
        requested = s.requested ++ (pid, mode) ∷ [];
      })
  write_pid :
      (a b : List Client) (pid mode : ℕ)
      → s.clients ≡ a ++ writes_pid pid mode ∷ b
      → Step s (record s { clients = a ++ writes_mode mode ∷ b; fifo = s.fifo ++ pid ∷ [] })
  write_mode :
      (a b : List Client) (mode : ℕ)
      → s.clients ≡ a ++ writes_mode mode ∷ b
      → Step s (record s { clients = a ++ posts ∷ b; fifo = s.fifo ++ mode ∷ [] })
  sem_post :
      (a b : List Client)
      → s.clients ≡ a ++ posts ∷ b
      → Step s (record s { clients = a ++ leaves ∷ b; semaphore = suc s.semaphore })
  read_pid :
      (pid : ℕ) (fifo : List ℕ)
      → s.client_pid ≡ none
      → s.fifo ≡ pid ∷ fifo
      → Step s (record s { client_pid = some pid; fifo = fifo; taken = s.taken ++ pid ∷ [] })
  read_mode :
      (pid mode : ℕ) (fifo : List ℕ)
      → s.client_pid ≡ some pid
      → s.fifo ≡ mode ∷ fifo
      → Step s (record s {
        client_pid = none;
        fifo = fifo;
        connection_mode = mode;
        accepted = s.accepted ++ (pid, mode) ∷ [];
        taken = s.taken ++ mode ∷ [];
      })
  -- The second `read` finds nothing, and `connection_mode` stays.
  read_nothing :
      (pid : ℕ)
      → s.client_pid ≡ some pid
      → s.fifo ≡ []
      → Step s
          (record s { client_pid = none; accepted = s.accepted ++ (pid, s.connection_mode) ∷ [] })

pub data Run (s : Arrivals) : Arrivals → Type 0 where
  begin : Run s s
  after : {t u : Arrivals} → Run s t → Step t u → Run s u

-- The clients with their process ids and modes, and `connection_mode` as it happens to be.
unfoldable pub arriving : List (ℕ × ℕ) → List Client
arriving [] = []
arriving ((pid, mode) ∷ requests) = waits pid mode ∷ arriving requests

unfoldable pub start : List (ℕ × ℕ) → ℕ → Arrivals
unfolding arriving
start requests connection_mode = record {
  semaphore = 1;
  clients = arriving requests;
  fifo = [];
  client_pid = none;
  connection_mode = connection_mode;
  accepted = [];
  requested = [];
  taken = [];
}
