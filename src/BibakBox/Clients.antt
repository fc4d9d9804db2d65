-- ===== src/BibakBox/Clients.antt =====
-- Final_HW6/BibakBOXServer.c: the loop of `main` that accepts clients. A slot of `client_pool` holds
-- the socket of a client, `none` for -1. No code of the server frees a slot.
pub mod Served
use advanced_c_language_proj.Base.{ℕ, suc, List, [], ◌∷◌, ◌++◌, Option, none, some, replicate}

-- `client_pool`, the threads started with the socket of each, `client_count`, and the sockets that are
-- closed at once.
pub record Clients : Type 0 where
  pub client_pool : List (Option ℕ)
  pub threads : List ℕ
  pub client_count : ℕ
  pub closed : List ℕ

unfoldable pub init : ℕ → Clients
init thread_size = record {
  client_pool = replicate thread_size none;
  threads = [];
  client_count = 0;
  closed = [];
}

-- The search for a slot, and the write into it. `none`: `slot` stays -1.
unfoldable pub take_slot : ℕ → List (Option ℕ) → Option (List (Option ℕ))
take_slot sock [] = none
take_slot sock (none ∷ pool) = some (some sock ∷ pool)
take_slot sock (some other ∷ pool) = elim (take_slot sock pool) [
  | none ↦ none
  | some pool' ↦ some (some other ∷ pool')
]

-- One round of the loop, for a client whose socket is `client_sock`.
unfoldable pub accept_client : Clients → ℕ → Clients
unfolding take_slot
accept_client s client_sock = elim (take_slot client_sock s.client_pool) [
  | none ↦ record s { closed = s.closed ++ client_sock ∷ [] }
  | some pool ↦ record s {
    client_pool = pool;
    threads = s.threads ++ client_sock ∷ [];
    client_count = suc s.client_count;
  }
]

-- The rounds for the clients that come, in order.
unfoldable pub accept_clients : Clients → List ℕ → Clients
unfolding accept_client
accept_clients s [] = s
accept_clients s (client_sock ∷ socks) = accept_clients (accept_client s client_sock) socks
