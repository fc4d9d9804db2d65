-- ===== src/BibakBox/Clients/Served.antt =====
-- Final_HW6/BibakBOXServer.c: which clients the server serves.
use advanced_c_language_proj.Base.{
  ℕ, zero, suc, ◌≡◌, refl, ap, List, [], ◌∷◌, ◌++◌, length-append, Option, none, some, length, take,
  drop, replicate, append-nil, append_assoc, arith,
}
use advanced_c_language_proj.BibakBox.Clients.{
  Clients, init, take_slot, accept_client, accept_clients,
}

-- The pool with `threads` in its first slots and `left` free ones.
abbrev filled : List ℕ → ℕ → List (Option ℕ)
filled [] left = replicate left none
filled (t ∷ threads) left = some t ∷ filled threads left

take_slot-free :
    (sock : ℕ) (threads : List ℕ) (left : ℕ)
    → take_slot sock (filled threads (suc left)) ≡ some (filled (threads ++ sock ∷ []) left)
unfolding take_slot
take_slot-free sock [] left = refl
take_slot-free sock (t ∷ threads) left = rw (take_slot-free sock threads left) refl

take_slot-full : (sock : ℕ) (threads : List ℕ) → take_slot sock (filled threads 0) ≡ none
unfolding take_slot
take_slot-full sock [] = refl
take_slot-full sock (t ∷ threads) = rw (take_slot-full sock threads) refl

abbrev state : List ℕ → ℕ → List ℕ → Clients
state threads left closed = record {
  client_pool = filled threads left;
  threads = threads;
  client_count = length threads;
  closed = closed;
}

accept_client-free :
    (threads : List ℕ) (left sock : ℕ) (closed : List ℕ)
    → accept_client (state threads (suc left) closed) sock
      ≡ state (threads ++ sock ∷ []) left closed
unfolding accept_client
accept_client-free threads left sock closed =
    let counted : length (threads ++ sock ∷ []) ≡ suc (length threads) =
      omega (arith, length-append threads (sock ∷ [])) in
    rw (accept_client, take_slot-free sock threads left, counted) refl

accept_client-full :
    (threads : List ℕ) (sock : ℕ) (closed : List ℕ)
    → accept_client (state threads 0 closed) sock ≡ state threads 0 (closed ++ sock ∷ [])
unfolding accept_client
accept_client-full threads sock closed = rw (accept_client, take_slot-full sock threads) refl

abbrev left_over : ℕ → List ℕ → ℕ
left_over left [] = left
left_over zero (sock ∷ socks) = zero
left_over (suc left) (sock ∷ socks) = left_over left socks

left_over_none : (socks : List ℕ) → left_over zero socks ≡ zero
left_over_none [] = refl
left_over_none (sock ∷ socks) = refl

accept_clients_from :
    (threads : List ℕ) (left : ℕ) (closed socks : List ℕ)
    → accept_clients (state threads left closed) socks
      ≡ state (threads ++ take left socks) (left_over left socks) (closed ++ drop left socks)
unfolding accept_clients
accept_clients_from threads zero closed [] = rw (append-nil threads, append-nil closed) refl
accept_clients_from threads (suc left) closed [] = rw (append-nil threads, append-nil closed) refl
accept_clients_from threads zero closed (sock ∷ socks) =
    rw
      (
        accept_client-full threads sock closed,
        accept_clients_from threads 0 (closed ++ sock ∷ []) socks,
        append_assoc closed (sock ∷ []) socks,
        left_over_none socks,
      )
      refl
accept_clients_from threads (suc left) closed (sock ∷ socks) =
    rw
      (
        accept_client-free threads left sock closed,
        accept_clients_from (threads ++ sock ∷ []) left closed socks,
        append_assoc threads (sock ∷ []) (take left socks),
      )
      refl

-- A server for threadSize clients serves the first threadSize that ever come, counts them, and closes
-- the connection of every other at once, whenever it comes.
pub accept_clients_lem :
    (thread_size : ℕ) (socks : List ℕ)
    → ((accept_clients (init thread_size) socks).threads ≡ take thread_size socks)
      × ((accept_clients (init thread_size) socks).closed ≡ drop thread_size socks)
      × ((accept_clients (init thread_size) socks).client_count ≡ length (take thread_size socks))
unfolding init
accept_clients_lem thread_size socks =
    let all = accept_clients_from [] thread_size [] socks in
    (ap Clients.threads all, ap Clients.closed all, ap Clients.client_count all)
