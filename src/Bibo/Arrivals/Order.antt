-- ===== src/Bibo/Arrivals/Order.antt =====
-- Midterm_HW3: what the semaphore guarantees of the numbers that the server reads.
use advanced_c_language_proj.Base.{
  ℕ, suc, ◌+◌, ◌≤◌, ◌≡◌, refl, sym, ap, List, [], ◌∷◌, ◌++◌, append_assoc, append-nil, arith,
}
use advanced_c_language_proj.Bibo.Arrivals.{
  Client, waits, writes_pid, writes_mode, posts, leaves, Arrivals, Step, sem_wait, write_pid,
  write_mode, sem_post, read_pid, read_mode, read_nothing, Run, begin, after, arriving, start,
}
use advanced_c_language_proj.Bibo.Arrivals.Holders.{
  words, pending, holders, pending-append, pending_free, pending_one, holders-replace,
}

words-append : (a b : List (ℕ × ℕ)) → words (a ++ b) ≡ words a ++ words b
unfolding words
words-append [] b = refl
words-append ((pid, mode) ∷ a) b = ap (λ l. pid ∷ mode ∷ l) (words-append a b)

record IsOrderly (s : Arrivals) : Type 0 where
  total : s.semaphore + holders s.clients ≡ 1
  sent : words s.requested ≡ s.taken ++ (s.fifo ++ pending s.clients)

-- A client that holds the semaphore goes on to its next call.
module _ (s : Arrivals) (h : IsOrderly s) (a b : List Client) (c d : Client)
    (here : s.clients ≡ a ++ c ∷ b) where
  total_after :
      (semaphore : ℕ)
      → semaphore + holders (d ∷ []) ≡ s.semaphore + holders (c ∷ [])
      → semaphore + holders (a ++ d ∷ b) ≡ 1
  total_after semaphore e =
      let total : s.semaphore + holders (a ++ c ∷ b) ≡ 1 = rw here at h.total in
      omega (arith, total, holders-replace a b c d)

  pending_before : holders (c ∷ []) ≡ 1 → pending s.clients ≡ pending (c ∷ [])
  pending_before one =
      let total : s.semaphore + holders (a ++ c ∷ b) ≡ 1 = rw here at h.total in
      rw here (pending_one a b c one (omega (arith, total)))

  pending_after :
      (semaphore : ℕ)
      → semaphore + holders (a ++ d ∷ b) ≡ 1
      → holders (d ∷ []) ≡ 1
      → pending (a ++ d ∷ b) ≡ pending (d ∷ [])
  pending_after semaphore total one = pending_one a b d one (omega (arith, total))

-- The server takes the first number off the FIFO.
taken_more :
    (s : Arrivals) (h : IsOrderly s) (n : ℕ) (fifo : List ℕ)
    → s.fifo ≡ n ∷ fifo
    → words s.requested ≡ (s.taken ++ n ∷ []) ++ (fifo ++ pending s.clients)
taken_more s h n fifo first =
    let sent : words s.requested ≡ s.taken ++ (n ∷ (fifo ++ pending s.clients)) =
      rw first at h.sent in
    rw (append_assoc s.taken (n ∷ []) (fifo ++ pending s.clients)) sent

Step-IsOrderly : {s t : Arrivals} → IsOrderly s → Step s t → IsOrderly t
unfolding holders pending words
Step-IsOrderly {s} h (sem_wait a b pid mode n here free) =
    let total = total_after s h a b (waits pid mode) (writes_pid pid mode) here n (omega arith) in
    let later : pending (a ++ writes_pid pid mode ∷ b) ≡ pid ∷ mode ∷ [] =
      pending_after s h a b (waits pid mode) (writes_pid pid mode) here n total refl in
    let before : pending s.clients ≡ [] = pending_free s.clients (omega (arith, h.total)) in
    let sent : words s.requested ≡ s.taken ++ (s.fifo ++ []) = rw before at h.sent in
    let sent' : words s.requested ≡ s.taken ++ s.fifo = rw (append-nil s.fifo) at sent in
    record {
      total = total;
      sent =
          rw
            (
              later,
              words-append s.requested ((pid, mode) ∷ []),
              sent',
              append_assoc s.taken s.fifo (pid ∷ mode ∷ []),
            )
            refl;
    }
Step-IsOrderly {s} h (write_pid a b pid mode here) =
    let total =
      total_after s h a b (writes_pid pid mode) (writes_mode mode) here s.semaphore refl in
    let before : pending s.clients ≡ pid ∷ mode ∷ [] =
      pending_before s h a b (writes_pid pid mode) (writes_mode mode) here refl in
    let later : pending (a ++ writes_mode mode ∷ b) ≡ mode ∷ [] =
      pending_after s h a b (writes_pid pid mode) (writes_mode mode) here s.semaphore total refl in
    record {
      total = total;
      sent = rw (later, append_assoc s.fifo (pid ∷ []) (mode ∷ [])) (rw before at h.sent);
    }
Step-IsOrderly {s} h (write_mode a b mode here) =
    let total = total_after s h a b (writes_mode mode) posts here s.semaphore refl in
    let before : pending s.clients ≡ mode ∷ [] =
      pending_before s h a b (writes_mode mode) posts here refl in
    let later : pending (a ++ posts ∷ b) ≡ [] =
      pending_after s h a b (writes_mode mode) posts here s.semaphore total refl in
    record {
      total = total;
      sent = rw (later, append_assoc s.fifo (mode ∷ []) []) (rw before at h.sent);
    }
Step-IsOrderly {s} h (sem_post a b here) =
    let same : pending (a ++ leaves ∷ b) ≡ pending s.clients =
      rw (here, pending-append a (leaves ∷ b), pending-append a (posts ∷ b)) refl in
    record {
      total = total_after s h a b posts leaves here (suc s.semaphore) (omega arith);
      sent = rw same h.sent;
    }
Step-IsOrderly {s} h (read_pid pid fifo none_read first) = record {
  total = h.total;
  sent = taken_more s h pid fifo first;
}
Step-IsOrderly {s} h (read_mode pid mode fifo read first) = record {
  total = h.total;
  sent = taken_more s h mode fifo first;
}
Step-IsOrderly {s} h (read_nothing pid read empty) = record { total = h.total; sent = h.sent }

Run-IsOrderly : {s t : Arrivals} → IsOrderly s → Run s t → IsOrderly t
Run-IsOrderly h begin = h
Run-IsOrderly h (after run step) = Step-IsOrderly (Run-IsOrderly h run) step

arriving_free : (requests : List (ℕ × ℕ)) → holders (arriving requests) ≡ 0
unfolding arriving holders
arriving_free [] = refl
arriving_free ((pid, mode) ∷ requests) = arriving_free requests

start-IsOrderly : (requests : List (ℕ × ℕ)) (mode : ℕ) → IsOrderly (start requests mode)
unfolding start words
start-IsOrderly requests mode = record {
  total = omega (arith, arriving_free requests);
  sent = sym (pending_free (arriving requests) (arriving_free requests));
}

-- Whatever the order of the calls of the clients and of the server, at most one client holds the
-- semaphore, and the numbers that the server has read, those in the FIFO, and those that the client
-- with the semaphore has still to write are, in this order, the process id and the mode of each client
-- in the order in which they got the semaphore.
pub Run-taken :
    {s : Arrivals} (requests : List (ℕ × ℕ)) (mode : ℕ)
    → Run (start requests mode) s
    → (holders s.clients ≤ 1) × (words s.requested ≡ s.taken ++ (s.fifo ++ pending s.clients))
Run-taken {s} requests mode run =
    let orderly = Run-IsOrderly (start-IsOrderly requests mode) run in
    (omega (arith, orderly.total), orderly.sent)
