-- ===== src/Copier/Pool/Order.antt =====
-- What the copier promises of its tasks and of its lock.
use advanced_c_language_proj.Base.{
  ℕ, ◌<◌, ◌≡◌, Bool, true, false, List, ◌++◌, some, arith, append-nil,
}
use advanced_c_language_proj.Copier.TaskBuffer.{Task}
use advanced_c_language_proj.Copier.TaskBuffer.Fifo.{contents}
use advanced_c_language_proj.Copier.Pool.{
  Traverser, Worker, deciding, stopped, Thread, the_traverser, a_worker, Pool, wake_one, wake_none,
  Step, lock_traverser, block_traverser, add, relock_traverser, finish, spurious_traverser, lock,
  relock, decide, sleep, process, stop, spurious_worker, mark_done, broadcast, join, init, Run,
  Reach, start, later,
}
use advanced_c_language_proj.Copier.Pool.Invariant.{remaining, Reach-Inv}

-- In every reachable pool the tasks that were copied, those in the buffer and those that the
-- traversal has still to add are all the tasks: none is lost, copied twice or overtaken.
pub copied_in_order :
    {spurious : Bool} {n size : ℕ} {ts : List Task} {s : Pool}
    → 0 < size
    → Reach spurious n size ts s
    → s.copied ++ (contents s.tasks ++ remaining s.traverser) ≡ ts
copied_in_order pos r = (Reach-Inv pos r).conserved

-- Once a worker has stopped every task has been copied, exactly once and in the order of the
-- traversal, and `done` is set.
pub stopped-all_copied :
    {spurious : Bool} {n size : ℕ} {ts : List Task} {s : Pool}
    → 0 < size
    → Reach spurious n size ts s
    → (i : ℕ) → s.worker i ≡ stopped
    → (s.copied ≡ ts) × (s.is_done ≡ true)
stopped-all_copied {s} pos r i e =
    let inv = Reach-Inv pos r in
    let (done, empty) = inv.drained i e in
    (ground (arith, inv.conserved, inv.over done, append-nil s.copied), done)

-- A thread stands between its lock and its unlock.
abbrev pub in_section : Pool → Thread → Bool
in_section s the_traverser = elim s.traverser [ Traverser.testing ts ↦ true | _ ↦ false ]
in_section s (a_worker i) = elim (s.worker i) [
  | Worker.testing ↦ true
  | deciding ↦ true
  | _ ↦ false
]

abbrev Owned : Pool → Type 0
Owned s = (t : Thread) → in_section s t ≡ true → s.owner ≡ some t

Step-Owned : {spurious : Bool} {n : ℕ} {s u : Pool} → Step spurious n s u → Owned s → Owned u
Step-Owned (lock_traverser e free) own t h = ground (arith, own t, own the_traverser)
Step-Owned (block_traverser e full) own t h = ground (arith, own t, own the_traverser)
Step-Owned (relock_traverser e free) own t h = ground (arith, own t, own the_traverser)
Step-Owned (finish e) own t h = ground (arith, own t, own the_traverser)
Step-Owned (spurious_traverser sp e) own t h = ground (arith, own t, own the_traverser)
Step-Owned (mark_done e m) own t h = ground (arith, own t, own the_traverser)
Step-Owned (add e room (wake_one i f)) own t h = ground (arith, own t, own the_traverser)
Step-Owned (add e room (wake_none f)) own t h = ground (arith, own t, own the_traverser)
Step-Owned (broadcast m) own t h = ground (arith, own t)
Step-Owned (join i lt m e) own t h = ground (arith, own t)
Step-Owned (lock i lt e free) own t h = ground (arith, own t, own (a_worker i))
Step-Owned (relock i lt e free) own t h = ground (arith, own t, own (a_worker i))
Step-Owned (decide i lt e empty more) own t h = ground (arith, own t, own (a_worker i))
Step-Owned (sleep i lt e) own t h = ground (arith, own t, own (a_worker i))
Step-Owned (process i lt e some_left) own t h = ground (arith, own t, own (a_worker i))
Step-Owned (stop i lt e empty done) own t h = ground (arith, own t, own (a_worker i))
Step-Owned (spurious_worker i lt sp e) own t h = ground (arith, own t, own (a_worker i))

Run-Owned : {spurious : Bool} {n : ℕ} {s u : Pool} → Run spurious n s u → Owned s → Owned u
Run-Owned start own = own
Run-Owned (later r st) own = Step-Owned st (Run-Owned r own)

init-Owned : (size : ℕ) (ts : List Task) → Owned (init size ts)
unfolding init
init-Owned size ts t h = ground arith

-- Two threads are never in a critical section of `buffer_mutex` together.
pub mutual_exclusion :
    {spurious : Bool} {n : ℕ} (size : ℕ) (ts : List Task) {s : Pool}
    → Reach spurious n size ts s
    → (t u : Thread) → in_section s t ≡ true
    → in_section s u ≡ true
    → t ≡ u
mutual_exclusion size ts r t u in_t in_u =
    let own = Run-Owned r (init-Owned size ts) in ground (arith, own t in_t, own u in_u)
