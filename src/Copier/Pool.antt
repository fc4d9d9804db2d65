-- ===== src/Copier/Pool.antt =====
-- HW5/program.c: the traversing thread, the worker threads and `main` around the task buffer, as
-- interleaved steps. A critical section is one step from the test to the unlock, but a worker's
-- decision to wait is apart from the wait: `main` sets `done` without `buffer_mutex` in between.
-- The traversal runs in one thread at a time, since a parent joins the thread of each subdirectory:
-- it is given by the tasks that it hands over. Copying a file happens inside the worker's section.
pub mod Invariant
pub mod Order
pub mod Blocking
use advanced_c_language_proj.Base.{
  ℕ, suc, ◌<◌, ◌≡◌, ◌≢◌, Bool, true, false, List, [], ◌∷◌, ◌++◌, Option, none, some, ◌==◌,
  if◌then◌else◌, replicate,
}
use advanced_c_language_proj.Copier.TaskBuffer.{
  Task, Buffer, no_task, is_full, is_empty, add_task, next_task,
}

-- Where the traversing thread stands, with the tasks that it has still to add.
pub data Traverser : Type 0 where
  adding : List Task → Traverser  -- before the lock of `add_task_to_buffer`
  testing : List Task → Traverser  -- with the lock, before the test of its wait
  blocked : List Task → Traverser  -- in `pthread_cond_wait(&buffer_not_full)`
  woken : List Task → Traverser  -- signalled, before it has the lock again
  finished : Traverser

-- Where a worker stands in the loop of `worker_thread`.
pub data Worker : Type 0 where
  ready : Worker  -- before the lock
  testing : Worker  -- with the lock, before the test of its wait
  deciding : Worker  -- with the lock, the test passed, before `pthread_cond_wait`
  asleep : Worker  -- in `pthread_cond_wait(&buffer_not_empty)`
  woken : Worker  -- signalled, before it has the lock again
  stopped : Worker

-- Where `main` stands behind `pthread_create`. With `joining_workers i` it is about to join worker `i`;
-- with the number of workers it has joined all of them.
pub data Main : Type 0 where
  joining_root marked : Main
  joining_workers : ℕ → Main

pub data Thread : Type 0 where
  the_traverser : Thread
  a_worker : ℕ → Thread

pub record Pool : Type 0 where
  pub tasks : Buffer
  pub owner : Option Thread  -- of `buffer_mutex`
  pub is_done : Bool  -- `done`
  pub traverser : Traverser
  pub worker : ℕ → Worker
  pub main : Main
  pub copied : List Task  -- the calls of `copy_fd`, in order

abbrev pub update : (ℕ → Worker) → ℕ → Worker → ℕ → Worker
update f i w j = if i == j then w else f j

-- `pthread_cond_signal(&buffer_not_empty)` wakes one sleeper, if there is one.
pub data Signal (f : ℕ → Worker) : (ℕ → Worker) → Type 0 where
  wake_one : (i : ℕ) → f i ≡ asleep → Signal f (update f i woken)
  wake_none : ((i : ℕ) → f i ≢ asleep) → Signal f f

-- `pthread_cond_signal(&buffer_not_full)`
abbrev pub wake_traverser : Traverser → Traverser
wake_traverser (blocked ts) = woken ts
wake_traverser p = p

-- `pthread_cond_broadcast(&buffer_not_empty)`
abbrev pub wake_worker : Worker → Worker
wake_worker asleep = woken
wake_worker w = w

-- One step of a pool of `n` workers. POSIX lets a wait end with no signal: `spurious` says whether
-- that happens.
pub data Step (spurious : Bool) (n : ℕ) (s : Pool) : Pool → Type 0 where
  lock_traverser :
      {t : Task} {ts : List Task}
      → s.traverser ≡ adding (t ∷ ts)
      → s.owner ≡ none
      → Step spurious n s (record s { traverser = testing (t ∷ ts); owner = some the_traverser })
  block_traverser :
      {ts : List Task}
      → s.traverser ≡ testing ts
      → is_full s.tasks ≡ true
      → Step spurious n s (record s { traverser = blocked ts; owner = none })
  add :
      {t : Task} {ts : List Task} {f : ℕ → Worker}
      → s.traverser ≡ testing (t ∷ ts)
      → is_full s.tasks ≡ false
      → Signal s.worker f
      → Step spurious n s
          (record s { tasks = add_task s.tasks t; owner = none; traverser = adding ts; worker = f })
  relock_traverser :
      {ts : List Task}
      → s.traverser ≡ woken ts
      → s.owner ≡ none
      → Step spurious n s (record s { traverser = testing ts; owner = some the_traverser })
  finish : s.traverser ≡ adding [] → Step spurious n s (record s { traverser = finished })
  spurious_traverser :
      {ts : List Task}
      → spurious ≡ true
      → s.traverser ≡ blocked ts
      → Step spurious n s (record s { traverser = woken ts })
  lock :
      (i : ℕ)
      → i < n
      → s.worker i ≡ ready
      → s.owner ≡ none
      → Step spurious n s
          (record s { worker = update s.worker i testing; owner = some (a_worker i) })
  relock :
      (i : ℕ)
      → i < n
      → s.worker i ≡ woken
      → s.owner ≡ none
      → Step spurious n s
          (record s { worker = update s.worker i testing; owner = some (a_worker i) })
  decide :
      (i : ℕ)
      → i < n
      → s.worker i ≡ testing
      → is_empty s.tasks ≡ true
      → s.is_done ≡ false
      → Step spurious n s (record s { worker = update s.worker i deciding })
  sleep :
      (i : ℕ)
      → i < n
      → s.worker i ≡ deciding
      → Step spurious n s (record s { worker = update s.worker i asleep; owner = none })
  process :
      (i : ℕ)
      → i < n
      → s.worker i ≡ testing
      → is_empty s.tasks ≡ false
      → Step spurious n s (record s {
        tasks = (next_task s.tasks).1;
        owner = none;
        traverser = wake_traverser s.traverser;
        worker = update s.worker i ready;
        copied = s.copied ++ (next_task s.tasks).0 ∷ [];
      })
  stop :
      (i : ℕ)
      → i < n
      → s.worker i ≡ testing
      → is_empty s.tasks ≡ true
      → s.is_done ≡ true
      → Step spurious n s (record s {
        owner = none;
        traverser = wake_traverser s.traverser;
        worker = update s.worker i stopped;
      })
  spurious_worker :
      (i : ℕ)
      → i < n
      → spurious ≡ true
      → s.worker i ≡ asleep
      → Step spurious n s (record s { worker = update s.worker i woken })
  mark_done :
      s.traverser ≡ finished
      → s.main ≡ joining_root
      → Step spurious n s (record s { is_done = true; main = marked })
  broadcast :
      s.main ≡ marked
      → Step spurious n s
          (record s { worker = λ i. wake_worker (s.worker i); main = joining_workers 0 })
  join :
      (i : ℕ)
      → i < n
      → s.main ≡ joining_workers i
      → s.worker i ≡ stopped
      → Step spurious n s (record s { main = joining_workers (suc i) })

-- The pool behind the creation of its threads. `traverse_directory` will add the tasks `ts`.
unfoldable pub init : ℕ → List Task → Pool
init size ts = record {
  tasks = record {
    buffer = replicate size no_task;
    buffer_in = 0;
    buffer_out = 0;
    buffer_size = size;
  };
  owner = none;
  is_done = false;
  traverser = adding ts;
  worker = λ _. ready;
  main = joining_root;
  copied = [];
}

-- Any number of steps.
pub data Run (spurious : Bool) (n : ℕ) (s : Pool) : Pool → Type 0 where
  start : Run spurious n s s
  later : {t u : Pool} → Run spurious n s t → Step spurious n t u → Run spurious n s u

abbrev pub Reach : Bool → ℕ → ℕ → List Task → Pool → Type 0
Reach spurious n size ts = Run spurious n (init size ts)
