-- ===== src/Copier/Pool/Blocking.antt =====
-- Where the copier comes to a halt.
use advanced_c_language_proj.Base.{
  ℕ, suc, ◌≤◌, Bool-cases, inl, inr, ◌==◌, ◌<◌, ◌≡◌, ◌≢◌, refl, Bool, true, false, List, [], ◌∷◌,
  none, arith,
}
use advanced_c_language_proj.Copier.TaskBuffer.{Task, is_full, is_empty}
use advanced_c_language_proj.Copier.Pool.{
  adding, finished, deciding, asleep, joining_root, marked, joining_workers, Pool, update,
  wake_worker, Step, lock_traverser, block_traverser, add, relock_traverser, finish,
  spurious_traverser, lock, relock, decide, sleep, process, stop, spurious_worker, mark_done,
  broadcast, join, init, Run, Reach, start, later,
}
use advanced_c_language_proj.Copier.Pool.Invariant.{remaining}

-- The traversal is over, `main` has sent its broadcast, and worker `i` sleeps.
record Abandoned (i : ℕ) (s : Pool) : Type 0 where
  over : s.traverser ≡ finished
  at : ℕ
  sent : s.main ≡ joining_workers at
  before : at ≤ i
  sleeps : s.worker i ≡ asleep

Step-Abandoned : {n i : ℕ} {s u : Pool} → Step false n s u → Abandoned i s → Abandoned i u
Step-Abandoned (lock_traverser e free) a = cc (a.over)
Step-Abandoned (block_traverser e full) a = cc (a.over)
Step-Abandoned (add e room sig) a = absurd (cc (a.over))
Step-Abandoned (relock_traverser e free) a = cc (a.over)
Step-Abandoned (finish e) a = cc (a.over)
Step-Abandoned (spurious_traverser sp e) a = cc (a.over)
Step-Abandoned (lock j lt e free) a = ground arith
Step-Abandoned (relock j lt e free) a = ground arith
Step-Abandoned (decide j lt e empty more) a = ground arith
Step-Abandoned (sleep j lt e) a = ground arith
Step-Abandoned (process j lt e some_left) a = ground arith
Step-Abandoned (stop j lt e empty done) a = ground arith
Step-Abandoned (spurious_worker j lt sp e) a = ground arith
Step-Abandoned (mark_done e m) a = ground arith
Step-Abandoned (broadcast m) a = absurd (cc (a.sent, m))
Step-Abandoned {n} {i} (join j lt m e) a =
    let same : j ≡ a.at = cc (a.sent, m) in
    record {
      over = a.over;
      at = suc j;
      sent = refl;
      before = elim (Bool-cases (j == i)) [
        | inl here ↦ let at_i : j ≡ i = ground (arith, here) in absurd (cc (a.sleeps, rw at_i at e))
        | inr apart ↦ ground (arith, apart, same, a.before)
      ];
      sleeps = a.sleeps;
    }

Run-Abandoned : {n i : ℕ} {s u : Pool} → Run false n s u → Abandoned i s → Abandoned i u
Run-Abandoned start a = a
Run-Abandoned (later r st) a = Step-Abandoned st (Run-Abandoned r a)

-- If a worker has decided to wait when the traversal has nothing left to add, then `done` can be set
-- and the broadcast be sent before the worker waits. Without spurious wake-ups it then sleeps for ever,
-- and `main` never joins it.
pub lost_wakeup :
    {n : ℕ} (i : ℕ) (s : Pool)
    → i < n
    → s.worker i ≡ deciding
    → s.traverser ≡ adding []
    → s.main ≡ joining_root
    → (u : Pool) × Run false n s u
      × (u.main ≡ joining_workers 0)
      × ((v : Pool)
          → Run false n u v
          → (v.worker i ≡ asleep) × (j : ℕ) × (j ≤ i) × (v.main ≡ joining_workers j))
lost_wakeup {n} i s lt e t m =
    let s₁ : Pool = record s { traverser = finished } in
    let s₂ : Pool = record s₁ { is_done = true; main = marked } in
    let s₃ : Pool = record s₂ {
      worker = λ j. wake_worker (s.worker j);
      main = joining_workers 0;
    } in
    let s₄ : Pool = record s₃ { worker = update s₃.worker i asleep; owner = none } in
    let here : Abandoned i s₄ = record {
      over = refl;
      at = 0;
      sent = refl;
      before = omega arith;
      sleeps = ground arith;
    } in
    (
      s₄,
      later (later (later (later start (finish t)) (mark_done refl m)) (broadcast refl))
          (sleep i lt (ground arith)),
      refl,
      λ v r. let a = Run-Abandoned r here in (a.sleeps, a.at, a.before, a.sent),
    )

-- A buffer of one place is full although it is empty.
record Jammed (ts : List Task) (s : Pool) : Type 0 where
  first : s.tasks.buffer_in ≡ 0
  oldest : s.tasks.buffer_out ≡ 0
  single : s.tasks.buffer_size ≡ 1
  nothing : s.copied ≡ []
  all : remaining s.traverser ≡ ts

Step-Jammed :
    {spurious : Bool} {n : ℕ} {s u : Pool} {t : Task} {ts : List Task}
    → Step spurious n s u
    → Jammed (t ∷ ts) s
    → Jammed (t ∷ ts) u
unfolding is_full is_empty
Step-Jammed (lock_traverser e free) a = ground arith
Step-Jammed (block_traverser e full) a = ground arith
Step-Jammed (add e room sig) a = ground arith
Step-Jammed (relock_traverser e free) a = ground arith
Step-Jammed (finish e) a = ground arith
Step-Jammed (spurious_traverser sp e) a = ground arith
Step-Jammed (lock j lt e free) a = ground arith
Step-Jammed (relock j lt e free) a = ground arith
Step-Jammed (decide j lt e empty more) a = ground arith
Step-Jammed (sleep j lt e) a = ground arith
Step-Jammed (process j lt e some_left) a = ground arith
Step-Jammed (stop j lt e empty done) a = ground arith
Step-Jammed (spurious_worker j lt sp e) a = ground arith
Step-Jammed (mark_done e m) a = ground arith
Step-Jammed (broadcast m) a = ground arith
Step-Jammed (join j lt m e) a = ground arith

Run-Jammed :
    {spurious : Bool} {n : ℕ} {s u : Pool} {t : Task} {ts : List Task}
    → Run spurious n s u
    → Jammed (t ∷ ts) s
    → Jammed (t ∷ ts) u
Run-Jammed start a = a
Run-Jammed (later r st) a = Step-Jammed st (Run-Jammed r a)

-- With a buffer of one place and a file to copy, no run ever copies a file, and the traversal never
-- ends.
pub unit_buffer_blocks :
    {spurious : Bool} {n : ℕ} (t : Task) (ts : List Task) {s : Pool}
    → Reach spurious n 1 (t ∷ ts) s
    → (s.copied ≡ []) × (s.traverser ≢ finished)
unfolding init
unit_buffer_blocks t ts r =
    let a : Jammed (t ∷ ts) _ =
      Run-Jammed r
        (record { first = refl; oldest = refl; single = refl; nothing = refl; all = refl }) in
    (a.nothing, λ e. cc (a.all, e))
