-- ===== src/Copier/Pool/Invariant.antt =====
-- What every reachable pool satisfies.
use advanced_c_language_proj.Base.{
  ℕ, ◌<◌, ◌≡◌, ◌≢◌, refl, sym, ap, Bool, true, List, [], ◌∷◌, ◌++◌, Option, arith, length-replicate,
  append_assoc,
}
use advanced_c_language_proj.Copier.TaskBuffer.{Task, no_task, is_empty, next_task}
use advanced_c_language_proj.Copier.TaskBuffer.Fifo.{
  IsValid, contents, contents-add_task, contents-next_task, contents-is_empty, add_task-IsValid,
  next_task-IsValid,
}
use advanced_c_language_proj.Copier.Pool.{
  Traverser, adding, blocked, finished, Worker, stopped, Thread, Pool, update, Signal, wake_one,
  wake_none, wake_traverser, wake_worker, Step, lock_traverser, block_traverser, add,
  relock_traverser, finish, spurious_traverser, lock, relock, decide, sleep, process, stop,
  spurious_worker, mark_done, broadcast, join, init, Run, Reach, start, later,
}

-- The tasks that the traversing thread has still to add.
abbrev pub remaining : Traverser → List Task
remaining (adding ts) = ts
remaining (Traverser.testing ts) = ts
remaining (blocked ts) = ts
remaining (Traverser.woken ts) = ts
remaining finished = []

remaining-wake_traverser : (p : Traverser) → remaining (wake_traverser p) ≡ remaining p
remaining-wake_traverser (blocked ts) = refl
remaining-wake_traverser p = refl

-- Every task of `ts` is copied, queued or still to be added, once and in order; `done` is set only
-- behind the end of the traversal; and a worker stops only then, with nothing queued.
pub record Inv (ts : List Task) (s : Pool) : Type 0 where
  pub valid : IsValid s.tasks
  pub conserved : s.copied ++ (contents s.tasks ++ remaining s.traverser) ≡ ts
  pub over : s.is_done ≡ true → s.traverser ≡ finished
  pub drained : (i : ℕ) → s.worker i ≡ stopped → (s.is_done ≡ true) × (contents s.tasks ≡ [])

Signal-stopped : {f g : ℕ → Worker} (j : ℕ) → Signal f g → g j ≡ stopped → f j ≡ stopped
Signal-stopped j (wake_one i e) h = ground arith
Signal-stopped j (wake_none quiet) h = h

wake_worker-stopped : (w : Worker) → wake_worker w ≡ stopped → w ≡ stopped
wake_worker-stopped w h = ground arith

wake_traverser-finished : (p : Traverser) → p ≡ finished → wake_traverser p ≡ finished
wake_traverser-finished p h = rw h

-- A step that moves no task keeps the invariant.
Inv-keep :
    {ts : List Task} (s : Pool) (p : Traverser) (f : ℕ → Worker) (o : Option Thread)
    → remaining p ≡ remaining s.traverser
    → (s.traverser ≡ finished → p ≡ finished)
    → ((j : ℕ) → f j ≡ stopped → s.worker j ≡ stopped)
    → Inv ts s
    → Inv ts (record s { owner = o; traverser = p; worker = f })
Inv-keep s p f o same fin still inv = record {
  valid = inv.valid;
  conserved = rw same inv.conserved;
  over = λ d. fin (inv.over d);
  drained = λ j q. inv.drained j (still j q);
}

-- A worker that moves to a place other than the end has not stopped.
update-stopped :
    (f : ℕ → Worker) (i : ℕ) (w : Worker)
    → w ≢ stopped
    → (j : ℕ) → update f i w j ≡ stopped
    → f j ≡ stopped
update-stopped f i w ne j q = ground arith

Step-Inv :
    {spurious : Bool} {n : ℕ} {s u : Pool} {ts : List Task}
    → Step spurious n s u
    → Inv ts s
    → Inv ts u
Step-Inv {s} (add {t} {ts} {f} e room sig) inv = record {
  valid = add_task-IsValid inv.valid t;
  conserved = ground (
    arith,
    inv.conserved,
    contents-add_task inv.valid t room,
    append_assoc (contents s.tasks) (t ∷ []) ts,
  );
  over = λ d. ground (arith, inv.over d);
  drained = λ j q. ground (arith, inv.drained j, inv.over, Signal-stopped j sig q);
}
Step-Inv {s} (process i lt e some_left) inv =
    let rest = contents (next_task s.tasks).1 in
    let first = (next_task s.tasks).0 in
    record {
      valid = next_task-IsValid inv.valid;
      conserved =
          rw
            (
              remaining-wake_traverser s.traverser,
              append_assoc s.copied (first ∷ []) (rest ++ remaining s.traverser),
            )
            (ground (arith, inv.conserved, contents-next_task inv.valid some_left));
      over = λ d. wake_traverser-finished s.traverser (inv.over d);
      drained = λ j q. ground (arith, inv.drained j, contents-next_task inv.valid some_left);
    }
Step-Inv {s} (stop i lt e empty done) inv = record {
  valid = inv.valid;
  conserved = rw (remaining-wake_traverser s.traverser) inv.conserved;
  over = λ d. wake_traverser-finished s.traverser (inv.over d);
  drained = λ j q. (done, contents-is_empty inv.valid empty);
}
Step-Inv {s} (broadcast m) inv = record {
  valid = inv.valid;
  conserved = inv.conserved;
  over = inv.over;
  drained = λ j q. inv.drained j (wake_worker-stopped (s.worker j) q);
}
Step-Inv (join i lt m e) inv = record {
  valid = inv.valid;
  conserved = inv.conserved;
  over = inv.over;
  drained = inv.drained;
}
Step-Inv (mark_done e m) inv = record {
  valid = inv.valid;
  conserved = inv.conserved;
  over = λ d. e;
  drained = λ j q. (refl, (inv.drained j q).1);
}
Step-Inv {s} (lock_traverser e free) inv =
    Inv-keep s _ s.worker _ (sym (ap remaining e)) (λ h. cc) (λ j q. q) inv
Step-Inv {s} (block_traverser e full) inv =
    Inv-keep s _ s.worker _ (sym (ap remaining e)) (λ h. cc) (λ j q. q) inv
Step-Inv {s} (relock_traverser e free) inv =
    Inv-keep s _ s.worker _ (sym (ap remaining e)) (λ h. cc) (λ j q. q) inv
Step-Inv {s} (spurious_traverser sp e) inv =
    Inv-keep s _ s.worker s.owner (sym (ap remaining e)) (λ h. cc) (λ j q. q) inv
Step-Inv {s} (finish e) inv =
    Inv-keep s finished s.worker s.owner (sym (ap remaining e)) (λ h. refl) (λ j q. q) inv
Step-Inv {s} (lock i lt e free) inv =
    Inv-keep s s.traverser _ _ refl (λ h. h) (update-stopped s.worker i _ (λ h. cc)) inv
Step-Inv {s} (relock i lt e free) inv =
    Inv-keep s s.traverser _ _ refl (λ h. h) (update-stopped s.worker i _ (λ h. cc)) inv
Step-Inv {s} (decide i lt e empty more) inv =
    Inv-keep s s.traverser _ s.owner refl (λ h. h) (update-stopped s.worker i _ (λ h. cc)) inv
Step-Inv {s} (sleep i lt e) inv =
    Inv-keep s s.traverser _ _ refl (λ h. h) (update-stopped s.worker i _ (λ h. cc)) inv
Step-Inv {s} (spurious_worker i lt sp e) inv =
    Inv-keep s s.traverser _ s.owner refl (λ h. h) (update-stopped s.worker i _ (λ h. cc)) inv

init-Inv : (size : ℕ) (ts : List Task) → 0 < size → Inv ts (init size ts)
unfolding init
init-Inv size ts pos =
    let valid : IsValid (init size ts).tasks = record {
      storage = length-replicate size no_task;
      in_range = pos;
      out_range = pos;
    } in
    record {
      valid = valid;
      conserved = rw (contents-is_empty valid (unfold is_empty in refl));
      over = λ d. cc;
      drained = λ i q. cc;
    }

Run-Inv :
    {spurious : Bool} {n : ℕ} {ts : List Task} {s u : Pool}
    → Run spurious n s u
    → Inv ts s
    → Inv ts u
Run-Inv start inv = inv
Run-Inv (later r st) inv = Step-Inv st (Run-Inv r inv)

pub Reach-Inv :
    {spurious : Bool} {n size : ℕ} {ts : List Task} {s : Pool}
    → 0 < size
    → Reach spurious n size ts s
    → Inv ts s
Reach-Inv {size} {ts} pos r = Run-Inv r (init-Inv size ts pos)
