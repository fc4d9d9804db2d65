-- ===== src/Bibo/Server/Invariant.antt =====
-- What holds in every server whose children start one at a time.
use advanced_c_language_proj.Base.{
  ℕ, suc, ◌+◌, ◌≤◌, ◌≡◌, ◌≢◌, refl, ap, ◌∙◌, true, false, List, [], ◌∷◌, ◌++◌, ◌==◌, arith, length,
  length-append, All, Bool-cases, Option-cases, inl, inr,
}
use advanced_c_language_proj.Base.Int.{dec, sub_ℕ, dec-sub_ℕ}
use advanced_c_language_proj.Bibo.Queue.{Queue, max_size, is_empty, enqueue, dequeue}
use advanced_c_language_proj.Bibo.Queue.Fifo.{
  IsValid, enqueue-IsValid, dequeue_lem, initialize_queue_lem, is_empty-initialize_queue,
}
use advanced_c_language_proj.Bibo.Slots.{add_client}
use advanced_c_language_proj.Bibo.Slots.Laws.{
  taken, add_client-none, add_client-some, taken-free_slot, length-free_slot, length-free_slots,
  taken-free_slots, IsClear, IsClear-suc, IsClear-free_slots, IsClear-free_slot, IsClear-add_client,
}
use advanced_c_language_proj.Bibo.Server.{
  Server, accept, fork, send_notification, serve_next, Step, serve_waiting, receive, start_load,
  start_store, quit, Run, begin, after, init,
}

-- How many children have been forked.
abbrev pub forks : Server → ℕ
forks s = s.started + length s.starting + length s.forked

pub record Inv (max_clients : ℕ) (s : Server) : Type 0 where
  pub valid : IsValid s.queue
  pub width : length s.slots ≡ max_clients
  pub counted : s.empty_slot_count ≡ sub_ℕ max_clients s.started
  pub single : length s.starting ≤ 1
  pub loaded : All (λ p. p.1 ≡ sub_ℕ max_clients s.started) s.starting
  pub accepted : taken s.slots ≤ forks s
  pub clear : IsClear (forks s) s.slots
  pub oversold : is_empty s.queue ≡ false → max_clients ≤ forks s

IsClear-eq : (m n : ℕ) (slots : List ℕ) → m ≡ n → IsClear m slots → IsClear n slots
IsClear-eq m n slots e h = rw (← e) h

length-remove {ℓ} :
    {A : Type ℓ} (xs a b : List A) (x : A) → xs ≡ a ++ x ∷ b → length xs ≡ suc (length (a ++ b))
length-remove xs a b x e = rw e (omega (arith, length-append a (x ∷ b), length-append a b))

nil_of_length {ℓ} : {A : Type ℓ} (xs : List A) → length xs ≡ 0 → xs ≡ []
nil_of_length [] h = refl
nil_of_length (x ∷ xs) h = absurd (omega arith)

All-middle {ℓ κ} : {A : Type ℓ} (P : A → Type κ) (a b : List A) (x : A) → All P (a ++ x ∷ b) → P x
All-middle P [] b x h = h.0
All-middle P (y ∷ a) b x h = All-middle P a b x h.1

-- One child more has been forked, and a slot may have been taken.
fork-Inv :
    {m : ℕ} (s : Server) (pid flag : ℕ) (slots : List ℕ)
    → length slots ≡ m
    → taken slots ≤ suc (forks s)
    → IsClear (suc (forks s)) slots
    → Inv m s
    → Inv m (fork pid (send_notification pid flag (record s { slots = slots })))
unfolding fork send_notification
fork-Inv s pid flag slots width few free inv = record {
  valid = inv.valid;
  width = width;
  counted = inv.counted;
  single = inv.single;
  loaded = inv.loaded;
  accepted = omega arith;
  clear = IsClear-eq (suc (forks s)) _ slots (omega arith) free;
  oversold = λ h. omega (arith, inv.oversold h);
}

-- A status was sent, and the queue may have changed while no slot was free.
queue-Inv :
    {m : ℕ} (s : Server) (pid flag : ℕ) (q : Queue)
    → IsValid q
    → m ≤ forks s
    → Inv m s
    → Inv m (record (send_notification pid flag s) { queue = q })
unfolding send_notification
queue-Inv s pid flag q valid full inv = record {
  valid = valid;
  width = inv.width;
  counted = inv.counted;
  single = inv.single;
  loaded = inv.loaded;
  accepted = inv.accepted;
  clear = inv.clear;
  oversold = λ h. full;
}

accept-Inv : {m : ℕ} (s : Server) (pid mode : ℕ) → pid ≢ 0 → Inv m s → Inv m (accept pid mode s)
unfolding accept send_notification
accept-Inv {m} s pid mode ne inv = elim (Option-cases (add_client pid s.slots)) [
  | inr (slots, e) ↦
      let (same, more) = add_client-some pid s.slots slots ne e in
      rw (e, accept)
        (fork-Inv s pid 2 slots (same ∙ inv.width) (omega (arith, more, inv.accepted))
          (IsClear-add_client (forks s) pid s.slots slots inv.clear e) inv)
  | inl e ↦
      let full : m ≤ forks s =
        omega (arith, add_client-none pid s.slots e, inv.accepted, inv.width) in
      elim (Bool-cases (mode == 0)) [
        | inl e₀ ↦ rw (e, accept) (rw e₀ (queue-Inv s pid 0 s.queue inv.valid full inv))
        | inr e₀ ↦ elim (Bool-cases (mode == 1)) [
          | inl e₁ ↦
              rw (e, accept)
                (rw e₀ (
                  rw e₁ (
                    queue-Inv s pid 1 (enqueue s.queue pid) (enqueue-IsValid s.queue pid inv.valid)
                      full inv)))
          | inr e₁ ↦
              rw (e, accept)
                (rw e₀ (
                  rw e₁ (
                    fork-Inv s pid 2 s.slots inv.width (omega (arith, inv.accepted))
                      (IsClear-suc (forks s) s.slots inv.clear) inv)))
        ]
      ]
]

pub Step-Inv : {m : ℕ} {s u : Server} → Step true s u → Inv m s → Inv m u
unfolding serve_next
Step-Inv {m} {s} (serve_waiting {pid} some_wait room given) inv =
    let (head, tail, valid) = dequeue_lem s.queue inv.valid in
    let s' : Server = record s { queue = (dequeue s.queue).1 } in
    let inv' : Inv m s' = record {
      valid = valid;
      width = inv.width;
      counted = inv.counted;
      single = inv.single;
      loaded = inv.loaded;
      accepted = inv.accepted;
      clear = inv.clear;
      oversold = λ h. inv.oversold some_wait;
    } in
    fork-Inv s' pid 2 s.slots inv.width (omega (arith, inv.accepted))
      (IsClear-suc (forks s) s.slots inv.clear) inv'
Step-Inv {m} {s} (receive pid mode ne idle) inv = accept-Inv s pid mode ne inv
Step-Inv {m} {s} (start_load pid a b e one) inv =
    let fewer = length-remove s.forked a b pid e in
    let none_loads : length s.starting ≡ 0 = ap length (one refl) in
    record {
      valid = inv.valid;
      width = inv.width;
      counted = inv.counted;
      single = omega arith;
      loaded = (inv.counted, inv.loaded);
      accepted = omega (arith, inv.accepted);
      clear = IsClear-eq (forks s) _ s.slots (omega arith) inv.clear;
      oversold = λ h. omega (arith, inv.oversold h);
    }
Step-Inv {m} {s} (start_store pid value a b e) inv =
    let fewer = length-remove s.starting a b (pid, value) e in
    let nobody : a ++ b ≡ [] = nil_of_length (a ++ b) (omega arith) in
    let read : value ≡ sub_ℕ m s.started =
      All-middle (λ p. p.1 ≡ sub_ℕ m s.started) a b (pid, value) (rw (← e) inv.loaded) in
    record {
      valid = inv.valid;
      width = inv.width;
      counted = ap dec read ∙ dec-sub_ℕ m s.started;
      single = rw nobody (omega arith);
      loaded = rw nobody tt;
      accepted = omega (arith, inv.accepted);
      clear = IsClear-eq (forks s) _ s.slots (omega arith) inv.clear;
      oversold = λ h. omega (arith, inv.oversold h);
    }
Step-Inv {m} {s} (quit pid a b e) inv = record {
  valid = inv.valid;
  width = length-free_slot pid s.slots ∙ inv.width;
  counted = inv.counted;
  single = inv.single;
  loaded = inv.loaded;
  accepted = omega (arith, taken-free_slot pid s.slots, inv.accepted);
  clear = IsClear-free_slot (forks s) pid s.slots inv.clear;
  oversold = inv.oversold;
}

pub Run-Inv : {m : ℕ} {s u : Server} → Run true s u → Inv m s → Inv m u
Run-Inv begin inv = inv
Run-Inv (after r st) inv = Step-Inv st (Run-Inv r inv)

pub init-Inv : (items : List ℕ) (m : ℕ) → length items ≡ max_size → Inv m (init items m)
unfolding init
init-Inv items m size =
    let (valid, nobody) = initialize_queue_lem items size in
    record {
      valid = valid;
      width = length-free_slots m;
      counted = ground arith;
      single = omega arith;
      loaded = tt;
      accepted = omega (arith, taken-free_slots m);
      clear = IsClear-free_slots m 0;
      oversold = λ h. cc (is_empty-initialize_queue items, h);
    }
