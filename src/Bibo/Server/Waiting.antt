-- ===== src/Bibo/Server/Waiting.antt =====
-- What becomes of the clients that wait, and of the count of free slots.
use advanced_c_language_proj.Base.{
  ℕ, suc, ◌≤◌, ◌≡◌, refl, sym, ap, ◌∙◌, true, false, List, [], ◌∷◌, ◌++◌, ◌==◌, if◌then◌else◌,
  arith, length, append_assoc, append-nil, Bool-cases, Option-cases, inl, inr,
}
use advanced_c_language_proj.Base.Int.{is_positive, dec, sub_ℕ, is_positive-sub_ℕ}
use advanced_c_language_proj.Bibo.Queue.{max_size, is_empty, is_full}
use advanced_c_language_proj.Bibo.Queue.Fifo.{IsValid, contents, contents-enqueue}
use advanced_c_language_proj.Bibo.Slots.{add_client, killed}
use advanced_c_language_proj.Bibo.Slots.Laws.{killed-IsClear}
use advanced_c_language_proj.Bibo.Server.{
  Server, accept, Step, serve_waiting, receive, start_load, start_store, quit, Run, begin, after,
  init, signal_handler2, kill_rounds, fork, send_notification,
}
use advanced_c_language_proj.Bibo.Server.Invariant.{Inv, forks, Run-Inv, init-Inv, Step-Inv}

-- A request leaves the waiting clients in their order, and can only add one behind them.
accept-waiting :
    (s : Server) (pid mode : ℕ)
    → IsValid s.queue
    → (more : List ℕ) × (contents (accept pid mode s).queue ≡ contents s.queue ++ more)
unfolding accept send_notification fork
accept-waiting s pid mode valid = elim (Option-cases (add_client pid s.slots)) [
  | inr (slots, e) ↦ ([], ground (arith, e, append-nil (contents s.queue)))
  | inl e ↦ elim (Bool-cases (mode == 1)) [
    | inr m ↦ ([], ground (arith, e, m, append-nil (contents s.queue)))
    | inl m ↦ elim (Bool-cases (is_full s.queue)) [
      | inl f ↦ (
        [],
        ground (arith, e, m, f, append-nil (contents s.queue), contents-enqueue s.queue pid valid),
      )
      | inr f ↦ (pid ∷ [], ground (arith, e, m, f, contents-enqueue s.queue pid valid))
    ]
  ]
]

started-accept : (s : Server) (pid mode : ℕ) → (accept pid mode s).started ≡ s.started
unfolding accept send_notification fork
started-accept s pid mode = elim (Option-cases (add_client pid s.slots)) [
  | inr (slots, e) ↦ ground (arith, e)
  | inl e ↦ ground (arith, e)
]

no_room : (m k : ℕ) → is_positive (sub_ℕ m k) ≡ true → m ≤ k → ⊥
no_room m k h le = ground (arith, is_positive-sub_ℕ m k)

-- As many children have started as there are slots, and the clients `q` wait.
record Starved (m : ℕ) (q : List ℕ) (s : Server) : Type 0 where
  inv : Inv m s
  used : m ≤ s.started
  waiting : (more : List ℕ) × (contents s.queue ≡ q ++ more)

Step-Starved : {m : ℕ} {q : List ℕ} {s u : Server} → Step true s u → Starved m q s → Starved m q u
Step-Starved {m} {s} (serve_waiting some_wait room given) v =
    absurd (no_room m s.started (sym (ap is_positive v.inv.counted) ∙ room) v.used)
Step-Starved {q} {s} (receive pid mode ne idle) v =
    let (more, e) = v.waiting in
    let (extra, f) = accept-waiting s pid mode v.inv.valid in
    record {
      inv = Step-Inv (receive pid mode ne idle) v.inv;
      used = rw (started-accept s pid mode) v.used;
      waiting = (more ++ extra, ground (arith, e, f, append_assoc q more extra));
    }
Step-Starved (start_load pid a b e one) v = record {
  inv = Step-Inv (start_load pid a b e one) v.inv;
  used = v.used;
  waiting = v.waiting;
}
Step-Starved (start_store pid value a b e) v = record {
  inv = Step-Inv (start_store pid value a b e) v.inv;
  used = omega (arith, v.used);
  waiting = v.waiting;
}
Step-Starved (quit pid a b e) v = record {
  inv = Step-Inv (quit pid a b e) v.inv;
  used = v.used;
  waiting = v.waiting;
}

Run-Starved : {m : ℕ} {q : List ℕ} {s u : Server} → Run true s u → Starved m q s → Starved m q u
Run-Starved begin v = v
Run-Starved (after r st) v = Step-Starved st (Run-Starved r v)

-- When every forked child has started, one at a time, and a client waits, it waits for ever: in all
-- later states the clients that waited still wait, in the same order, whoever quits in between.
pub waiting_starves :
    (items : List ℕ) (m : ℕ) {s u : Server}
    → length items ≡ max_size
    → Run true (init items m) s
    → is_empty s.queue ≡ false
    → (s.forked ≡ []) × (s.starting ≡ [])
    → Run true s u
    → (more : List ℕ) × (contents u.queue ≡ contents s.queue ++ more)
waiting_starves items m {s} size r some_wait settled onward =
    let inv = Run-Inv r (init-Inv items m size) in
    let used : m ≤ s.started =
      omega (arith, inv.oversold some_wait, ap length settled.0, ap length settled.1) in
    (Run-Starved onward (record {
      inv = inv;
      used = used;
      waiting = ([], sym (append-nil (contents s.queue)));
    })).waiting

-- The clients that stand in the slots.
unfoldable pub connected : List ℕ → List ℕ
connected [] = []
connected (c ∷ slots) = if c == 0 then connected slots else c ∷ connected slots

killed-eq-connected : (slots : List ℕ) → killed (length slots) slots ≡ connected slots
unfolding killed connected
killed-eq-connected [] = refl
killed-eq-connected (c ∷ slots) = ground (arith, killed-eq-connected slots)

kill_rounds-sub_ℕ : (m k : ℕ) → kill_rounds m (sub_ℕ m k) ≡ k
unfolding kill_rounds
kill_rounds-sub_ℕ m k = ground arith

-- When every forked child has started, one at a time, `killServer` sends SIGTERM to exactly the
-- clients that stand in the slots, although it looks at `max_clients - empty_slot_count` slots only;
-- that number is the number of all children so far.
pub signal_handler2-connected :
    (items : List ℕ) (m : ℕ) {s : Server}
    → length items ≡ max_size
    → Run true (init items m) s
    → (s.forked ≡ []) × (s.starting ≡ [])
    → (signal_handler2 s ≡ connected s.slots)
      × (kill_rounds (length s.slots) s.empty_slot_count ≡ s.started)
unfolding signal_handler2
signal_handler2-connected items m {s} size r settled =
    let inv = Run-Inv r (init-Inv items m size) in
    let all : forks s ≡ s.started = omega (arith, ap length settled.0, ap length settled.1) in
    let rounds : kill_rounds (length s.slots) s.empty_slot_count ≡ s.started =
      rw (inv.width, inv.counted, kill_rounds-sub_ℕ m s.started) in
    (
      rw (rounds, killed-IsClear s.started s.started s.slots (rw all at (inv.clear)) (omega arith))
          (killed-eq-connected s.slots),
      rounds,
    )

-- Two children that start at the same time take one slot off the count together, not two.
pub lost_update :
    (s : Server) (p q : ℕ) (rest : List ℕ)
    → s.forked ≡ p ∷ q ∷ rest
    → (u : Server) × Run false s u
      × (u.empty_slot_count ≡ dec s.empty_slot_count)
      × (u.serving ≡ p ∷ q ∷ s.serving)
      × (u.started ≡ suc (suc s.started))
lost_update s p q rest e =
    let count = s.empty_slot_count in
    let s₁ : Server = record s { forked = q ∷ rest; starting = (p, count) ∷ s.starting } in
    let s₂ : Server = record s₁ {
      forked = rest;
      starting = (q, count) ∷ (p, count) ∷ s.starting;
    } in
    let r₁ : Run false s s₁ = after begin (start_load p [] (q ∷ rest) e (λ h. cc)) in
    let r₂ : Run false s s₂ = after r₁ (start_load q [] rest refl (λ h. cc)) in
    let r₃ : Run false s _ = after r₂ (start_store q count [] ((p, count) ∷ s.starting) refl) in
    let r₄ : Run false s _ = after r₃ (start_store p count [] s.starting refl) in
    (_, r₄, refl, refl, refl)
