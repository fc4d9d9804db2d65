-- ===== src/Shell/Wait/Ending.antt =====
-- HW2/terminal.c: the loop over `waitpid` comes to its end.
use advanced_c_language_proj.Base.{
  ℕ, zero, suc, ◌+◌, ◌*◌, ◌≤◌, ◌≡◌, ◌≢◌, ◌⊎◌, refl, ap, List, [], ◌∷◌, ◌++◌, length, length-append,
  All, replicate, length-replicate, List-cases, inl, inr, arith,
}
use advanced_c_language_proj.Shell.Wait.{
  Status, exited, Child, running, zombie, waited, handled, Shell, ends, handles, Step, child_ends,
  handle_sigchld, child_ends_behind, handle_sigchld_behind, wait, wait_fails, interrupted, Run,
  begin, after, forked, Ends, Handles, Report, ended,
}

-- What a child still has before it: its end, and a call that waits for it.
unfoldable pub stages : List Child → ℕ
stages [] = 0
stages (running ∷ children) = 2 + stages children
stages (zombie status ∷ children) = 1 + stages children
stages (waited status ∷ children) = stages children
stages (handled status ∷ children) = stages children

-- All that is left of the loop, a round for each child from the index on included.
unfoldable pub left : Shell → ℕ
left s = stages s.before + (stages s.children + length s.children)

stages-append : (a b : List Child) → stages (a ++ b) ≡ stages a + stages b
unfolding stages
stages-append [] b = omega arith
stages-append (running ∷ a) b = omega (arith, stages-append a b)
stages-append (zombie status ∷ a) b = omega (arith, stages-append a b)
stages-append (waited status ∷ a) b = omega (arith, stages-append a b)
stages-append (handled status ∷ a) b = omega (arith, stages-append a b)

stages-replicate : (n : ℕ) → stages (replicate n running) ≡ 2 * n
unfolding stages
stages-replicate zero = refl
stages-replicate (suc n) = omega (arith, stages-replicate n)

-- The loop has not waited for the child.
abbrev IsAhead : Child → Type 0
IsAhead child = (status : Status) → child ≢ waited status

IsAhead-replicate : (n : ℕ) → All IsAhead (replicate n running)
IsAhead-replicate zero = tt
IsAhead-replicate (suc n) = (λ st e. absurd cc, IsAhead-replicate n)

unfoldable pub steps : {s t : Shell} → Run s t → ℕ
steps begin = 0
steps (after run step) = suc (steps run)

record IsAt (n : ℕ) (s : Shell) : Type 0 where
  ahead : All IsAhead s.children
  total : length s.before + length s.children ≡ n

-- One child of the list is replaced.
All-replace :
    (a b : List Child) (x y : Child)
    → IsAhead y
    → All IsAhead (a ++ x ∷ b)
    → All IsAhead (a ++ y ∷ b)
All-replace [] b x y new h = (new, h.1)
All-replace (c ∷ a) b x y new h = (h.0, All-replace a b x y new h.1)

length-replace : (a b : List Child) (x y : Child) → length (a ++ x ∷ b) ≡ length (a ++ y ∷ b)
length-replace [] b x y = refl
length-replace (c ∷ a) b x y = ap suc (length-replace a b x y)

Ends-stages :
    {before later : List Child}
    → Ends before later
    → (stages later + 1 ≡ stages before) × (length later ≡ length before)
unfolding stages
Ends-stages (ends a b status) = (
  omega (arith, stages-append a (zombie status ∷ b), stages-append a (running ∷ b)),
  length-replace a b (zombie status) running,
)

Handles-stages :
    (status : Status) {before later : List Child}
    → Handles status before later
    → (stages later + 1 ≡ stages before) × (length later ≡ length before)
unfolding stages
Handles-stages status (handles a b) = (
  omega (arith, stages-append a (handled status ∷ b), stages-append a (zombie status ∷ b)),
  length-replace a b (handled status) (zombie status),
)

Ends-IsAhead :
    {before later : List Child} → Ends before later → All IsAhead before → All IsAhead later
Ends-IsAhead (ends a b status) h = All-replace a b running (zombie status) (λ st e. absurd cc) h

Handles-IsAhead :
    (status : Status) {before later : List Child}
    → Handles status before later
    → All IsAhead before
    → All IsAhead later
Handles-IsAhead status (handles a b) h =
    All-replace a b (zombie status) (handled status) (λ st e. absurd cc) h

-- A round of the loop, which leaves its child as `c`.
module _ (n : ℕ) (s : Shell) (h : IsAt n s) (d c : Child) (children : List Child)
    (e : s.children ≡ d ∷ children) (less : stages (c ∷ []) ≤ stages (d ∷ [])) where
  round_facts :
      (status : Status) (printed : List Report)
      → let t : Shell = record {
        before = s.before ++ c ∷ [];
        children = children;
        status = status;
        printed = printed;
      } in
        IsAt n t × (left t + 1 ≤ left s)
  unfolding left stages
  round_facts status printed =
      let ahead : All IsAhead (d ∷ children) = rw e at h.ahead in
      let total : length s.before + length (d ∷ children) ≡ n = rw e at h.total in
      (
        record { ahead = ahead.1; total = omega (arith, total, length-append s.before (c ∷ [])) },
        rw e (
            omega (
              arith,
              less,
              stages-append s.before (c ∷ []),
              stages-append (d ∷ []) children,
              length-append s.before (c ∷ []),
            )),
      )

-- A step keeps the invariant and takes at least one stage or a round.
Step-facts : (n : ℕ) {s t : Shell} → IsAt n s → Step s t → IsAt n t × (left t + 1 ≤ left s)
unfolding left stages
Step-facts n {s} h (child_ends children change) =
    let (less, same) = Ends-stages change in
    (
      record { ahead = Ends-IsAhead change h.ahead; total = omega (arith, h.total, same) },
      omega (arith, less, same),
    )
Step-facts n {s} h (child_ends_behind before change) =
    let (less, same) = Ends-stages change in
    (record { ahead = h.ahead; total = omega (arith, h.total, same) }, omega (arith, less))
Step-facts n {s} h (handle_sigchld children status change) =
    let (less, same) = Handles-stages status change in
    (
      record {
        ahead = Handles-IsAhead status change h.ahead;
        total = omega (arith, h.total, same);
      },
      omega (arith, less, same),
    )
Step-facts n {s} h (handle_sigchld_behind before status change) =
    let (less, same) = Handles-stages status change in
    (record { ahead = h.ahead; total = omega (arith, h.total, same) }, omega (arith, less))
Step-facts n {s} h (wait children status e) =
    round_facts n s h (zombie status) (waited status) children e (omega arith) status
      (s.printed ++ ended status ∷ [])
Step-facts n {s} h (wait_fails children status e) =
    round_facts n s h (handled status) (handled status) children e (omega arith) s.status
      (s.printed ++ ended s.status ∷ [])
Step-facts n {s} h (interrupted children e) =
    round_facts n s h running running children e (omega arith) s.status
      (s.printed ++ ended s.status ∷ [])

Run-facts :
    (n : ℕ) {s t : Shell} (run : Run s t) → IsAt n s → IsAt n t × (steps run + left t ≤ left s)
unfolding steps
Run-facts n begin h = (h, omega arith)
Run-facts n (after run step) h =
    let (at_u, used) = Run-facts n run h in
    let (at_t, more) = Step-facts n at_u step in (at_t, omega (arith, used, more))

-- While there are children left, something happens.
proceeds :
    (s : Shell) (c : Child) (children : List Child)
    → s.children ≡ c ∷ children
    → IsAhead c
    → (t : Shell) × Step s t
proceeds s running children e h =
    (_, child_ends (zombie (exited 0) ∷ children) (rw e (ends [] children (exited 0))))
proceeds s (zombie status) children e h = (_, wait children status e)
proceeds s (waited status) children e h = absurd (h status refl)
proceeds s (handled status) children e h = (_, wait_fails children status e)

-- Behind the forks of a line with `n` commands, no order of the ends of the children, of the runs of
-- the handler and of the interrupts of `waitpid` takes more than three steps for each child, and
-- something can happen until every child has had its round of the loop.
pub loop_ends :
    (n : ℕ) (status : Status) {s : Shell} (run : Run (forked (replicate n running) status) s)
    → (steps run ≤ 3 * n) × (((s.children ≡ []) × (length s.before ≡ n)) ⊎ ((t : Shell) × Step s t))
unfolding forked left stages
loop_ends n status {s} run =
    let (at_s, used) =
      Run-facts n run (record {
        ahead = IsAhead-replicate n;
        total = omega (arith, length-replicate n running);
      }) in
    (
      omega (arith, used, stages-replicate n, length-replicate n running),
      elim (List-cases s.children) [
        | inl e ↦
            inl
              (e, let total : length s.before + 0 ≡ n = rw e at at_s.total in omega (arith, total))
        | inr (c, children, e) ↦
            let ahead : All IsAhead (c ∷ children) = rw e at at_s.ahead in
            inr (proceeds s c children e ahead.0)
      ],
    )
