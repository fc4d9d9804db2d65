-- ===== src/Shell/Wait/Reports.antt =====
-- HW2/terminal.c: what the shell prints about the children of a line.
use advanced_c_language_proj.Base.{◌≡◌, ◌∙◌, refl, sym, ap, List, [], ◌∷◌, ◌++◌, append-nil, arith}
use advanced_c_language_proj.Shell.Wait.{
  Status, Child, running, zombie, waited, handled, Report, ended, killed, Shell, handler_report,
  Step, child_ends, handle_sigchld, child_ends_behind, handle_sigchld_behind, wait, wait_fails,
  interrupted, Ends, ends, Handles, handles, Run, begin, after, forked,
}

-- The statuses that the loop prints.
unfoldable pub statuses : List Report → List Status
statuses [] = []
statuses (ended status ∷ printed) = status ∷ statuses printed
statuses (killed ∷ printed) = statuses printed

-- What the loop prints of children, when `status` is `last` in front of them: only for one for which it
-- has waited, its own status.
unfoldable pub replay : Status → List Child → List Status
replay last [] = []
replay last (running ∷ children) = last ∷ replay last children
replay last (zombie status ∷ children) = last ∷ replay last children
replay last (waited status ∷ children) = status ∷ replay status children
replay last (handled status ∷ children) = last ∷ replay last children

-- `status` behind them.
unfoldable left_by : Status → List Child → Status
left_by last [] = last
left_by last (running ∷ children) = left_by last children
left_by last (zombie status ∷ children) = left_by last children
left_by last (waited status ∷ children) = left_by status children
left_by last (handled status ∷ children) = left_by last children

statuses-append : (a b : List Report) → statuses (a ++ b) ≡ statuses a ++ statuses b
unfolding statuses
statuses-append [] b = refl
statuses-append (ended status ∷ a) b = ap (λ xs. status ∷ xs) (statuses-append a b)
statuses-append (killed ∷ a) b = statuses-append a b

replay-append :
    (last : Status) (a b : List Child)
    → replay last (a ++ b) ≡ replay last a ++ replay (left_by last a) b
unfolding replay left_by
replay-append last [] b = refl
replay-append last (running ∷ a) b = ap (λ xs. last ∷ xs) (replay-append last a b)
replay-append last (zombie status ∷ a) b = ap (λ xs. last ∷ xs) (replay-append last a b)
replay-append last (waited status ∷ a) b = ap (λ xs. status ∷ xs) (replay-append status a b)
replay-append last (handled status ∷ a) b = ap (λ xs. last ∷ xs) (replay-append last a b)

left_by-append :
    (last : Status) (a b : List Child) → left_by last (a ++ b) ≡ left_by (left_by last a) b
unfolding left_by
left_by-append last [] b = refl
left_by-append last (running ∷ a) b = left_by-append last a b
left_by-append last (zombie status ∷ a) b = left_by-append last a b
left_by-append last (waited status ∷ a) b = left_by-append status a b
left_by-append last (handled status ∷ a) b = left_by-append last a b

statuses-handler_report : (status : Status) → statuses (handler_report status) ≡ []
unfolding handler_report statuses
statuses-handler_report status = ground arith

-- The end of a child for which the loop has not waited changes nothing in this, and neither does the
-- handler.
Ends-replay :
    (last : Status) {before later : List Child}
    → Ends before later
    → (replay last later ≡ replay last before) × (left_by last later ≡ left_by last before)
unfolding replay left_by
Ends-replay last (ends a b status) = (
  replay-append last a (zombie status ∷ b) ∙ sym (replay-append last a (running ∷ b)),
  left_by-append last a (zombie status ∷ b) ∙ sym (left_by-append last a (running ∷ b)),
)

Handles-replay :
    (last status : Status) {before later : List Child}
    → Handles status before later
    → (replay last later ≡ replay last before) × (left_by last later ≡ left_by last before)
unfolding replay left_by
Handles-replay last status (handles a b) = (
  replay-append last a (handled status ∷ b) ∙ sym (replay-append last a (zombie status ∷ b)),
  left_by-append last a (handled status ∷ b) ∙ sym (left_by-append last a (zombie status ∷ b)),
)

-- The state of the loop against the children behind it.
record IsReported (last : Status) (s : Shell) : Type 0 where
  printed : statuses s.printed ≡ replay last s.before
  status : s.status ≡ left_by last s.before

Step-IsReported : {s t : Shell} (last : Status) → IsReported last s → Step s t → IsReported last t
unfolding replay left_by statuses
Step-IsReported {s} last h (child_ends children change) = record {
  printed = h.printed;
  status = h.status;
}
Step-IsReported {s} last h (child_ends_behind before change) =
    let (same, same') = Ends-replay last change in
    record { printed = h.printed ∙ sym same; status = h.status ∙ sym same' }
Step-IsReported {s} last h (handle_sigchld_behind before status change) =
    let (same, same') = Handles-replay last status change in
    record {
      printed =
          statuses-append s.printed (handler_report status)
          ∙ rw (statuses-handler_report status)
              (append-nil (statuses s.printed) ∙ (h.printed ∙ sym same));
      status = h.status ∙ sym same';
    }
Step-IsReported {s} last h (interrupted children e) = record {
  printed =
      statuses-append s.printed (ended s.status ∷ [])
      ∙ rw (h.printed, h.status) (sym (replay-append last s.before (running ∷ [])));
  status = h.status ∙ sym (left_by-append last s.before (running ∷ []));
}
Step-IsReported {s} last h (handle_sigchld children status change) = record {
  printed =
      statuses-append s.printed (handler_report status)
      ∙ rw (statuses-handler_report status) (append-nil (statuses s.printed) ∙ h.printed);
  status = h.status;
}
Step-IsReported {s} last h (wait children status e) = record {
  printed =
      statuses-append s.printed (ended status ∷ [])
      ∙ rw (h.printed) (sym (replay-append last s.before (waited status ∷ [])));
  status = sym (left_by-append last s.before (waited status ∷ []));
}
Step-IsReported {s} last h (wait_fails children status e) = record {
  printed =
      statuses-append s.printed (ended s.status ∷ [])
      ∙ rw (h.printed, h.status) (sym (replay-append last s.before (handled status ∷ [])));
  status = h.status ∙ sym (left_by-append last s.before (handled status ∷ []));
}

Run-IsReported : {s t : Shell} (last : Status) → IsReported last s → Run s t → IsReported last t
Run-IsReported last h begin = h
Run-IsReported last h (after run step) = Step-IsReported last (Run-IsReported last h run) step

-- In every order of the ends of the children, the runs of the handler, the interrupts of `waitpid` and
-- the rounds of the loop, the loop prints the own status of a child for which it has waited itself, and
-- for each other child, which the handler has waited for or which may still run, what it printed last,
-- or `status` as it was at the start.
pub Run-replay :
    {s : Shell} (children : List Child) (status : Status)
    → Run (forked children status) s
    → statuses s.printed ≡ replay status s.before
unfolding forked replay left_by statuses
Run-replay children status run =
    (Run-IsReported status (record { printed = refl; status = refl }) run).printed
