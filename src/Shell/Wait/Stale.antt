-- ===== src/Shell/Wait/Stale.antt =====
-- HW2/terminal.c: an order of events in which the handler waits for every child first.
use advanced_c_language_proj.Base.{
  ◌≡◌, ◌∙◌, refl, sym, ap, List, [], ◌∷◌, ◌++◌, append_assoc, append-nil, map, length, replicate,
}
use advanced_c_language_proj.Shell.Wait.{
  Status, running, zombie, handled, Shell, ends, handles, child_ends, handle_sigchld, wait_fails,
  handler_report, ended, Run, begin, after, forked,
}
use advanced_c_language_proj.Shell.Wait.Reports.{statuses, replay, Run-replay}

-- One child after the other ends, is waited for by the handler, and has its round.
handled_in_order :
    (ends_with : List Status) (base s : Shell)
    → Run base s
    → s.children ≡ replicate (length ends_with) running
    → (t : Shell) × Run base t × (t.children ≡ []) × (t.before ≡ s.before ++ map handled ends_with)
handled_in_order [] base s run e = (s, run, e, sym (append-nil s.before))
handled_in_order (status ∷ ends_with) base s run e =
    let others = replicate (length ends_with) running in
    let s1 : Shell = record s { children = zombie status ∷ others } in
    let run1 : Run base s1 = after run (child_ends _ (rw e (ends [] others status))) in
    let s2 : Shell = record s1 {
      children = handled status ∷ others;
      printed = s1.printed ++ handler_report status;
    } in
    let run2 : Run base s2 = after run1 (handle_sigchld _ status (handles [] others)) in
    let s3 : Shell = record {
      before = s2.before ++ handled status ∷ [];
      children = others;
      status = s2.status;
      printed = s2.printed ++ ended s2.status ∷ [];
    } in
    let run3 : Run base s3 = after run2 (wait_fails others status refl) in
    let (t, run_t, done, before) = handled_in_order ends_with base s3 run3 refl in
    (t, run_t, done, before ∙ append_assoc s.before (handled status ∷ []) (map handled ends_with))

replay-handled :
    (last : Status) (ends_with : List Status)
    → replay last (map handled ends_with) ≡ replicate (length ends_with) last
unfolding replay
replay-handled last [] = refl
replay-handled last (status ∷ ends_with) = ap (λ xs. last ∷ xs) (replay-handled last ends_with)

-- Whatever the statuses with which the children of a line end, there is an order of events in which
-- the loop comes to its end and prints for each of them `status` as it was before, which nothing has
-- set.
pub stale_reports :
    (ends_with : List Status) (status : Status)
    → (s : Shell) × Run (forked (replicate (length ends_with) running) status) s
      × (s.children ≡ [])
      × (statuses s.printed ≡ replicate (length ends_with) status)
unfolding forked
stale_reports ends_with status =
    let start = forked (replicate (length ends_with) running) status in
    let (s, run, done, before) = handled_in_order ends_with start start begin refl in
    (
      s,
      run,
      done,
      Run-replay (replicate (length ends_with) running) status run
          ∙ (ap (replay status) before ∙ replay-handled status ends_with),
    )
