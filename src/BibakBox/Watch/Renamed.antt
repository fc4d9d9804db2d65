-- ===== src/BibakBox/Watch/Renamed.antt =====
-- Final_HW6/BibakBOXClient.c: a file that is renamed between two rounds.
use advanced_c_language_proj.Base.{
  ◌++◌, ℕ, suc, ◌+◌, ◌-◌, ◌<◌, ◌≡◌, ◌∙◌, refl, List, [], ◌∷◌, none, length, get_or, All, arith,
}
use advanced_c_language_proj.Base.Text.{Text}
use advanced_c_language_proj.BibakBox.Messages.{created_detected}
use advanced_c_language_proj.BibakBox.Tracking.Missing.{AreDistinct, IsFirstMissing}
use advanced_c_language_proj.BibakBox.Updates.{
  State, missing, Files, no_info, remove_slot, check_from, check_update,
}
use advanced_c_language_proj.BibakBox.Watch.{
  Second, kept, shared, goes_on, undefined, sent_before, and_then, watch_update, watch_round, watch,
}
use advanced_c_language_proj.BibakBox.Watch.Calm.{
  reading, IsQuiet, IsCalm, check_from_quiet, watch_create_few, watch_delete_many,
}
use advanced_c_language_proj.BibakBox.Watch.Created.{watch_created}

-- A second in which one of the files that check_update looks at does not open, while the directory has
-- as many files as before, and all other places are quiet.
pub record IsRenaming (source_dir : Text) (count k : ℕ) (old : Text) (files : Files) (now : Second)
    : Type 0 where
  pub created : length (reading source_dir now.create_now) ≡ length (kept files)
  pub deleted : length (reading source_dir now.delete_now) ≡ length (kept files)
  pub below : k < count
  pub path : (get_or files.slots k no_info).filepath ≡ old
  pub gone : now.state old ≡ missing
  pub quiet : (j : ℕ) → j < k → IsQuiet now.state files (get_or files.slots j no_info)
  pub quiet_behind :
      (j : ℕ)
      → k < j
      → j < count
      → IsQuiet now.state (remove_slot old files) (get_or (remove_slot old files).slots j no_info)

check_from_missing :
    (state : Text → State) (rounds i : ℕ) (files : Files)
    → state (get_or files.slots i no_info).filepath ≡ missing
    → check_from state (suc rounds) i files
      ≡ check_from state rounds (i + 1) (remove_slot (get_or files.slots i no_info).filepath files)
unfolding check_from
check_from_missing state rounds i files gone = rw (check_from, gone) refl

-- check_update forgets the file and reports nothing.
watch_update_renaming :
    (source_dir : Text) (count k : ℕ) (old : Text) (files : Files) (now : Second)
    → IsRenaming source_dir count k old files now
    → watch_update source_dir count now (shared files) ≡ goes_on [] (shared (remove_slot old files))
unfolding watch_update check_update check_from
watch_update_renaming source_dir count k old files now h =
    let left : ℕ = count - k - 1 in
    let files' = remove_slot old files in
    let split : k + suc left ≡ count = omega (arith, h.below) in
    let here : 0 + k ≡ k = omega arith in
    let at_k : check_from now.state (k + suc left) 0 files
        ≡ check_from now.state (suc left) (0 + k) files =
      check_from_quiet now.state k (suc left) 0 files (λ j l u. h.quiet j (omega arith)) in
    let at_k' : check_from now.state count 0 files ≡ check_from now.state (suc left) k files =
      rw (split, here) at at_k in
    let removed : check_from now.state (suc left) k files
        ≡ check_from now.state left (k + 1) files' =
      rw (h.path) at (check_from_missing now.state left k files (rw (h.path) h.gone)) in
    let rest : check_from now.state (left + 0) (k + 1) files'
        ≡ check_from now.state 0 (k + 1 + left) files' =
      check_from_quiet now.state left 0 (k + 1) files'
        (λ j l u. h.quiet_behind j (omega arith) (omega (arith, h.below))) in
    let all : left + 0 ≡ left = omega arith in
    let rest' : check_from now.state left (k + 1) files' ≡ (none, files') = rw all at rest in
    let nothing = at_k' ∙ (removed ∙ rest') in
    rw (watch_update, check_update, nothing, check_update, nothing) refl

-- A file is renamed, or deleted while another is created, between two rounds, so that the number of
-- files stays and all other places of the array that are looked at are quiet. In the second of the
-- change the client sends nothing and forgets the old file. Behind calm seconds, in the second in which
-- the directory, with no path twice in it, has more files than are left in the list, it sends one
-- message of a created file, and then uses an array that it has freed: up to there the server has not
-- been told that the old file is gone.
pub watch_renamed :
    (source_dir : Text) (count k : ℕ) (old : Text) (files : Files) (now next : Second)
    (calm seconds : List Second)
    → IsRenaming source_dir count k old files now
    → All (IsCalm source_dir count (remove_slot old files)) calm
    → AreDistinct (reading source_dir next.create_now)
    → length (kept (remove_slot old files)) < length (reading source_dir next.create_now)
    → (filepath : Text) × IsFirstMissing filepath
        (reading source_dir next.create_now)
        (kept (remove_slot old files))
      × (watch source_dir count (now ∷ (calm ++ next ∷ seconds)) (shared files)
          ≡ undefined (created_detected filepath source_dir (next.st_size filepath)))
unfolding watch watch_round and_then sent_before
watch_renamed source_dir count k old files now next calm seconds h quiet distinct more =
    let files' = remove_slot old files in
    let (filepath, is_first, sent) =
      watch_created source_dir count next files' calm seconds (omega (arith, h.below)) quiet
        distinct more in
    let no_create = watch_create_few source_dir now files (omega (arith, h.created)) in
    let no_delete = watch_delete_many source_dir now files (omega (arith, h.deleted)) in
    let no_update = watch_update_renaming source_dir count k old files now h in
    let round : watch_round source_dir count now (shared files) ≡ goes_on [] (shared files') =
      rw (watch_round, no_create, and_then, no_delete, no_update) refl in
    (filepath, is_first, rw (watch, round, sent) refl)
