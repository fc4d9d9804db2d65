-- ===== src/BibakBox/Watch/Created.antt =====
-- Final_HW6/BibakBOXClient.c: what the client sends for files that appear or go, over several seconds.
use advanced_c_language_proj.Base.{
  ℕ, ◌<◌, ◌≤◌, ◌≡◌, ◌∙◌, inl, inr, refl, ap, false, List, [], ◌∷◌, ◌++◌, append-nil, length, All,
  arith, ◌==◌, leb, Bool-cases,
}
use advanced_c_language_proj.Base.Text.{Text}
use advanced_c_language_proj.BibakBox.Messages.{created_detected, deleted_detected}
use advanced_c_language_proj.BibakBox.Tracking.{check_delete}
use advanced_c_language_proj.BibakBox.Tracking.Missing.{
  AreDistinct, IsFirstMissing, check_create_lem, check_delete_lem,
}
use advanced_c_language_proj.BibakBox.Tracking.Scan.{save_file_modification_times_lem}
use advanced_c_language_proj.BibakBox.Updates.{Files}
use advanced_c_language_proj.BibakBox.Watch.{
  Second, kept, shared, parted, dangling, remember, goes_on, undefined, sent_before, and_then,
  glob_count_of, parameter_infos, global_infos, watch_create, watch_delete, watch_update,
  watch_round, watch,
}
use advanced_c_language_proj.BibakBox.Watch.Calm.{reading, IsCalm, watch_create_few, watch_calm}

-- When both pointers dangle, the rest of a round sends nothing and uses one of them.
dangling_round :
    (source_dir : Text) (count : ℕ) (now : Second) (n : ℕ)
    → 1 ≤ count
    → and_then (watch_delete source_dir now (dangling n)) (λ c. watch_update source_dir count now c)
      ≡ undefined []
unfolding watch_delete check_delete glob_count_of global_infos watch_update and_then sent_before
dangling_round source_dir count now n some_count =
    let scan = save_file_modification_times_lem source_dir now.delete_now in
    let nonzero : (count == 0) ≡ false = ground arith in
    elim (Bool-cases (leb n (length (reading source_dir now.delete_now)))) [
      | inl e ↦ rw (watch_delete, check_delete, scan, e, nonzero) refl
      | inr e ↦ rw (watch_delete, check_delete, scan, e) refl
    ]

module _ (source_dir : Text) (count : ℕ) (now : Second) (files : Files) where
  watch_create_many :
      AreDistinct (reading source_dir now.create_now)
      → length (kept files) < length (reading source_dir now.create_now)
      → (filepath : Text) × IsFirstMissing filepath (reading source_dir now.create_now) (kept files)
        × (watch_create source_dir now (shared files)
            ≡ goes_on
                (created_detected filepath source_dir (now.st_size filepath))
                (dangling (length (reading source_dir now.create_later))))
  unfolding watch_create glob_count_of parameter_infos
  watch_create_many distinct more =
      elim (check_create_lem source_dir now.create_now now.create_later (kept files) distinct) [
        | inl (few, e) ↦ absurd (omega (arith, few))
        | inr (_, filepath, is_first, e) ↦ (filepath, is_first, rw (watch_create, e) refl)
      ]

  watch_delete_few :
      AreDistinct (kept files)
      → length (reading source_dir now.delete_now) < length (kept files)
      → (filepath : Text) × IsFirstMissing filepath (kept files) (reading source_dir now.delete_now)
        × (watch_delete source_dir now (shared files)
            ≡ goes_on
                (deleted_detected filepath source_dir)
                (parted (remember (reading source_dir now.delete_later))))
  unfolding watch_delete glob_count_of global_infos
  watch_delete_few distinct fewer =
      elim (check_delete_lem source_dir now.delete_now now.delete_later (kept files) distinct) [
        | inl (many, e) ↦ absurd (omega (arith, many))
        | inr (_, filepath, is_first, e) ↦ (filepath, is_first, rw (watch_delete, e) refl)
      ]

  -- Behind any calm seconds, in the second in which the directory has more files than are remembered,
  -- the client sends one message of a created file, for the first one read that is not remembered, and
  -- then uses an array that it has freed, whatever the directory is like at later calls. No path stands
  -- twice in what is read, and the client had at least one file at its start.
  pub watch_created :
      (calm seconds : List Second)
      → 1 ≤ count
      → All (IsCalm source_dir count files) calm
      → AreDistinct (reading source_dir now.create_now)
      → length (kept files) < length (reading source_dir now.create_now)
      → (filepath : Text) × IsFirstMissing filepath (reading source_dir now.create_now) (kept files)
        × (watch source_dir count (calm ++ now ∷ seconds) (shared files)
            ≡ undefined (created_detected filepath source_dir (now.st_size filepath)))
  unfolding watch watch_round and_then sent_before
  watch_created calm seconds some_count quiet distinct more =
      let (filepath, is_first, created) = watch_create_many distinct more in
      let n : ℕ = length (reading source_dir now.create_later) in
      let sent = created_detected filepath source_dir (now.st_size filepath) in
      let round : watch_round source_dir count now (shared files) ≡ undefined sent =
        rw (watch_round, created, and_then, dangling_round source_dir count now n some_count)
          (ap undefined (append-nil sent)) in
      (
        filepath,
        is_first,
        watch_calm source_dir count calm (now ∷ seconds) files quiet ∙ rw (watch, round) refl,
      )

  -- Behind any calm seconds, in the second in which the directory has fewer files than are remembered,
  -- the client sends one message of a deleted file, for the first one remembered that is not read, and
  -- then uses an array that it has freed. In the same second check_create has not found more files. No
  -- path is remembered twice, and the client had at least one file at its start.
  pub watch_deleted :
      (calm seconds : List Second)
      → 1 ≤ count
      → All (IsCalm source_dir count files) calm
      → length (reading source_dir now.create_now) ≤ length (kept files)
      → AreDistinct (kept files)
      → length (reading source_dir now.delete_now) < length (kept files)
      → (filepath : Text) × IsFirstMissing filepath (kept files) (reading source_dir now.delete_now)
        × (watch source_dir count (calm ++ now ∷ seconds) (shared files)
            ≡ undefined (deleted_detected filepath source_dir))
  unfolding watch watch_round and_then sent_before watch_update
  watch_deleted calm seconds some_count quiet few distinct fewer =
      let (filepath, is_first, deleted) = watch_delete_few distinct fewer in
      let no_create = watch_create_few source_dir now files few in
      let sent = deleted_detected filepath source_dir in
      let nonzero : (count == 0) ≡ false = ground arith in
      let round : watch_round source_dir count now (shared files) ≡ undefined sent =
        rw (watch_round, no_create, and_then, deleted, nonzero) (ap undefined (append-nil sent)) in
      (
        filepath,
        is_first,
        watch_calm source_dir count calm (now ∷ seconds) files quiet ∙ rw (watch, round) refl,
      )
