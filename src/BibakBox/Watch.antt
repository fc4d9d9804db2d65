-- ===== src/BibakBox/Watch.antt =====
-- Final_HW6/BibakBOXClient.c: the loop of `checkFileModificationTimes`, on the arrays of the files that the
-- client remembers. It never ends by itself: what it does in a number of seconds is modelled.
pub mod Calm
pub mod Created
pub mod Renamed
pub mod Served
mod Tests
use advanced_c_language_proj.Base.{
  ℕ, List, [], ◌∷◌, ◌++◌, Option, none, some, length, take, get_or, ◌==◌, if◌then◌else◌,
}
use advanced_c_language_proj.Base.Text.{Text}
use advanced_c_language_proj.BibakBox.Messages.{created_detected, deleted_detected, update_detected}
use advanced_c_language_proj.BibakBox.Tracking.{
  Info, Directory, Check, silent, reports, check_create, check_delete,
}
use advanced_c_language_proj.BibakBox.Updates.{State, Files, no_info, check_update}

-- What the calls of one round find: the directory, each time that it is read, and what `fopen`, `stat`
-- and `fread` say of a path.
pub record Second : Type 0 where
  pub create_now : Directory
  pub create_later : Directory
  pub delete_now : Directory
  pub delete_later : Directory
  pub state : Text → State
  pub st_size : Text → Option ℕ
  pub contents : Text → List Text

-- The files in the array.
unfoldable pub kept : Files → List Info
kept files = take files.glob_count files.slots

-- The arrays of the client: the global `fileInfos`, and the parameter of `checkFileModificationTimes`,
-- which is the same pointer at the start and is never changed. `shared`: both show one array. `parted`:
-- the parameter shows one that has been freed, the global variable a new one. `dangling`: both show
-- arrays that have been freed, with `glob_count` as it is.
pub data Client : Type 0 where
  shared parted : Files → Client
  dangling : ℕ → Client

unfoldable pub glob_count_of : Client → ℕ
glob_count_of (shared files) = length (kept files)
glob_count_of (parted files) = length (kept files)
glob_count_of (dangling count) = count

-- What the parameter shows, and the global variable.
unfoldable pub parameter_infos : Client → Option (List Info)
unfolding kept
parameter_infos (shared files) = some (kept files)
parameter_infos (parted files) = none
parameter_infos (dangling count) = none

unfoldable pub global_infos : Client → Option (List Info)
unfolding kept
global_infos (shared files) = some (kept files)
global_infos (parted files) = some (kept files)
global_infos (dangling count) = none

-- A new array, of which nothing behind the files is written.
unfoldable pub remember : List Info → Files
remember infos = record { slots = infos; glob_count = length infos }

-- What is sent, and the arrays behind it. `undefined`: the code then reads or frees an array that has been
-- freed, and what it does is not defined.
pub data Outcome : Type 0 where
  goes_on : List Text → Client → Outcome
  undefined : List Text → Outcome

-- The three calls of a round.
unfoldable pub watch_create : Text → Second → Client → Outcome
unfolding check_create glob_count_of parameter_infos
watch_create source_dir now client =
    elim (check_create source_dir now.create_now now.create_later (glob_count_of client)
      (parameter_infos client)) [
        | silent ↦ goes_on [] client
        | Check.undefined ↦ undefined []
        | reports filepath infos ↦
            goes_on (created_detected filepath source_dir (now.st_size filepath))
              (dangling (length infos))
      ]

unfoldable pub watch_delete : Text → Second → Client → Outcome
unfolding check_delete glob_count_of global_infos remember
watch_delete source_dir now client =
    elim (check_delete source_dir now.delete_now now.delete_later (glob_count_of client)
      (global_infos client)) [
        | silent ↦ goes_on [] client
        | Check.undefined ↦ undefined []
        | reports filepath infos ↦
            goes_on (deleted_detected filepath source_dir) (parted (remember infos))
      ]

-- With `count` 0 the array is not read.
unfoldable pub watch_update : Text → ℕ → Second → Client → Outcome
unfolding check_update
watch_update source_dir count now (shared files) =
    let (index, files') = check_update now.state count files in
    elim index [
      | none ↦ goes_on [] (shared files')
      | some i ↦
          let filepath = (get_or files'.slots i no_info).filepath in
          goes_on
            (update_detected filepath source_dir (now.st_size filepath) (now.contents filepath))
            (shared files')
    ]
watch_update source_dir count now (parted files) =
    if count == 0 then goes_on [] (parted files) else undefined []
watch_update source_dir count now (dangling glob_count) =
    if count == 0 then goes_on [] (dangling glob_count) else undefined []

-- Something that is sent before.
unfoldable pub sent_before : List Text → Outcome → Outcome
sent_before sent (goes_on more client) = goes_on (sent ++ more) client
sent_before sent (undefined more) = undefined (sent ++ more)

-- A call behind another one.
unfoldable pub and_then : Outcome → (Client → Outcome) → Outcome
unfolding sent_before
and_then (goes_on sent client) next = sent_before sent (next client)
and_then (undefined sent) next = undefined sent

unfoldable pub watch_round : Text → ℕ → Second → Client → Outcome
unfolding watch_create watch_delete watch_update and_then
watch_round source_dir count now client =
    and_then (watch_create source_dir now client)
      (λ c. and_then (watch_delete source_dir now c) (λ d. watch_update source_dir count now d))

-- `checkFileModificationTimes` for a number of seconds.
unfoldable pub watch : Text → ℕ → List Second → Client → Outcome
unfolding watch_round and_then
watch source_dir count [] client = goes_on [] client
watch source_dir count (now ∷ seconds) client =
    and_then (watch_round source_dir count now client) (λ c. watch source_dir count seconds c)
