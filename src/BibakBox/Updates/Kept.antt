-- ===== src/BibakBox/Updates/Kept.antt =====
-- Final_HW6/BibakBOXClient.c: the file that the loop of `check_update` reports, and its new time.
use advanced_c_language_proj.Base.{
  ℕ, zero, suc, ◌+◌, ◌-◌, ◌≤◌, ◌<◌, ◌≡◌, ◌⊎◌, ◌∙◌, inl, inr, refl, true, List, [], ◌∷◌, some, take,
  drop, length, length-take, length-drop, length-append, length-set, get_or-set_self, get_or, set,
  arith, Bool-cases,
}
use advanced_c_language_proj.Base.Text.{Text, str_eq}
use advanced_c_language_proj.BibakBox.Tracking.{Info, found, remove_file_from_path}
use advanced_c_language_proj.BibakBox.Updates.{
  State, missing, unknown, modified, Files, no_info, remove_slot, set_time, check_from,
}

pub State-cases : (x : State) → (x ≡ missing) ⊎ ((x ≡ unknown) ⊎ ((t : ℕ) × (x ≡ modified t)))
State-cases missing = inl refl
State-cases unknown = inr (inl refl)
State-cases (modified t) = inr (inr (t, refl))

pub check_from-lt :
    (state : Text → State) (rounds i k : ℕ) (files : Files)
    → (check_from state rounds i files).0 ≡ some k
    → (i ≤ k) × (k < i + rounds)
unfolding check_from
check_from-lt state zero i k files e = absurd cc
check_from-lt state (suc rounds) i k files e =
    let info = get_or files.slots i no_info in
    elim (State-cases (state info.filepath)) [
      | inl m ↦
          let later = check_from-lt state rounds (i + 1) k (remove_slot info.filepath files) in
          ground (arith, m, later)
      | inr (inl m) ↦ ground (arith, m, check_from-lt state rounds (i + 1) k files)
      | inr (inr (t, m)) ↦ ground (
        arith,
        m,
        check_from-lt state rounds (i + 1) k files,
        check_from-lt state rounds (i + 1) k (set_time i t files),
      )
    ]

-- The array has room for `n` files, and there are not more.
pub record IsValid (n : ℕ) (files : Files) : Type 0 where
  pub room : length files.slots ≡ n
  pub within : files.glob_count ≤ n

str_eq_sym : (s t : Text) → str_eq s t ≡ str_eq t s
unfolding str_eq
str_eq_sym [] [] = refl
str_eq_sym [] (d ∷ t) = refl
str_eq_sym (c ∷ s) [] = refl
str_eq_sym (c ∷ s) (d ∷ t) = ground (arith, str_eq_sym s t)

length-remove_file_from_path :
    (filepath : Text) (infos : List Info)
    → found filepath infos ≡ true
    → suc (length (remove_file_from_path filepath infos)) ≡ length infos
unfolding found remove_file_from_path
length-remove_file_from_path filepath [] h = absurd cc
length-remove_file_from_path filepath (info ∷ infos) h =
    ground (arith, str_eq_sym filepath info.filepath, length-remove_file_from_path filepath infos)

remove_slot-IsValid :
    (n : ℕ) (filepath : Text) (files : Files)
    → IsValid n files
    → IsValid n (remove_slot filepath files)
unfolding remove_slot
remove_slot-IsValid n filepath files v =
    let infos = take files.glob_count files.slots in
    elim (Bool-cases (found filepath infos)) [
      | inl e ↦
          rw (remove_slot, e)
            (omega (
              arith,
              length-remove_file_from_path filepath infos e,
              length-take files.glob_count files.slots,
              length-drop (files.glob_count - 1) files.slots,
              length-append (remove_file_from_path filepath infos)
                  (drop (files.glob_count - 1) files.slots),
              v.room,
              v.within,
            ))
      | inr e ↦ rw (remove_slot, e) v
    ]

set_time-IsValid :
    (n i time : ℕ) (files : Files) → IsValid n files → IsValid n (set_time i time files)
unfolding set_time
set_time-IsValid n i time files v = record {
  room =
      length-set files.slots i (record (get_or files.slots i no_info) { last_modified_time = time })
      ∙ v.room;
  within = v.within;
}

set_time-modified :
    (state : Text → State) (n i time : ℕ) (files : Files)
    → IsValid n files
    → i < n
    → state (get_or files.slots i no_info).filepath ≡ modified time
    → state (get_or (set_time i time files).slots i no_info).filepath
      ≡ modified (get_or (set_time i time files).slots i no_info).last_modified_time
unfolding set_time
set_time-modified state n i time files v inside m =
    let info : Info = record (get_or files.slots i no_info) { last_modified_time = time } in
    let here : get_or (set files.slots i info) i no_info ≡ info =
      get_or-set_self files.slots i info no_info (omega (arith, v.room)) in
    rw here m

pub check_from-some :
    (state : Text → State) (n rounds i k : ℕ) (files files' : Files)
    → IsValid n files
    → i + rounds ≤ n
    → check_from state rounds i files ≡ (some k, files')
    → state (get_or files'.slots k no_info).filepath
      ≡ modified (get_or files'.slots k no_info).last_modified_time
unfolding check_from
check_from-some state n zero i k files files' v room e = absurd (ground (arith, e))
check_from-some state n (suc rounds) i k files files' v room e =
    let info = get_or files.slots i no_info in
    let fits : i + 1 + rounds ≤ n = omega arith in
    elim (State-cases (state info.filepath)) [
      | inl m ↦
          let removed = remove_slot info.filepath files in
          let later =
            check_from-some state n rounds (i + 1) k removed files'
              (remove_slot-IsValid n info.filepath files v) fits in
          ground (arith, m, later, e)
      | inr (inl m) ↦
          ground (arith, m, check_from-some state n rounds (i + 1) k files files' v fits, e)
      | inr (inr (t, m)) ↦
          let first =
            check_from-some state n rounds (i + 1) k (set_time i t files) files'
              (set_time-IsValid n i t files v) fits in
          let next = check_from-some state n rounds (i + 1) k files files' v fits in
          let now = set_time-modified state n i t files v (omega arith) m in
          ground (arith, m, first, next, now, e)
    ]
