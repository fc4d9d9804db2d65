-- ===== src/BibakBox/Tracking/Missing.antt =====
-- Final_HW6/BibakBOXClient.c: which created or deleted file the client tells the server.
use advanced_c_language_proj.Base.{
  ◌+◌, ◌≤◌, ◌<◌, ◌≡◌, ◌⊎◌, refl, sym, ap, true, false, List, [], ◌∷◌, ◌++◌, none, some, leb, length,
  take, arith, All, Bool-cases, Option-cases, inl, inr,
}
use advanced_c_language_proj.Base.Text.{Text, str_eq, str_eq_sound}
use advanced_c_language_proj.BibakBox.Tracking.{
  Info, Directory, max_files, found, first_missing, silent, reports, check_create, check_delete,
  remove_file_from_path,
}
use advanced_c_language_proj.BibakBox.Tracking.Scan.{all_files, save_file_modification_times_lem}

-- No path stands twice in the list.
unfoldable pub AreDistinct : List Info → Type 0
AreDistinct [] = Unit
AreDistinct (info ∷ infos) = (found info.filepath infos ≡ false) × AreDistinct infos

-- `filepath` is the first path of `infos` that `others` does not have.
pub record IsFirstMissing (filepath : Text) (infos others : List Info) : Type 0 where
  pub before : List Info
  pub info : Info
  pub behind : List Info
  pub split : infos ≡ before ++ info ∷ behind
  pub path : info.filepath ≡ filepath
  pub missing : found filepath others ≡ false
  pub present : All (λ i. found i.filepath others ≡ true) before

first_missing-eq-some :
    (infos others : List Info) (filepath : Text)
    → first_missing infos others ≡ some filepath
    → IsFirstMissing filepath infos others
unfolding first_missing
first_missing-eq-some [] others filepath h = cc
first_missing-eq-some (i ∷ infos) others filepath h = elim (Bool-cases (found i.filepath others)) [
  | inl e ↦
      let more = first_missing-eq-some infos others filepath (ground (arith, h, e)) in
      record {
        before = i ∷ more.before;
        info = more.info;
        behind = more.behind;
        split = ap (λ l. i ∷ l) more.split;
        path = more.path;
        missing = more.missing;
        present = (e, more.present);
      }
  | inr e ↦
      let same : i.filepath ≡ filepath = ground (arith, h, e) in
      record {
        before = [];
        info = i;
        behind = infos;
        split = refl;
        path = same;
        missing = rw (sym same) e;
        present = tt;
      }
]

first_missing-eq-none :
    (infos others : List Info)
    → first_missing infos others ≡ none
    → All (λ i. found i.filepath others ≡ true) infos
unfolding first_missing
first_missing-eq-none [] others h = tt
first_missing-eq-none (i ∷ infos) others h = elim (Bool-cases (found i.filepath others)) [
  | inl e ↦ (e, first_missing-eq-none infos others (ground (arith, h, e)))
  | inr e ↦ ground (arith, h, e)
]

str_eq_comm : (s t : Text) → str_eq s t ≡ str_eq t s
unfolding str_eq
str_eq_comm [] [] = refl
str_eq_comm [] (d ∷ t) = refl
str_eq_comm (c ∷ s) [] = refl
str_eq_comm (c ∷ s) (d ∷ t) = ground (arith, str_eq_comm s t)

-- Taking a path out that is in the list leaves one file less, and every other path.
length-remove_file_from_path :
    (filepath : Text) (infos : List Info)
    → found filepath infos ≡ true
    → length (remove_file_from_path filepath infos) + 1 ≡ length infos
unfolding remove_file_from_path found
length-remove_file_from_path filepath [] h = cc
length-remove_file_from_path filepath (i ∷ infos) h =
    let sym_eq = str_eq_comm filepath i.filepath in
    elim (Bool-cases (str_eq i.filepath filepath)) [
      | inl e ↦ ground (arith, e)
      | inr e ↦ ground (arith, e, h, sym_eq, length-remove_file_from_path filepath infos)
    ]

found-remove_file_from_path :
    (filepath other : Text) (infos : List Info)
    → str_eq filepath other ≡ false
    → found other infos ≡ true
    → found other (remove_file_from_path filepath infos) ≡ true
unfolding remove_file_from_path found
found-remove_file_from_path filepath other [] ne h = h
found-remove_file_from_path filepath other (i ∷ infos) ne h =
    let later = found-remove_file_from_path filepath other infos ne in
    elim (Bool-cases (str_eq i.filepath filepath)) [
      | inl e ↦
          let apart : str_eq other i.filepath ≡ false =
            rw (str_eq_sound i.filepath filepath e, str_eq_comm other filepath) ne in
          ground (arith, e, h, apart)
      | inr e ↦ ground (arith, e, h, later)
    ]

found_apart :
    (filepath : Text) (infos others : List Info)
    → found filepath infos ≡ false
    → All (λ i. found i.filepath others ≡ true) infos
    → All (λ i. found i.filepath (remove_file_from_path filepath others) ≡ true) infos
unfolding found
found_apart filepath [] others h all = tt
found_apart filepath (i ∷ infos) others h all =
    let apart : str_eq filepath i.filepath ≡ false = ground (arith, h) in
    let rest : found filepath infos ≡ false = ground (arith, h) in
    (
      found-remove_file_from_path filepath i.filepath others apart all.0,
      found_apart filepath infos others rest all.1,
    )

-- A list without repetition whose paths all stand in another list is not longer than that.
length_of_AreDistinct :
    (infos others : List Info)
    → AreDistinct infos
    → All (λ i. found i.filepath others ≡ true) infos
    → length infos ≤ length others
unfolding AreDistinct
length_of_AreDistinct [] others distinct all = omega arith
length_of_AreDistinct (i ∷ infos) others distinct all =
    let rest = remove_file_from_path i.filepath others in
    let one = length-remove_file_from_path i.filepath others all.0 in
    let less =
      length_of_AreDistinct infos rest distinct.1
        (found_apart i.filepath infos others distinct.0 all.1) in
    omega (arith, one, less)

-- A longer list without repetition has a path that the other list does not have.
first_missing_lem :
    (infos others : List Info)
    → AreDistinct infos
    → length others < length infos
    → (filepath : Text) × (first_missing infos others ≡ some filepath)
      × IsFirstMissing filepath infos others
first_missing_lem infos others distinct longer = elim (Option-cases (first_missing infos others)) [
  | inl e ↦
      let all = first_missing-eq-none infos others e in
      absurd (omega (arith, length_of_AreDistinct infos others distinct all))
  | inr (filepath, e) ↦ (filepath, e, first_missing-eq-some infos others filepath e)
]

pub check_create_lem :
    (dir_path : Text) (now later : Directory) (file_infos : List Info)
    → AreDistinct (take max_files (all_files dir_path now))
    → ((length (take max_files (all_files dir_path now)) ≤ length file_infos)
        × (check_create dir_path now later (length file_infos) (some file_infos) ≡ silent))
      ⊎ ((length file_infos < length (take max_files (all_files dir_path now)))
          × (filepath : Text) × IsFirstMissing filepath
              (take max_files (all_files dir_path now))
              file_infos
          × (check_create dir_path now later (length file_infos) (some file_infos)
              ≡ reports filepath (take max_files (all_files dir_path later))))
unfolding check_create
check_create_lem dir_path now later file_infos distinct =
    let temp = take max_files (all_files dir_path now) in
    let scan = save_file_modification_times_lem dir_path now in
    let rescan = save_file_modification_times_lem dir_path later in
    elim (Bool-cases (leb (length temp) (length file_infos))) [
      | inl e ↦ inl (ground (arith, e), rw (check_create, scan, e) refl)
      | inr e ↦
          let longer : length file_infos < length temp = ground (arith, e) in
          let (filepath, first, is_first) = first_missing_lem temp file_infos distinct longer in
          inr (longer, filepath, is_first, rw (check_create, scan, e, first, rescan) refl)
    ]

-- check_delete compares numbers first: when the directory has no fewer files than are remembered, of
-- the first 100 that are read, it reports nothing and frees nothing, whatever was deleted. Otherwise it
-- reports one file, the first remembered one that is not read, frees the global array, and puts the
-- first 100 files of the directory as it then is into a new one. No path is remembered twice, and the
-- global array has not been freed.
pub check_delete_lem :
    (dir_path : Text) (now later : Directory) (file_infos : List Info)
    → AreDistinct file_infos
    → ((length file_infos ≤ length (take max_files (all_files dir_path now)))
        × (check_delete dir_path now later (length file_infos) (some file_infos) ≡ silent))
      ⊎ ((length (take max_files (all_files dir_path now)) < length file_infos)
          × (filepath : Text) × IsFirstMissing filepath file_infos
              (take max_files (all_files dir_path now))
          × (check_delete dir_path now later (length file_infos) (some file_infos)
              ≡ reports filepath (take max_files (all_files dir_path later))))
unfolding check_delete
check_delete_lem dir_path now later file_infos distinct =
    let temp = take max_files (all_files dir_path now) in
    let scan = save_file_modification_times_lem dir_path now in
    let rescan = save_file_modification_times_lem dir_path later in
    elim (Bool-cases (leb (length file_infos) (length temp))) [
      | inl e ↦ inl (ground (arith, e), rw (check_delete, scan, e) refl)
      | inr e ↦
          let longer : length temp < length file_infos = ground (arith, e) in
          let (filepath, first, is_first) = first_missing_lem file_infos temp distinct longer in
          inr (longer, filepath, is_first, rw (check_delete, scan, e, first, rescan) refl)
    ]
