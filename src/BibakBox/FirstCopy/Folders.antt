-- ===== src/BibakBox/FirstCopy/Folders.antt =====
-- Final_HW6/BibakBOXClient.c: the folders that the client makes for its first copy.
use advanced_c_language_proj.Base.{
  ◌+◌, ◌<◌, length, drop, ◌≡◌, ◌∙◌, refl, sym, ap, true, false, List, [], ◌∷◌, ◌++◌, none, some,
  map, All, All-append, append-nil, append_assoc, arith, if◌then◌else◌,
}
use advanced_c_language_proj.Base.Text.{Text, Absent, str_eq_refl}
use advanced_c_language_proj.BibakBox.Paths.{max_path_length, join_path}
use advanced_c_language_proj.BibakBox.Listing.{
  FilePath, Tree, ended, file, folder, special, passed_over, get_directory_contents,
}
use advanced_c_language_proj.BibakBox.FirstCopy.{
  StringArray, add_string_to_array, parent, contains, opens, create_same_directory_structure,
}
use advanced_c_language_proj.BibakBox.FirstCopy.Saved.{files_of}
use advanced_c_language_proj.BibakBox.FirstCopy.Mirror.{
  Fits, place, IsUnder, join_path_fits, place-append, under_step, IsUnder-step,
}

-- The folders of a directory under the destination, each in front of those in it. What is neither a file
-- nor a folder becomes one, too.
unfoldable pub mirror_folders : Text → Tree → List Text
mirror_folders destination ended = []
mirror_folders destination (file name more) = mirror_folders destination more
mirror_folders destination (folder name entries more) =
    (destination ++ b'/' ∷ name)
    ∷ (mirror_folders (destination ++ b'/' ∷ name) entries ++ mirror_folders destination more)
mirror_folders destination (special name more) =
    (destination ++ b'/' ∷ name) ∷ mirror_folders destination more
mirror_folders destination (passed_over more) = mirror_folders destination more

-- No slash stands in the name of an entry.
abbrev pub AreEntries : Tree → Type 0
AreEntries ended = Unit {0}
AreEntries (file name more) = Absent b'/' name × AreEntries more
AreEntries (folder name entries more) = Absent b'/' name × AreEntries entries × AreEntries more
AreEntries (special name more) = Absent b'/' name × AreEntries more
AreEntries (passed_over more) = AreEntries more

parent-Absent : (t : Text) → Absent b'/' t → parent t ≡ none
unfolding parent
parent-Absent [] h = refl
parent-Absent (c ∷ t) h = ground (arith, parent-Absent t h.1)

parent-append : (s t : Text) → Absent b'/' t → parent (s ++ b'/' ∷ t) ≡ some s
unfolding parent
parent-append [] t h = ground (arith, parent-Absent t h)
parent-append (c ∷ s) t h = ground (arith, parent-append s t h)

contains-left : (xs ys : List Text) (p : Text) → contains xs p ≡ true → contains (xs ++ ys) p ≡ true
unfolding contains
contains-left [] ys p h = absurd cc
contains-left (x ∷ xs) ys p h = ground (arith, h, contains-left xs ys p)

contains-right :
    (xs ys : List Text) (p : Text) → contains ys p ≡ true → contains (xs ++ ys) p ≡ true
unfolding contains
contains-right [] ys p h = h
contains-right (x ∷ xs) ys p h = ground (arith, contains-right xs ys p h)

pub contains-here : (x : Text) (xs : List Text) → contains (x ∷ xs) x ≡ true
unfolding contains
contains-here x xs = ground (arith, str_eq_refl x)

pub contains-behind :
    (x : Text) (xs : List Text) (p : Text) → contains xs p ≡ true → contains (x ∷ xs) p ≡ true
unfolding contains
contains-behind x xs p h = ground (arith, h)

opens-entry :
    (folders : List Text) (directory name : Text)
    → contains folders directory ≡ true
    → Absent b'/' name
    → opens folders (directory ++ b'/' ∷ name) ≡ true
unfolding opens
opens-entry folders directory name h plain = rw (opens, parent-append directory name plain) h

module _ (source destination : Text) where
  create-append :
      (xs ys : List FilePath) (folders : List Text) (a : StringArray)
      → let (folders', a') = create_same_directory_structure source destination xs folders a in
        create_same_directory_structure source destination (xs ++ ys) folders a
        ≡ create_same_directory_structure source destination ys folders' a'
  unfolding create_same_directory_structure
  create-append [] ys folders a = refl
  create-append (entry ∷ xs) ys folders a =
      let path = join_path destination (drop (length source + 1) entry.path) in
      create-append xs ys
        (if entry.is_file
          then folders
          else (if opens folders path then folders ++ path ∷ [] else folders))
        (if entry.is_file then add_string_to_array path a else a)

  -- Where an entry is put.
  place_entry :
      (under src dst name : Text)
      → IsUnder under
      → src ≡ source ++ under
      → dst ≡ destination ++ under
      → length (src ++ b'/' ∷ name) < max_path_length
      → length (dst ++ b'/' ∷ name) < max_path_length
      → place source destination (join_path src name) ≡ dst ++ b'/' ∷ name
  place_entry under src dst name u e e' h h' =
      let src' = under_step source under src name e in
      let dst' = under_step destination under dst name e' in
      rw (join_path_fits src name h, src', dst')
        (place-append source destination under name u (rw dst' at h'))

  create_folder :
      (from path : Text) (rest : List FilePath) (folders : List Text) (a : StringArray)
      → place source destination from ≡ path
      → opens folders path ≡ true
      → create_same_directory_structure source destination
          (record { path = from; is_file = false } ∷ rest)
          folders
          a
        ≡ create_same_directory_structure source destination rest (folders ++ path ∷ []) a
  unfolding create_same_directory_structure
  create_folder from path rest folders a here opened =
      rw (create_same_directory_structure, here, opened) refl

  -- Every folder is made, in the order of the list, when the directory itself is there.
  pub create-mirror_folders :
      (under src dst : Text) (tree : Tree) (folders : List Text) (a : StringArray)
      → IsUnder under
      → src ≡ source ++ under
      → dst ≡ destination ++ under
      → Fits src tree
      → Fits dst tree
      → AreEntries tree
      → contains folders dst ≡ true
      → (create_same_directory_structure source destination
          (get_directory_contents src tree)
          folders
          a).0
        ≡ folders ++ mirror_folders dst tree
  unfolding create_same_directory_structure get_directory_contents mirror_folders Fits
  create-mirror_folders under src dst ended folders a u e e' h h' names there =
      sym (append-nil folders)
  create-mirror_folders under src dst (file name more) folders a u e e' h h' names there =
      create-mirror_folders under src dst more folders
        (add_string_to_array (place source destination (join_path src name)) a) u e e' h.1 h'.1
        names.1 there
  create-mirror_folders under src dst (folder name entries more) folders a u e e' h h' names there =
      let here = place_entry under src dst name u e e' h.0 h'.0 in
      let opened = opens-entry folders dst name there names.0 in
      let path = dst ++ b'/' ∷ name in
      let made = folders ++ path ∷ [] in
      let inner_contents = get_directory_contents (src ++ b'/' ∷ name) entries in
      let (folders', a') =
        create_same_directory_structure source destination inner_contents made a in
      let inner =
        create-mirror_folders (under ++ b'/' ∷ name) (src ++ b'/' ∷ name) path entries made a
          (IsUnder-step under name u) (under_step source under src name e)
          (under_step destination under dst name e') h.1 h'.1 names.1
          (contains-right folders (path ∷ []) path (contains-here path [])) in
      let kept : contains folders' dst ≡ true = rw inner (
        contains-left made (mirror_folders path entries) dst
          (contains-left folders (path ∷ []) dst there)) in
      let later =
        create-mirror_folders under src dst more folders' a' u e e' h.2 h'.2 names.2 kept in
      let order : (made ++ mirror_folders path entries) ++ mirror_folders dst more
          ≡ folders ++ (path ∷ (mirror_folders path entries ++ mirror_folders dst more)) =
        append_assoc made (mirror_folders path entries) (mirror_folders dst more)
        ∙ append_assoc folders (path ∷ [])
            (mirror_folders path entries ++ mirror_folders dst more) in
      let step =
        create_folder (join_path src name) path
          (get_directory_contents (join_path src name) entries ++ get_directory_contents src more)
          folders a here opened in
      ap (λ r. r.0) step
      ∙ ap
          (λ p.
            (create_same_directory_structure source destination
              (get_directory_contents p entries ++ get_directory_contents src more) made a).0)
          (join_path_fits src name h.0)
      ∙ ap (λ r. r.0) (create-append inner_contents (get_directory_contents src more) made a)
      ∙ later
      ∙ ap (λ l. l ++ mirror_folders dst more) inner
      ∙ order
  create-mirror_folders under src dst (special name more) folders a u e e' h h' names there =
      let here = place_entry under src dst name u e e' h.0 h'.0 in
      let opened = opens-entry folders dst name there names.0 in
      let path = dst ++ b'/' ∷ name in
      ap (λ r. r.0)
        (create_folder (join_path src name) path (get_directory_contents src more) folders a here
          opened)
      ∙ create-mirror_folders under src dst more (folders ++ path ∷ []) a u e e' h.1 h'.1 names.1
          (contains-left folders (path ∷ []) dst there)
      ∙ append_assoc folders (path ∷ []) (mirror_folders dst more)
  create-mirror_folders under src dst (passed_over more) folders a u e e' h h' names there =
      create-mirror_folders under src dst more folders a u e e' h h' names there

  files_of-append :
      (xs ys : List FilePath)
      → map (place source destination) (files_of (xs ++ ys))
        ≡ map (place source destination) (files_of xs)
          ++ map (place source destination) (files_of ys)
  unfolding files_of
  files_of-append [] ys = refl
  files_of-append (x ∷ xs) ys = ground (arith, files_of-append xs ys)

  -- The folder of each file is there when the folders are made.
  pub files-opens :
      (under src dst : Text) (tree : Tree) (folders : List Text)
      → IsUnder under
      → src ≡ source ++ under
      → dst ≡ destination ++ under
      → Fits src tree
      → Fits dst tree
      → AreEntries tree
      → contains folders dst ≡ true
      → ((p : Text) → contains (mirror_folders dst tree) p ≡ true → contains folders p ≡ true)
      → All
          (λ p. opens folders p ≡ true)
          (map (place source destination) (files_of (get_directory_contents src tree)))
  unfolding get_directory_contents mirror_folders files_of Fits
  files-opens under src dst ended folders u e e' h h' names there made = tt
  files-opens under src dst (file name more) folders u e e' h h' names there made =
      let here = place_entry under src dst name u e e' h.0 h'.0 in
      let opened = opens-entry folders dst name there names.0 in
      let rest = files-opens under src dst more folders u e e' h.1 h'.1 names.1 there made in
      (ap (λ p. opens folders p) here ∙ opened, rest)
  files-opens under src dst (folder name entries more) folders u e e' h h' names there made =
      let path = dst ++ b'/' ∷ name in
      let inner_folders = mirror_folders path entries in
      let more_folders = mirror_folders dst more in
      let inner =
        files-opens (under ++ b'/' ∷ name) (src ++ b'/' ∷ name) path entries folders
          (IsUnder-step under name u) (under_step source under src name e)
          (under_step destination under dst name e') h.1 h'.1 names.1
          (made path (contains-here path (inner_folders ++ more_folders)))
          (λ p q. made p (
            contains-behind path (inner_folders ++ more_folders) p
              (contains-left inner_folders more_folders p q))) in
      let later = files-opens under src dst more folders u e e' h.2 h'.2 names.2 there (λ p q.
        made p (
          contains-behind path (inner_folders ++ more_folders) p
            (contains-right inner_folders more_folders p q))) in
      let inner_contents = get_directory_contents (src ++ b'/' ∷ name) entries in
      let contents = get_directory_contents src more in
      rw (join_path_fits src name h.0, files_of-append inner_contents contents)
        (All-append (λ p. opens folders p ≡ true)
          (map (place source destination) (files_of inner_contents))
          (map (place source destination) (files_of contents)) inner later)
  files-opens under src dst (special name more) folders u e e' h h' names there made =
      files-opens under src dst more folders u e e' h.1 h'.1 names.1 there
        (λ p q. made p (contains-behind (dst ++ b'/' ∷ name) (mirror_folders dst more) p q))
  files-opens under src dst (passed_over more) folders u e e' h h' names there made =
      files-opens under src dst more folders u e e' h h' names there made
