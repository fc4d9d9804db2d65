-- ===== src/Shell/Redirect/Files.antt =====
-- HW2/terminal.c: what the two loops find in a command with redirections.
use advanced_c_language_proj.Base.{◌≡◌, refl, false, List, [], ◌∷◌, ◌++◌, Option, none, some, All}
use advanced_c_language_proj.Base.Text.{Text, str_eq}
use advanced_c_language_proj.Shell.Redirect.{next_arg, find_files, cut_args, redirect}

-- `< file` or `> file`.
pub data Redirection : Type 0 where
  input_from : Text → Redirection
  output_to : Text → Redirection

-- The arguments of redirections.
unfoldable pub words_of : List Redirection → List Text
words_of [] = []
words_of (input_from file ∷ rs) = (b'<' ∷ []) ∷ file ∷ words_of rs
words_of (output_to file ∷ rs) = (b'>' ∷ []) ∷ file ∷ words_of rs

-- The file of the last redirection of one kind; `earlier` if there is none.
unfoldable pub last_input : List Redirection → Option Text → Option Text
last_input [] earlier = earlier
last_input (input_from file ∷ rs) earlier = last_input rs (some file)
last_input (output_to file ∷ rs) earlier = last_input rs earlier

unfoldable pub last_output : List Redirection → Option Text → Option Text
last_output [] earlier = earlier
last_output (input_from file ∷ rs) earlier = last_output rs earlier
last_output (output_to file ∷ rs) earlier = last_output rs (some file)

-- An argument that is neither `<` nor `>`.
abbrev pub IsPlain : Text → Type 0
IsPlain arg = (str_eq arg (b'<' ∷ []) ≡ false) × (str_eq arg (b'>' ∷ []) ≡ false)

abbrev pub HasPlainFile : Redirection → Type 0
HasPlainFile (input_from file) = IsPlain file
HasPlainFile (output_to file) = IsPlain file

find_files-append :
    (plain args : List Text) (input_file output_file : Option Text)
    → All IsPlain plain
    → find_files (plain ++ args) input_file output_file ≡ find_files args input_file output_file
unfolding find_files
find_files-append [] args input_file output_file h = refl
find_files-append (arg ∷ plain) args input_file output_file h =
    let rest = find_files-append plain args input_file output_file h.1 in
    rw (find_files, h.0.0, h.0.1, rest) refl

find_files-words_of :
    (rs : List Redirection) (input_file output_file : Option Text)
    → All HasPlainFile rs
    → find_files (words_of rs) input_file output_file
      ≡ (last_input rs input_file, last_output rs output_file)
unfolding words_of last_input last_output find_files next_arg str_eq
find_files-words_of [] input_file output_file h = refl
find_files-words_of (input_from file ∷ rs) input_file output_file h =
    let rest = find_files-words_of rs (some file) output_file h.1 in rw (h.0.0, h.0.1, rest) refl
find_files-words_of (output_to file ∷ rs) input_file output_file h =
    let rest = find_files-words_of rs input_file (some file) h.1 in rw (h.0.0, h.0.1, rest) refl

cut_args-append :
    (plain : List Text) (rs : List Redirection)
    → All IsPlain plain
    → cut_args (plain ++ words_of rs) ≡ plain
unfolding cut_args words_of str_eq
cut_args-append [] [] h = refl
cut_args-append [] (input_from file ∷ rs) h = refl
cut_args-append [] (output_to file ∷ rs) h = refl
cut_args-append (arg ∷ plain) rs h =
    let rest = cut_args-append plain rs h.1 in rw (cut_args, h.0.0, h.0.1, rest) refl

-- A child runs its program with the arguments in front of the first redirection, and takes its input
-- from the last file behind a `<` and its output to the last file behind a `>`, in whatever order the
-- redirections stand, when no argument and no file is called `<` or `>`.
pub redirect-append :
    (program : Text) (plain : List Text) (rs : List Redirection)
    → All IsPlain plain
    → All HasPlainFile rs
    → redirect program (plain ++ words_of rs) ≡ record {
      args = program ∷ plain;
      input_file = last_input rs none;
      output_file = last_output rs none;
    }
unfolding redirect
redirect-append program plain rs h h' =
    rw
      (
        find_files-append plain (words_of rs) none none h,
        find_files-words_of rs none none h',
        cut_args-append plain rs h,
      )
      refl
