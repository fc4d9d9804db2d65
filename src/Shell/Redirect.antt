-- ===== src/Shell/Redirect.antt =====
-- HW2/terminal.c: the part of a child between its pipes and `execvp`: the two loops that look for `<` and
-- `>` among the arguments of its command, and the line of its log with the command.
-- The arguments stand before the null pointer of the array. `none` is a null pointer.
pub mod Files
pub mod Logged
use advanced_c_language_proj.Base.{
  ℕ, ◌+◌, Bool, true, false, ◌||◌, List, [], ◌∷◌, ◌++◌, Option, none, some, if◌then◌else◌,
}
use advanced_c_language_proj.Base.Text.{Text, str_eq}

-- `args[i + 1]`, for the arguments behind the one at `i`.
unfoldable pub next_arg : List Text → Option Text
next_arg [] = none
next_arg (arg ∷ args) = some arg

-- The first loop from one argument on: `input_file` and `output_file` at its end.
unfoldable pub find_files : List Text → Option Text → Option Text → Option Text × Option Text
unfolding next_arg
find_files [] input_file output_file = (input_file, output_file)
find_files (arg ∷ args) input_file output_file =
    let as_input = find_files args (next_arg args) output_file in
    let as_output = find_files args input_file (next_arg args) in
    let plain = find_files args input_file output_file in
    if str_eq arg (b'<' ∷ []) then as_input else if str_eq arg (b'>' ∷ []) then as_output else plain

-- The second loop from one argument on: the arguments that stay.
unfoldable pub cut_args : List Text → List Text
cut_args [] = []
cut_args (arg ∷ args) =
    let rest = cut_args args in
    if str_eq arg (b'<' ∷ []) || str_eq arg (b'>' ∷ []) then [] else arg ∷ rest

-- What a child runs and from where to where: `args`, `input_file` and `output_file`.
pub record Redirected : Type 0 where
  pub args : List Text
  pub input_file : Option Text
  pub output_file : Option Text

-- Both loops start behind the name of the program, at index 1.
unfoldable pub redirect : Text → List Text → Redirected
redirect program args =
    let files = find_files args none none in
    record { args = program ∷ cut_args args; input_file = files.0; output_file = files.1 }

-- `fprintf(log_file, "%s ", args[j])` for each argument.
unfoldable pub log_args : List Text → Text
log_args [] = []
log_args (arg ∷ args) = arg ++ b' ' ∷ log_args args

-- `fprintf(log_file, "< %s ", file)`, or with `>`, for a file that is not null.
unfoldable pub log_file : ℕ → Option Text → Text
log_file symbol none = []
log_file symbol (some file) = symbol ∷ b' ' ∷ (file ++ b' ' ∷ [])

-- What is written to the log behind `Executed command: `.
unfoldable pub log_command : Redirected → Text
log_command command =
    log_args command.args
    ++ (log_file b'<' command.input_file ++ (log_file b'>' command.output_file ++ b'\n' ∷ []))
