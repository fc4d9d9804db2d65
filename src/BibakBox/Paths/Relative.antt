-- ===== src/BibakBox/Paths/Relative.antt =====
-- A path under the watched directory of the client keeps its place under the directory of the server.
use advanced_c_language_proj.Base.{
  ℕ, ◌≡◌, ◌≢◌, refl, ap, true, [], ◌∷◌, ◌++◌, ◌==◌, leb, ◌&&◌, if◌then◌else◌, length, drop,
  length-append, drop-append, arith, Bool-cases, inl, inr,
}
use advanced_c_language_proj.Base.Text.{Text, starts_with, starts_with-append}
use advanced_c_language_proj.BibakBox.Paths.{
  with_slash, skip_separator, remove_base_path, configure_path,
}

is_prefix-append :
    (base s : Text) → leb (length base) (length (base ++ s)) && starts_with base (base ++ s) ≡ true
is_prefix-append base s = ground (arith, length-append base s, starts_with-append base s)

-- The client cuts its own base path off and leaves one slash in front of the rest, if the rest does
-- not itself begin with a slash.
pub remove_base_path-append :
    (base : Text) (c : ℕ) (name : Text)
    → c ≢ b'/'
    → remove_base_path (base ++ b'/' ∷ c ∷ name) base ≡ b'/' ∷ c ∷ name
unfolding remove_base_path
remove_base_path-append base c name plain =
    rw
      (
        is_prefix-append base (b'/' ∷ c ∷ name),
        remove_base_path,
        drop-append base (b'/' ∷ c ∷ name),
      )
      (ground arith)

-- What the server makes of the path that the client sends is the same name under its own base.
pub configure_path-remove_base_path :
    (client_base server_base : Text) (c : ℕ) (name : Text)
    → c ≢ b'/'
    → configure_path (remove_base_path (client_base ++ b'/' ∷ c ∷ name) client_base) server_base
      ≡ server_base ++ b'/' ∷ c ∷ name
unfolding configure_path
configure_path-remove_base_path client_base server_base c name plain =
    ap (λ p. server_base ++ p) (remove_base_path-append client_base c name plain)

with_slash-slash : (s : Text) → (rest : Text) × (with_slash s ≡ b'/' ∷ rest)
unfolding with_slash
with_slash-slash [] = ([], refl)
with_slash-slash (c ∷ s) = elim (Bool-cases (c == b'/')) [
  | inl e ↦ (s, ground arith)
  | inr e ↦ (c ∷ s, ground arith)
]

-- Whatever the arguments are, the result begins with a slash.
pub remove_base_path-slash :
    (path base : Text) → (rest : Text) × (remove_base_path path base ≡ b'/' ∷ rest)
unfolding remove_base_path
remove_base_path-slash path base = with_slash-slash (
    if leb (length base) (length path) && starts_with base path
    then skip_separator (drop (length base) path)
    else path)
