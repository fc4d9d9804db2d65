-- ===== src/Shell/Parse/Tokens.antt =====
-- HW2/terminal.c: the loops over `strtok`.
use advanced_c_language_proj.Base.{
  ℕ, zero, suc, ◌+◌, ◌≡◌, ◌≢◌, refl, List, [], ◌∷◌, ◌++◌, some, All, length, take, take-all, arith,
  length-append, min,
}
use advanced_c_language_proj.Base.Text.{
  Text, Absent, skip, next_token, next_token-single, scan-append,
}
use advanced_c_language_proj.Shell.Parse.{tokens, written}

-- Texts with one delimiter between them.
unfoldable pub joined : ℕ → List Text → Text
joined delim [] = []
joined delim (p ∷ []) = p
joined delim (p ∷ q ∷ ps) = p ++ delim ∷ joined delim (q ∷ ps)

-- What `strtok` can return.
abbrev pub IsToken : ℕ → Text → Type 0
IsToken delim p = (p ≢ []) × Absent delim p

next_token-append :
    (d : ℕ) (p rest : Text) → IsToken d p → next_token d (p ++ d ∷ rest) ≡ some (p, rest)
unfolding next_token skip
next_token-append d [] rest h = absurd (h.0 refl)
next_token-append d (c ∷ p) rest h =
    let found =
      scan-append (length (p ++ d ∷ rest)) d (c ∷ p) rest
        (omega (arith, length-append p (d ∷ rest))) h.1 in
    ground (arith, found, h.1.0)

-- At the end of the text there is no further token.
tokens_nil : (limit d : ℕ) → tokens limit d [] ≡ []
unfolding tokens next_token skip
tokens_nil zero d = refl
tokens_nil (suc limit) d = refl

written_nil : (limit d : ℕ) → written limit d [] ≡ 1
unfolding written next_token skip
written_nil zero d = refl
written_nil (suc limit) d = refl

next_token_last : (d : ℕ) (p : Text) → IsToken d p → next_token d p ≡ some (p, [])
next_token_last d [] h = absurd (h.0 refl)
next_token_last d (c ∷ p) h = next_token-single d c p h.1

-- The loop over strtok finds the tokens of a text again, as many as the array has room for.
pub tokens-joined :
    (limit d : ℕ) (ps : List Text)
    → All (IsToken d) ps
    → tokens limit d (joined d ps) ≡ take limit ps
unfolding tokens joined
tokens-joined zero d ps h = refl
tokens-joined (suc limit) d [] h = tokens_nil (suc limit) d
tokens-joined (suc limit) d (p ∷ []) h =
    rw
      (
        tokens,
        next_token_last d p h.0,
        tokens_nil limit d,
        take-all {A = Text} [] limit (omega arith),
      )
      refl
tokens-joined (suc limit) d (p ∷ q ∷ ps) h =
    rw (tokens, next_token-append d p (joined d (q ∷ ps)) h.0, tokens-joined limit d (q ∷ ps) h.1)
      refl

-- The loop over strtok writes one element more than it keeps tokens: with as many tokens as the array
-- has room for, or more, it writes one element behind the end of the array.
pub written-joined :
    (limit d : ℕ) (ps : List Text)
    → All (IsToken d) ps
    → written limit d (joined d ps) ≡ min limit (length ps) + 1
unfolding written joined
written-joined zero d ps h = omega arith
written-joined (suc limit) d [] h = rw (written_nil (suc limit) d) (omega arith)
written-joined (suc limit) d (p ∷ []) h =
    rw (written, next_token_last d p h.0, written_nil limit d) (omega arith)
written-joined (suc limit) d (p ∷ q ∷ ps) h =
    rw (written, next_token-append d p (joined d (q ∷ ps)) h.0, written-joined limit d (q ∷ ps) h.1)
      (omega arith)
