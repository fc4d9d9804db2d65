-- ===== src/Shell/Parse/Lines.antt =====
-- HW2/terminal.c: a whole line, cut into commands and arguments.
use advanced_c_language_proj.Base.{
  ℕ, ◌<◌, ◌≡◌, ◌≢◌, ◌∙◌, refl, sym, ap, true, false, List, [], ◌∷◌, ◌++◌, some, All, All-append,
  All-map, All-weaken, map, length, length-map, take-all, arith, append_assoc,
}
use advanced_c_language_proj.Base.Text.{Text, Absent, is_space}
use advanced_c_language_proj.Shell.Parse.{max_args, trim, tokens, trim_all, parse_line}
use advanced_c_language_proj.Shell.Parse.Reading.{IsLine, read_command-IsLine}
use advanced_c_language_proj.Shell.Parse.Trimmed.{IsBlank, IsTight, trim-append, trim_blank}
use advanced_c_language_proj.Shell.Parse.Tokens.{joined, IsToken, tokens-joined}

-- A word: at least one character, none of them white space or a bar.
abbrev pub IsWord : Text → Type 0
IsWord p = (p ≢ []) × All (λ c. (is_space c ≡ false) × (c ≢ b'|')) p

-- A command as it is typed.
pub record Command : Type 0 where
  pub front : Text
  pub words : List Text
  pub back : Text

unfoldable pub typed : Command → Text
typed command = command.front ++ (joined b' ' command.words ++ command.back)

pub record IsTyped (command : Command) : Type 0 where
  pub front_blank : IsBlank command.front
  pub back_blank : IsBlank command.back
  pub words_plain : All IsWord command.words
  pub some_word : command.words ≢ []
  pub words_fit : length command.words < max_args

-- The last element of a list with a first one.
ending :
    {P : ℕ → Type 0} (c : ℕ) (s : Text)
    → All P (c ∷ s)
    → (before : Text) × (last : ℕ) × (c ∷ s ≡ before ++ last ∷ []) × P last
ending c [] h = ([], c, refl, h.0)
ending c (d ∷ s) h =
    let (before, last, e, plain) = ending d s h.1 in (c ∷ before, last, ap (λ u. c ∷ u) e, plain)

IsTight-IsWord : (p : Text) → IsWord p → IsTight p
IsTight-IsWord [] h = absurd (h.0 refl)
IsTight-IsWord (c ∷ p) h =
    let (before, last, e, plain) = ending c p h.1 in
    record {
      first = c;
      behind = p;
      front = refl;
      first_plain = h.1.0.0;
      before = before;
      last = last;
      back = e;
      last_plain = plain.0;
    }

IsTight-joined : (ps : List Text) → All IsWord ps → ps ≢ [] → IsTight (joined b' ' ps)
unfolding joined
IsTight-joined [] h some_word = absurd (some_word refl)
IsTight-joined (p ∷ []) h some_word = IsTight-IsWord p h.0
IsTight-joined (p ∷ q ∷ ps) h some_word =
    let head = IsTight-IsWord p h.0 in
    let tail = IsTight-joined (q ∷ ps) h.1 (λ e. absurd cc) in
    record {
      first = head.first;
      behind = head.behind ++ b' ' ∷ joined b' ' (q ∷ ps);
      front = ap (λ u. u ++ b' ' ∷ joined b' ' (q ∷ ps)) head.front;
      first_plain = head.first_plain;
      before = p ++ b' ' ∷ tail.before;
      last = tail.last;
      back =
          ap (λ u. p ++ b' ' ∷ u) tail.back
          ∙ sym (append_assoc p (b' ' ∷ tail.before) (tail.last ∷ []));
      last_plain = tail.last_plain;
    }

-- What a command is when it is typed again without the white space around it.
abbrev body : Command → Text
body command = joined b' ' command.words

trim-typed : (command : Command) → IsTyped command → trim (typed command) ≡ some (body command)
unfolding typed
trim-typed command h =
    trim-append command.front (body command) command.back h.front_blank
      (IsTight-joined command.words h.words_plain h.some_word) h.back_blank

trim_all-typed :
    (commands : List Command)
    → All IsTyped commands
    → trim_all (map typed commands) ≡ some (map body commands)
unfolding trim_all
trim_all-typed [] h = refl
trim_all-typed (command ∷ commands) h =
    rw (trim_all, trim-typed command h.0, trim_all-typed commands h.1) refl

IsToken-IsWord : (p : Text) → IsWord p → IsToken b' ' p
IsToken-IsWord p h = (h.0, plain p h.1)
  where
    plain : (s : Text) → All (λ c. (is_space c ≡ false) × (c ≢ b'|')) s → Absent b' ' s
    plain [] h = tt
    plain (c ∷ s) h = (ground (arith, h.0), plain s h.1)

tokens_of_bodies :
    (commands : List Command)
    → All IsTyped commands
    → map (tokens max_args b' ') (map body commands) ≡ map (λ c. c.words) commands
tokens_of_bodies [] h = refl
tokens_of_bodies (command ∷ commands) h =
    let words = command.words in
    let tokens_fit =
      tokens-joined max_args b' ' words
        (All-weaken IsWord (IsToken b' ') IsToken-IsWord words h.0.words_plain) in
    rw
      (
        tokens_fit,
        take-all words max_args (omega (arith, h.0.words_fit)),
        tokens_of_bodies commands h.1,
      )
      refl

no_bar_blank : (s : Text) → IsBlank s → Absent b'|' s
no_bar_blank =
    All-weaken (λ c. is_space c ≡ true) (λ c. c ≢ b'|') (λ c blank. ground (arith, blank))

no_bar_words : (ps : List Text) → All IsWord ps → Absent b'|' (joined b' ' ps)
unfolding joined
no_bar_words [] h = tt
no_bar_words (p ∷ []) h =
    All-weaken (λ c. (is_space c ≡ false) × (c ≢ b'|')) (λ c. c ≢ b'|') (λ c plain. plain.1) p h.0.1
no_bar_words (p ∷ q ∷ ps) h =
    All-append (λ c. c ≢ b'|') p (b' ' ∷ joined b' ' (q ∷ ps))
      (All-weaken (λ c. (is_space c ≡ false) × (c ≢ b'|')) (λ c. c ≢ b'|') (λ c plain. plain.1) p
        h.0.1)
      (omega arith, no_bar_words (q ∷ ps) h.1)

IsToken-typed : (command : Command) → IsTyped command → IsToken b'|' (typed command)
unfolding typed
IsToken-typed command h = (
  some_text,
  All-append (λ c. c ≢ b'|') command.front (body command ++ command.back)
      (no_bar_blank command.front h.front_blank)
      (All-append (λ c. c ≢ b'|') (body command) command.back
        (no_bar_words command.words h.words_plain) (no_bar_blank command.back h.back_blank)),
)
  where
    some_text : typed command ≢ []
    some_text e =
        let found : trim [] ≡ some (body command) = rw e at (trim-typed command h) in
        let nothing = trim_blank [] tt in cc

-- A line of fewer than 20 commands, with bars between them and white space around them, each of fewer
-- than 20 words with one blank between two of them, is cut into exactly these words. The line has its
-- newline at its end and nowhere else, at most 255 bytes with it, and no zero byte.
pub parse_line-joined :
    (command rest : Text) (commands : List Command)
    → All IsTyped commands
    → length commands < max_args
    → IsLine (joined b'|' (map typed commands))
    → parse_line command (joined b'|' (map typed commands) ++ rest)
      ≡ some (map (λ c. c.words) commands)
unfolding parse_line
parse_line-joined command rest commands h fit line =
    let cut =
      tokens-joined max_args b'|' (map typed commands)
        (All-map IsTyped (IsToken b'|') typed IsToken-typed commands h) in
    let all = take-all (map typed commands) max_args (omega (arith, length-map typed commands)) in
    let whole = read_command-IsLine command (joined b'|' (map typed commands)) rest line in
    rw (parse_line, whole, cut, all, trim_all-typed commands h, tokens_of_bodies commands h) refl
