-- ===== src/Append/Main.antt =====
-- HW1/appendMeMore.c: one process, with what its calls come to: `main` and the whole of
-- `write_bytes_to_file`.
use advanced_c_language_proj.Base.{
  ℕ, zero, suc, ◌+◌, ◌-◌, ◌^◌, ◌≤◌, ◌≡◌, ◌⊎◌, ◌∙◌, inl, inr, refl, sym, ap, Bool, true, false, not,
  ◌&&◌, List, [], ◌∷◌, ◌++◌, append_assoc, append-nil, Option, none, some, ◌==◌, if◌then◌else◌,
  length, replicate, arith, Bool-cases,
}
use advanced_c_language_proj.Base.Text.{Text}
use advanced_c_language_proj.Append.{byte, write_at}

-- Which calls succeed: `open`, in each round `lseek` and `write`, and `close`.
pub record Calls : Type 0 where
  pub opens : Bool
  pub seeks : ℕ → Bool
  pub writes : ℕ → Bool
  pub closes : Bool

-- The loop from round `i` on: whether it comes to its end, and the file. Both with O_APPEND and behind
-- `lseek`, a single process writes to the end.
unfoldable pub write_loop : Bool → Calls → ℕ → ℕ → Text → Bool × Text
unfolding write_at
write_loop third_arg calls zero i file = (true, file)
write_loop third_arg calls (suc rounds) i file =
    let rest = write_loop third_arg calls rounds (i + 1) (write_at (length file) file) in
    if third_arg && not (calls.seeks i)
    then (false, file)
    else (if calls.writes i then rest else (false, file))

-- What `write_bytes_to_file` returns, and the file.
unfoldable pub write_bytes_to_file : ℕ → Bool → Calls → Text → ℕ × Text
unfolding write_loop
write_bytes_to_file num_bytes third_arg calls file =
    let (done, file') = write_loop third_arg calls num_bytes 0 file in
    if calls.opens then (if done && calls.closes then 0 else 1, file') else (1, file)

-- `argv[3][0] == 'x'`
unfoldable pub is_x : Text → Bool
is_x [] = false
is_x (c ∷ s) = c == b'x'

-- `main` on the arguments behind the name of the program, with the value that `atoi` gives for the
-- second one, or 0 for a negative one, for which there are no rounds either.
unfoldable pub main : List Text → ℕ → Calls → Text → ℕ × Text
unfolding write_bytes_to_file is_x
main [] num_bytes calls file = (1, file)
main (filename ∷ []) num_bytes calls file = (1, file)
main (filename ∷ number ∷ []) num_bytes calls file =
    let (result, file') = write_bytes_to_file num_bytes false calls file in
    (if result == 2 ^ 32 - 1 then 1 else 0, file')
main (filename ∷ number ∷ third ∷ []) num_bytes calls file =
    let (result, file') = write_bytes_to_file num_bytes (is_x third) calls file in
    (if result == 2 ^ 32 - 1 then 1 else 0, file')
main (filename ∷ number ∷ third ∷ more ∷ args) num_bytes calls file = (1, file)

write_at_end : (file : Text) → write_at (length file) file ≡ file ++ byte ∷ []
unfolding write_at
write_at_end file =
    let no_gap : length file - length file ≡ 0 = omega arith in rw no_gap (ground arith)

write_loop_lem :
    (third_arg : Bool) (calls : Calls) (rounds i : ℕ) (file : Text)
    → (k : ℕ) × (k ≤ rounds)
      × ((write_loop third_arg calls rounds i file).1 ≡ file ++ replicate k byte)
      × (((write_loop third_arg calls rounds i file).0 ≡ false) ⊎ (k ≡ rounds))
unfolding write_loop
write_loop_lem third_arg calls zero i file = (0, omega arith, sym (append-nil file), inr refl)
write_loop_lem third_arg calls (suc rounds) i file =
    let file' = write_at (length file) file in
    let (k, below, grown, ends) = write_loop_lem third_arg calls rounds (i + 1) file' in
    let one_more : file' ++ replicate k byte ≡ file ++ byte ∷ replicate k byte =
      ap (λ f. f ++ replicate k byte) (write_at_end file)
      ∙ append_assoc file (byte ∷ []) (replicate k byte) in
    elim (Bool-cases (third_arg && not (calls.seeks i))) [
      | inl failed ↦ (
        0,
        omega arith,
        rw (write_loop, failed) (sym (append-nil file)),
        inl (rw (write_loop, failed) refl),
      )
      | inr seeks ↦ elim (Bool-cases (calls.writes i)) [
        | inl writes ↦ (
          suc k,
          omega (arith, below),
          rw (write_loop, seeks, writes) (grown ∙ one_more),
          elim ends [
            | inl stopped ↦ inl (rw (write_loop, seeks, writes) stopped)
            | inr all ↦ inr (omega (arith, all))
          ],
        )
        | inr failed ↦ (
          0,
          omega arith,
          rw (write_loop, seeks, failed) (sym (append-nil file)),
          inl (rw (write_loop, seeks, failed) refl),
        )
      ]
    ]

write_bytes_to_file_lem :
    (num_bytes : ℕ) (third_arg : Bool) (calls : Calls) (file : Text)
    → let (result, file') = write_bytes_to_file num_bytes third_arg calls file in
      (k : ℕ) × (k ≤ num_bytes)
      × (file' ≡ file ++ replicate k byte)
      × ((result ≡ 1) ⊎ ((result ≡ 0) × (k ≡ num_bytes)))
unfolding write_bytes_to_file
write_bytes_to_file_lem num_bytes third_arg calls file =
    let (k, below, grown, ends) = write_loop_lem third_arg calls num_bytes 0 file in
    elim (Bool-cases calls.opens) [
      | inr failed ↦
          (0, omega arith, ground (arith, failed, append-nil file), ground (arith, failed))
      | inl opens ↦ (k, below, ground (arith, opens, grown), ground (arith, opens, ends))
    ]

-- The third argument, if there is one.
abbrev pub more_args : Option Text → List Text
more_args none = []
more_args (some third) = third ∷ []

abbrev pub uses_lseek : Option Text → Bool
uses_lseek none = false
uses_lseek (some third) = is_x third

-- With two or three arguments main returns 0 whatever its calls come to. A process alone puts bytes
-- behind the file, at most as many as it is asked for, and either write_bytes_to_file returns 1, which
-- main takes for success, or it returns 0 and has put all of them.
pub main-write_bytes_to_file :
    (filename number : Text) (third : Option Text) (num_bytes : ℕ) (calls : Calls) (file : Text)
    → let third_arg = uses_lseek third in
      let (code, file') = main (filename ∷ number ∷ more_args third) num_bytes calls file in
      (code ≡ 0)
      × (k : ℕ) × (k ≤ num_bytes)
      × (file' ≡ file ++ replicate k byte)
      × (((write_bytes_to_file num_bytes third_arg calls file).0 ≡ 1)
          ⊎ (((write_bytes_to_file num_bytes third_arg calls file).0 ≡ 0) × (k ≡ num_bytes)))
unfolding main
main-write_bytes_to_file filename number none num_bytes calls file =
    let (k, below, grown, ends) = write_bytes_to_file_lem num_bytes false calls file in
    (ground (arith, ends), k, below, grown, ends)
main-write_bytes_to_file filename number (some text) num_bytes calls file =
    let (k, below, grown, ends) = write_bytes_to_file_lem num_bytes (is_x text) calls file in
    (ground (arith, ends), k, below, grown, ends)
