-- ===== src/Copier/Setup.antt =====
-- HW5/program.c: the choice of the destination and the elapsed time in `main`.
use advanced_c_language_proj.Base.{
  ℕ, ◌+◌, ◌-◌, ◌*◌, ◌≤◌, ◌<◌, ◌≡◌, ◌≢◌, inl, inr, refl, ap, [], ◌∷◌, ◌++◌, Option, none, some,
  if◌then◌else◌, ltb, take, take-all, length, length-append, Bool-cases, arith,
}
use advanced_c_language_proj.Base.Int.{ℤ, pos, sub_ℕ}
use advanced_c_language_proj.Base.Text.{Text, codes, Absent, after_last-append}
use advanced_c_language_proj.Copier.CopyFd.{buf_size}
use advanced_c_language_proj.Copier.FileNames.{get_last_folder, get_last_folder_lem}

-- What a call of `mkdir` comes to.
pub data Mkdir : Type 0 where
  made exists failed : Mkdir

-- `"%s"`, with what glibc prints for NULL.
unfoldable pub printed : Option Text → Text
printed none = codes "(null)"
printed (some s) = s

-- `dest_path`, for what the first `mkdir` gives and the second would give. `none`: `main` returns.
unfoldable pub choose_destination : Text → Text → Mkdir → Mkdir → Option Text
choose_destination source_dir dest_dir made second = some (take (buf_size - 1) dest_dir)
choose_destination source_dir dest_dir failed second = none
choose_destination source_dir dest_dir exists failed = none
choose_destination source_dir dest_dir exists made =
    some (take (buf_size - 1) (dest_dir ++ b'/' ∷ printed (get_last_folder (some source_dir))))
choose_destination source_dir dest_dir exists exists =
    some (take (buf_size - 1) (dest_dir ++ b'/' ∷ printed (get_last_folder (some source_dir))))

-- `seconds` and `microseconds`, from the two results of `gettimeofday`.
unfoldable pub elapsed : ℕ × ℕ → ℕ × ℕ → ℤ × ℤ
elapsed start end =
    if ltb end.1 start.1
    then (sub_ℕ end.0 (start.0 + 1), sub_ℕ (end.1 + 1000000) start.1)
    else (sub_ℕ end.0 start.0, sub_ℕ end.1 start.1)

get_last_folder-append :
    (dest folder : Text)
    → Absent b'/' folder
    → get_last_folder (some (dest ++ b'/' ∷ folder)) ≡ some folder
unfolding get_last_folder
get_last_folder-append [] folder free = ground (arith, after_last-append b'/' [] folder free)
get_last_folder-append (c ∷ s) folder free =
    ground (arith, after_last-append b'/' (c ∷ s) folder free)

-- A destination that exists is not written into itself: the copy goes to a directory in it that has the
-- last name of the path of the source, when that path is not empty and the new path fits.
pub choose_destination-last_folder :
    (c : ℕ) (s dest_dir : Text) (second : Mkdir)
    → second ≢ failed
    → length (dest_dir ++ b'/' ∷ (c ∷ s)) < buf_size
    → (folder : Text) × (get_last_folder (some (c ∷ s)) ≡ some folder)
      × (choose_destination (c ∷ s) dest_dir exists second ≡ some (dest_dir ++ b'/' ∷ folder))
      × (get_last_folder (some (dest_dir ++ b'/' ∷ folder)) ≡ some folder)
unfolding choose_destination printed
choose_destination-last_folder c s dest_dir second works fits =
    let (folder, last, free, whence) = get_last_folder_lem c s in
    let short : length folder ≤ length (c ∷ s) = elim whence [
      | inl e ↦ ground (arith, e)
      | inr (front, e) ↦
          let size : length (c ∷ s) ≡ length (front ++ b'/' ∷ folder) = ap (λ u. length u) e in
          omega (arith, size, length-append front (b'/' ∷ folder))
    ] in
    let fits' : length (dest_dir ++ b'/' ∷ folder) ≤ 1023 =
      omega
        (arith, length-append dest_dir (b'/' ∷ folder), length-append dest_dir (b'/' ∷ (c ∷ s))) in
    let whole = take-all (dest_dir ++ b'/' ∷ folder) 1023 fits' in
    let chosen : choose_destination (c ∷ s) dest_dir exists second
        ≡ some (dest_dir ++ b'/' ∷ folder) =
      destination second works folder last whole in
    (folder, last, chosen, get_last_folder-append dest_dir folder free)
  where
    destination :
        (second : Mkdir)
        → second ≢ failed
        → (folder : Text) → get_last_folder (some (c ∷ s)) ≡ some folder
        → take 1023 (dest_dir ++ b'/' ∷ folder) ≡ dest_dir ++ b'/' ∷ folder
        → choose_destination (c ∷ s) dest_dir exists second ≡ some (dest_dir ++ b'/' ∷ folder)
    destination made works folder last whole = rw (last, whole) refl
    destination exists works folder last whole = rw (last, whole) refl
    destination failed works folder last whole = absurd (works refl)

-- Between two times, the later second, the two numbers are the normalised difference.
pub elapsed_lem :
    (start end : ℕ × ℕ)
    → start.1 < 1000000
    → end.1 < 1000000
    → start.0 * 1000000 + start.1 ≤ end.0 * 1000000 + end.1
    → (s : ℕ) × (us : ℕ) × (elapsed start end ≡ (pos s, pos us))
      × (us < 1000000)
      × (start.0 * 1000000 + start.1 + (s * 1000000 + us) ≡ end.0 * 1000000 + end.1)
unfolding elapsed
elapsed_lem start end small small' ordered = elim (Bool-cases (ltb end.1 start.1)) [
  | inl e ↦ (
    end.0 - (start.0 + 1),
    end.1 + 1000000 - start.1,
    ground (arith, e, ordered, small),
    ground (arith, e, small),
    ground (arith, e, ordered, small),
  )
  | inr e ↦ (
    end.0 - start.0,
    end.1 - start.1,
    ground (arith, e, ordered, small'),
    omega arith,
    ground (arith, e, ordered, small'),
  )
]
