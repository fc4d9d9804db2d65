-- ===== src/BibakBox/Updates/Reported.antt =====
-- Final_HW6/BibakBOXClient.c: which file `check_update` reports.
use advanced_c_language_proj.Base.{
  ℕ, zero, suc, ◌+◌, ◌≤◌, ◌<◌, ◌≡◌, ◌≢◌, ◌⊎◌, inl, inr, Bool, true, false, List, [], ◌∷◌, none,
  some, ◌==◌, ltb, take, length, get_or-set_ne, get_or, arith, Bool-cases, Option-cases, All, not,
  ap, ◌&&◌,
}
use advanced_c_language_proj.Base.Text.{Text}
use advanced_c_language_proj.BibakBox.Tracking.{Info}
use advanced_c_language_proj.BibakBox.Updates.{
  State, missing, unknown, modified, Files, no_info, set_time, check_from, check_update,
}
use advanced_c_language_proj.BibakBox.Updates.Kept.{
  State-cases, check_from-lt, IsValid, check_from-some,
}

-- A file is up to date when nothing has changed it since the time that is kept of it, and a file
-- without a time is only looked at.
abbrev pub IsUpToDate : (Text → State) → Info → Type 0
IsUpToDate state info =
    (t : ℕ)
    → state info.filepath ≡ modified t
    → info.last_modified_time ≢ 0
    → t ≤ info.last_modified_time

set_time-above :
    (i k time : ℕ) (files : Files)
    → i < k
    → get_or (set_time i time files).slots k no_info ≡ get_or files.slots k no_info
unfolding set_time
set_time-above i k time files above =
    get_or-set_ne files.slots i k
      (record (get_or files.slots i no_info) { last_modified_time = time }) no_info (omega arith)

check_from-none :
    (state : Text → State) (rounds i k : ℕ) (files : Files)
    → ((j : ℕ) → i ≤ j → j < i + rounds → state (get_or files.slots j no_info).filepath ≢ missing)
    → (check_from state rounds i files).0 ≡ none
    → i ≤ k
    → k < i + rounds
    → IsUpToDate state (get_or files.slots k no_info)
unfolding check_from
check_from-none state zero i k files there e low high = absurd (omega arith)
check_from-none state (suc rounds) i k files there e low high =
    let info = get_or files.slots i no_info in
    let there' =
      λ (j : ℕ) (l : i + 1 ≤ j) (h : j < i + 1 + rounds). there j (omega arith) (omega arith) in
    elim (State-cases (state info.filepath)) [
      | inl m ↦ absurd (there i (omega arith) (omega arith) m)
      | inr (inl m) ↦ λ t' m' nz. elim (Bool-cases (k == i)) [
        | inl s ↦
            let same : k ≡ i = ground (arith, s) in
            let m'' = rw same at m' in absurd (ground (arith, m, m''))
        | inr apart ↦
            check_from-none state rounds (i + 1) k files there' (ground (arith, m, e))
              (ground (arith, apart)) (omega arith) t' m' nz
      ]
      | inr (inr (t, m)) ↦ λ t' m' nz. elim (Bool-cases (k == i)) [
        | inl s ↦
            let same : k ≡ i = ground (arith, s) in
            let m'' = rw same at m' in
            let nz' = rw same at nz in rw same (ground (arith, m, m'', nz', e))
        | inr apart ↦
            let above : i < k = ground (arith, apart) in
            let set_there : (j : ℕ)
                → i + 1 ≤ j
                → j < i + 1 + rounds
                → state (get_or (set_time i t files).slots j no_info).filepath ≢ missing =
              λ j l h. rw (set_time-above i j t files (omega arith)) (there' j l h) in
            let kept = set_time-above i k t files above in
            elim (Bool-cases (info.last_modified_time == 0)) [
              | inl first ↦
                  let later =
                    check_from-none state rounds (i + 1) k (set_time i t files) set_there
                      (ground (arith, m, e, first)) (omega arith) (omega arith) in
                  let later' = rw kept at later in later' t' m' nz
              | inr known ↦
                  check_from-none state rounds (i + 1) k files there' (ground (arith, m, e, known))
                    (omega arith) (omega arith) t' m' nz
            ]
      ]
    ]

-- What check_update should look for, as a test: the file opens, has a time, and has changed since.
unfoldable pub has_changed : (Text → State) → Info → Bool
has_changed state info = elim (state info.filepath) [
  | missing ↦ false
  | unknown ↦ false
  | modified t ↦ not (info.last_modified_time == 0) && ltb info.last_modified_time t
]

check_from-has_changed :
    (state : Text → State) (rounds i k : ℕ) (files : Files)
    → ((j : ℕ) → i ≤ j → j < i + rounds → state (get_or files.slots j no_info).filepath ≢ missing)
    → (check_from state rounds i files).0 ≡ some k
    → (i ≤ k) × (has_changed state (get_or files.slots k no_info) ≡ true)
unfolding check_from has_changed
check_from-has_changed state zero i k files there e = absurd cc
check_from-has_changed state (suc rounds) i k files there e =
    let info = get_or files.slots i no_info in
    let there' =
      λ (j : ℕ) (l : i + 1 ≤ j) (h : j < i + 1 + rounds). there j (omega arith) (omega arith) in
    elim (State-cases (state info.filepath)) [
      | inl m ↦ absurd (there i (omega arith) (omega arith) m)
      | inr (inl m) ↦
          let (above, changed) =
            check_from-has_changed state rounds (i + 1) k files there' (ground (arith, m, e)) in
          (omega arith, changed)
      | inr (inr (t, m)) ↦ elim (Bool-cases (info.last_modified_time == 0)) [
        | inl first ↦
            let set_there : (j : ℕ)
                → i + 1 ≤ j
                → j < i + 1 + rounds
                → state (get_or (set_time i t files).slots j no_info).filepath ≢ missing =
              λ j l h. rw (set_time-above i j t files (omega arith)) (there' j l h) in
            let (above, changed) =
              check_from-has_changed state rounds (i + 1) k (set_time i t files) set_there
                (ground (arith, m, e, first)) in
            (omega arith, rw (set_time-above i k t files (omega arith)) at changed)
        | inr known ↦ elim (Bool-cases (ltb info.last_modified_time t)) [
          | inl newer ↦
              let here : i ≡ k = ground (arith, m, e, known, newer) in
              let changed : has_changed state info ≡ true = ground (arith, m, known, newer) in
              (omega arith, rw here at changed)
          | inr older ↦
              let (above, changed) =
                check_from-has_changed state rounds (i + 1) k files there'
                  (ground (arith, m, e, known, older)) in
              (omega arith, changed)
        ]
      ]
    ]

IsUpToDate-has_changed :
    (state : Text → State) (info : Info) → IsUpToDate state info → has_changed state info ≡ false
unfolding has_changed
IsUpToDate-has_changed state info h = elim (State-cases (state info.filepath)) [
  | inl m ↦ ground (arith, m)
  | inr (inl m) ↦ ground (arith, m)
  | inr (inr (t, m)) ↦ elim (Bool-cases (info.last_modified_time == 0)) [
    | inl z ↦ ground (arith, m, z)
    | inr z ↦ ground (arith, m, z, h t m (ground (arith, z)))
  ]
]

All-take :
    (P : Info → Type 0) (infos : List Info) (n : ℕ)
    → n ≤ length infos
    → ((k : ℕ) → k < n → P (get_or infos k no_info))
    → All P (take n infos)
All-take P infos zero h each = tt
All-take P [] (suc n) h each = tt
All-take P (info ∷ infos) (suc n) h each =
    (each 0 (omega arith), All-take P infos n (omega arith) (λ k l. each (suc k) (omega arith)))

All-get_or :
    (P : Info → Type 0) (infos : List Info) (n k : ℕ)
    → k < n
    → n ≤ length infos
    → All P (take n infos)
    → P (get_or infos k no_info)
All-get_or P infos zero k l fits h = absurd (omega arith)
All-get_or P [] (suc n) k l fits h = absurd (omega arith)
All-get_or P (info ∷ infos) (suc n) zero l fits h = h.0
All-get_or P (info ∷ infos) (suc n) (suc k) l fits h =
    All-get_or P infos n k (omega arith) (omega arith) h.1

-- check_update reports nothing when none of the first `count` files has changed since the time that is
-- kept of it. Otherwise it reports one of the first `count` files, and no other, which has changed
-- since that time, and keeps its new time. The array has room for `count` files, and each of them opens or is not found by `stat`.
pub check_update_lem :
    (state : Text → State) (n count : ℕ) (files : Files)
    → IsValid n files
    → count ≤ n
    → All (λ info. state info.filepath ≢ missing) (take count files.slots)
    → let (index, files') = check_update state count files in
      ((index ≡ none) × All (λ info. has_changed state info ≡ false) (take count files.slots))
      ⊎ ((k : ℕ) × (index ≡ some k)
          × (k < count)
          × (has_changed state (get_or files.slots k no_info) ≡ true)
          × (state (get_or files'.slots k no_info).filepath
              ≡ modified (get_or files'.slots k no_info).last_modified_time))
unfolding check_update
check_update_lem state n count files v fits there =
    let r = check_from state count 0 files in
    let opens : (j : ℕ)
        → 0 ≤ j
        → j < 0 + count
        → state (get_or files.slots j no_info).filepath ≢ missing =
      λ j l h.
        All-get_or (λ info. state info.filepath ≢ missing) files.slots count j (omega arith)
          (omega (arith, v.room)) there in
    elim (Option-cases r.0) [
      | inl e ↦ inl (
        e,
        All-take (λ info. has_changed state info ≡ false) files.slots count (omega (arith, v.room))
            (λ k l.
              IsUpToDate-has_changed state (get_or files.slots k no_info)
                (check_from-none state count 0 k files opens e (omega arith) (omega arith))),
      )
      | inr (k, e) ↦
          let (_, below) = check_from-lt state count 0 k files e in
          inr (
            k,
            e,
            omega arith,
            (check_from-has_changed state count 0 k files opens e).1,
            check_from-some state n count 0 k files r.1 v (omega arith) (ap (λ o. (o, r.1)) e),
          )
    ]
