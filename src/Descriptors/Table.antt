-- ===== src/Descriptors/Table.antt =====
-- A descriptor table that meets the assumptions: a function from descriptors to files, of which those
-- below 20 are used.
use advanced_c_language_proj.Base.{
  ℕ, zero, suc, ◌+◌, ◌-◌, ◌≤◌, ◌<◌, ◌≡◌, ◌≢◌, inl, inr, refl, sym, ap, Bool-cases, Option, none,
  some, ◌==◌, if◌then◌else◌, arith, Option-cases,
}
use advanced_c_language_proj.Descriptors.{Descriptors, IsLawful}

-- The first free descriptor among the `rounds` ones from `fd` on.
unfoldable pub first_free : (ℕ → Option ℕ) → ℕ → ℕ → Option ℕ
first_free s zero fd = none
first_free s (suc rounds) fd =
    let rest = first_free s rounds (fd + 1) in elim (s fd) [ none ↦ some fd | some f ↦ rest ]

abbrev pub put : ℕ → Option ℕ → (ℕ → Option ℕ) → ℕ → Option ℕ
put fd f s j = if j == fd then f else s j

unfoldable pub dup_table : ℕ → ℕ → (ℕ → Option ℕ) → Option (ℕ × (ℕ → Option ℕ))
unfolding first_free
dup_table old least s = elim (s old) [
  | none ↦ none
  | some f ↦ elim (first_free s (20 - least) least) [
    | none ↦ none
    | some fd ↦ some (fd, put fd (s old) s)
  ]
]

abbrev pub table : Descriptors
table = record {
  State = ℕ → Option ℕ;
  File = ℕ;
  look = λ s fd. s fd;
  close = λ fd s. put fd none s;
  dup2 = λ old new s. put new (s old) s;
  dup_from = dup_table;
  limit = 20;
}

first_free-eq-some :
    (s : ℕ → Option ℕ) (rounds fd j : ℕ)
    → fd ≤ j
    → j < fd + rounds
    → s j ≡ none
    → (found : ℕ) × (first_free s rounds fd ≡ some found)
unfolding first_free
first_free-eq-some s zero fd j h h' e = absurd (omega arith)
first_free-eq-some s (suc rounds) fd j h h' e = elim (Option-cases (s fd)) [
  | inl free ↦ (fd, rw (first_free, free) refl)
  | inr (f, taken) ↦
      let later : fd + 1 ≤ j = elim (Bool-cases (j == fd)) [
        | inl same ↦
            let here : j ≡ fd = ground (arith, same) in
            let both : s fd ≡ none = rw here at e in absurd (ground (arith, both, taken))
        | inr apart ↦ ground (arith, apart)
      ] in
      let (found, more) = first_free-eq-some s rounds (fd + 1) j later (omega arith) e in
      (found, rw (first_free, taken, more) refl)
]

pub first_free_lowest :
    (s : ℕ → Option ℕ) (rounds fd found : ℕ)
    → first_free s rounds fd ≡ some found
    → (fd ≤ found) × (s found ≡ none) × ((j : ℕ) → fd ≤ j → j < found → s j ≢ none)
unfolding first_free
first_free_lowest s zero fd found e = absurd (ground (arith, e))
first_free_lowest s (suc rounds) fd found e = elim (Option-cases (s fd)) [
  | inl free ↦
      let here : fd ≡ found = ground (arith, free, e) in
      (omega (arith, here), rw here at free, λ j h h'. absurd (omega (arith, here)))
  | inr (f, taken) ↦
      let later : first_free s rounds (fd + 1) ≡ some found = ground (arith, taken, e) in
      let (least, free, before) = first_free_lowest s rounds (fd + 1) found later in
      (
        omega arith,
        free,
        λ j h h' open_j. elim (Bool-cases (j == fd)) [
          | inl same ↦
              let here : j ≡ fd = ground (arith, same) in
              let both : s fd ≡ none = rw here at open_j in ground (arith, both, taken)
          | inr apart ↦ before j (ground (arith, apart)) h' open_j
        ],
      )
]

dup_table_closed : (s : ℕ → Option ℕ) (old least : ℕ) → s old ≡ none → dup_table old least s ≡ none
unfolding dup_table
dup_table_closed s old least closed = rw (dup_table, closed) refl

dup_table_free :
    (s : ℕ → Option ℕ) (old least j f : ℕ)
    → s old ≡ some f
    → least ≤ j
    → j < 20
    → s j ≡ none
    → (fd : ℕ) × (s' : ℕ → Option ℕ) × (dup_table old least s ≡ some (fd, s'))
unfolding dup_table
dup_table_free s old least j f opened h h' free =
    let (fd, found) = first_free-eq-some s (20 - least) least j h (omega arith) free in
    (
      fd,
      put fd (some f) s,
      rw (dup_table, opened, found) (ap (λ (o : Option ℕ). some (fd, put fd o s)) opened),
    )

dup_table_lowest :
    (s s' : ℕ → Option ℕ) (old least fd : ℕ)
    → dup_table old least s ≡ some (fd, s')
    → (least ≤ fd)
      × (s fd ≡ none)
      × ((j : ℕ) → least ≤ j → j < fd → s j ≢ none)
      × ((j : ℕ) → s' j ≡ (if j == fd then s old else s j))
unfolding dup_table
dup_table_lowest s s' old least fd e = elim (Option-cases (s old)) [
  | inl closed ↦ absurd (ground (arith, closed, e))
  | inr (f, opened) ↦ elim (Option-cases (first_free s (20 - least) least)) [
    | inl full ↦ absurd (ground (arith, opened, full, e))
    | inr (found, first) ↦
        let same : found ≡ fd = ground (arith, opened, first, e) in
        let table' : put found (s old) s ≡ s' = ground (arith, opened, first, e) in
        let (least', free, before) = first_free_lowest s (20 - least) least fd (rw same at first) in
        (least', free, before, λ j. rw (sym table', same) refl)
  ]
]

dup_table_limit : (s : ℕ → Option ℕ) (old least : ℕ) → 20 ≤ least → dup_table old least s ≡ none
unfolding dup_table first_free
dup_table_limit s old least h =
    let no_rounds : 20 - least ≡ 0 = omega arith in
    elim (Option-cases (s old)) [
      | inl closed ↦ rw (dup_table, closed) refl
      | inr (f, opened) ↦ rw (dup_table, opened, no_rounds) refl
    ]

pub table-IsLawful : IsLawful table
table-IsLawful = record {
  standard = omega arith;
  look-close = λ s fd j. refl;
  look-dup2 = λ s old new j f opened below. rw opened refl;
  dup_from_closed = dup_table_closed;
  dup_from_limit = dup_table_limit;
  dup_from_free = dup_table_free;
  dup_from_lowest = dup_table_lowest;
}
