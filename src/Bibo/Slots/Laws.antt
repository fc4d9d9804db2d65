-- ===== src/Bibo/Slots/Laws.antt =====
-- Slots are taken and freed.
use advanced_c_language_proj.Base.{
  ℕ, zero, suc, ◌+◌, ◌≤◌, ◌≡◌, ◌≢◌, ◌↔◌, refl, sym, ◌∙◌, List, [], ◌∷◌, none, some, ◌==◌,
  if◌then◌else◌, arith, length, length-replicate, Bool-cases, Option-cases, inl, inr, All,
}
use advanced_c_language_proj.Bibo.Slots.{free_slots, add_client, free_slot, killed}

-- The number of slots that are taken.
unfoldable pub taken : List ℕ → ℕ
taken [] = 0
taken (c ∷ slots) = (if c == 0 then 0 else 1) + taken slots

pub taken-le : (slots : List ℕ) → taken slots ≤ length slots
unfolding taken
taken-le [] = omega arith
taken-le (c ∷ slots) = ground (arith, taken-le slots)

pub add_client-none :
    (pid : ℕ) (slots : List ℕ) → add_client pid slots ≡ none → taken slots ≡ length slots
unfolding add_client taken
add_client-none pid [] h = refl
add_client-none pid (c ∷ slots) h = elim (Option-cases (add_client pid slots)) [
  | inl e ↦ ground (arith, e, add_client-none pid slots e)
  | inr (r, e) ↦ ground (arith, e)
]

add_client-taken_all :
    (pid : ℕ) (slots : List ℕ) → taken slots ≡ length slots → add_client pid slots ≡ none
unfolding add_client taken
add_client-taken_all pid [] h = refl
add_client-taken_all pid (c ∷ slots) h =
    ground (arith, taken-le slots, add_client-taken_all pid slots)

-- A client is refused exactly when every slot is taken.
pub add_client-eq-none :
    (pid : ℕ) (slots : List ℕ) → (add_client pid slots ≡ none) ↔ (taken slots ≡ length slots)
add_client-eq-none pid slots = (add_client-none pid slots, add_client-taken_all pid slots)

-- An accepted client takes one slot that was free, below which every slot is taken.
pub add_client-some :
    (pid : ℕ) (slots slots' : List ℕ)
    → pid ≢ 0
    → add_client pid slots ≡ some slots'
    → (length slots' ≡ length slots) × (taken slots' ≡ taken slots + 1)
unfolding add_client taken
add_client-some pid [] slots' ne h = cc
add_client-some pid (c ∷ slots) slots' ne h = elim (Option-cases (add_client pid slots)) [
  | inl e ↦ ground (arith, e)
  | inr (r, e) ↦ ground (arith, e, add_client-some pid slots r ne e)
]

-- When the accepted client quits its slot is free again and the others are as before, if its process
-- id stood in no other slot.
pub free_slot-add_client :
    (pid : ℕ) (slots slots' : List ℕ)
    → pid ≢ 0
    → All (λ c. c ≢ pid) slots
    → add_client pid slots ≡ some slots'
    → free_slot pid slots' ≡ slots
unfolding add_client free_slot
free_slot-add_client pid [] slots' ne absent h = cc
free_slot-add_client pid (c ∷ slots) slots' ne absent h =
    elim (Option-cases (add_client pid slots)) [
      | inl e ↦ ground (arith, e)
      | inr (r, e) ↦ ground (arith, e, free_slot-add_client pid slots r ne absent.1 e)
    ]

pub length-free_slot : (pid : ℕ) (slots : List ℕ) → length (free_slot pid slots) ≡ length slots
unfolding free_slot
length-free_slot pid [] = refl
length-free_slot pid (c ∷ slots) = ground (arith, length-free_slot pid slots)

pub taken-free_slot : (pid : ℕ) (slots : List ℕ) → taken (free_slot pid slots) ≤ taken slots
unfolding free_slot taken
taken-free_slot pid [] = omega arith
taken-free_slot pid (c ∷ slots) = ground (arith, taken-free_slot pid slots)

pub taken-free_slots : (n : ℕ) → taken (free_slots n) ≡ 0
unfolding free_slots taken
taken-free_slots zero = refl
taken-free_slots (suc n) = ground (arith, taken-free_slots n)

-- Every slot from index `n` on is free.
abbrev pub IsClear : ℕ → List ℕ → Type 0
IsClear n [] = Unit
IsClear zero (c ∷ slots) = (c ≡ 0) × IsClear zero slots
IsClear (suc n) (c ∷ slots) = IsClear n slots

pub IsClear-free_slots : (n k : ℕ) → IsClear k (free_slots n)
unfolding free_slots
IsClear-free_slots zero k = tt
IsClear-free_slots (suc n) zero = (refl, IsClear-free_slots n zero)
IsClear-free_slots (suc n) (suc k) = IsClear-free_slots n k

pub IsClear-suc : (n : ℕ) (slots : List ℕ) → IsClear n slots → IsClear (suc n) slots
IsClear-suc n [] h = tt
IsClear-suc zero (c ∷ []) h = tt
IsClear-suc zero (c ∷ d ∷ slots) h = h.1
IsClear-suc (suc n) (c ∷ slots) h = IsClear-suc n slots h

pub IsClear-free_slot :
    (n pid : ℕ) (slots : List ℕ) → IsClear n slots → IsClear n (free_slot pid slots)
unfolding free_slot
IsClear-free_slot n pid [] h = tt
IsClear-free_slot zero pid (c ∷ slots) h = ground (arith, IsClear-free_slot zero pid slots h.1)
IsClear-free_slot (suc n) pid (c ∷ slots) h = elim (Bool-cases (c == pid)) [
  | inl e ↦ rw e h
  | inr e ↦ rw e (IsClear-free_slot n pid slots h)
]

pub IsClear-add_client :
    (n pid : ℕ) (slots slots' : List ℕ)
    → IsClear n slots
    → add_client pid slots ≡ some slots'
    → IsClear (suc n) slots'
unfolding add_client
IsClear-add_client n pid [] slots' h e = cc
IsClear-add_client zero pid (c ∷ slots) slots' h e =
    let same : slots' ≡ pid ∷ slots = ground (arith, h.0) in rw same h.1
IsClear-add_client (suc n) pid (c ∷ slots) slots' h e = elim (Bool-cases (c == 0)) [
  | inl free ↦ let same : slots' ≡ pid ∷ slots = ground arith in rw same (IsClear-suc n slots h)
  | inr used ↦ elim (Option-cases (add_client pid slots)) [
    | inl f ↦ absurd (ground (arith, f))
    | inr (r, f) ↦
        let same : slots' ≡ c ∷ r = ground (arith, f) in
        rw same (IsClear-add_client n pid slots r h f)
  ]
]

killed-all_free : (m : ℕ) (slots : List ℕ) → IsClear zero slots → killed m slots ≡ []
unfolding killed
killed-all_free m [] h = refl
killed-all_free zero (c ∷ slots) h = refl
killed-all_free (suc m) (c ∷ slots) h = ground (arith, killed-all_free m slots h.1)

-- Where the slots from `n` on are free, the loop over the first `n` slots reaches every client.
pub killed-IsClear :
    (n m : ℕ) (slots : List ℕ)
    → IsClear n slots
    → n ≤ m
    → killed m slots ≡ killed (length slots) slots
unfolding killed
killed-IsClear n m [] h le = refl
killed-IsClear zero m (c ∷ slots) h le =
    killed-all_free m (c ∷ slots) h ∙ sym (killed-all_free (length (c ∷ slots)) (c ∷ slots) h)
killed-IsClear (suc n) zero (c ∷ slots) h le = absurd (omega arith)
killed-IsClear (suc n) (suc m) (c ∷ slots) h le = ground (arith, killed-IsClear n m slots h)

pub length-free_slots : (n : ℕ) → length (free_slots n) ≡ n
unfolding free_slots
length-free_slots n = length-replicate n 0
