-- ===== src/Copier/HashTable/Lookup.antt =====
-- What `get` returns after `insert`.
use advanced_c_language_proj.Base.{
  ℕ, ◌<◌, ◌≡◌, refl, ◌⊎◌, ◌≢◌, inl, inr, List, [], ◌∷◌, Option, none, some, arith, length, get_or,
  set, if◌then◌else◌, Bool-cases, Option-cases, ℕ_discrete, get_or-set_self, get_or-set_ne,
  length-set,
}
use native.Mathlib.Nat.{mod-lt}
use advanced_c_language_proj.Base.Int.{add32}
use advanced_c_language_proj.Base.Text.{Text, str_eq, str_eq_iff}
use advanced_c_language_proj.Copier.HashTable.{Node, Table, hash, bump, insert, find}

-- The buckets are as many as `size` says, and there is one.
pub record IsSized (t : Table) : Type 0 where
  pub width : length t.buckets ≡ t.size
  pub positive : 0 < t.size

-- The value that a table holds for a key, if it has the key.
abbrev pub view : Table → Text → Option ℕ
view t key = find key (get_or t.buckets (hash key t.size) [])

-- What `insert` leaves at its own key.
abbrev pub inserted : Option ℕ → ℕ → ℕ
inserted none value = value
inserted (some old) value = add32 old 1

pub hash-lt : (key : Text) (size : ℕ) → 0 < size → hash key size < size
unfolding hash
hash-lt key size h = mod-lt _ h

pub bump-eq-none : (k : Text) (chain : List Node) → find k chain ≡ none → bump k chain ≡ none
unfolding bump find
bump-eq-none k [] h = refl
bump-eq-none k (n ∷ chain) h = ground (arith, bump-eq-none k chain)

-- If the key is found, the node counts one more and every other key reads as before.
pub find-bump :
    (k q : Text) (chain : List Node) (old : ℕ)
    → find k chain ≡ some old
    → (chain' : List Node) × (bump k chain ≡ some chain')
      × (find q chain' ≡ (if str_eq k q then some (add32 old 1) else find q chain))
unfolding bump find
find-bump k q [] old h = cc
find-bump k q (n ∷ chain) old h = elim (Bool-cases (str_eq n.key k)) [
  | inl same ↦ (
    record n { value = add32 n.value 1 } ∷ chain,
    ground arith,
    ground (arith, str_eq_iff n.key k, str_eq_iff n.key q, str_eq_iff k q),
  )
  | inr other ↦
      let (chain', run, reads) = find-bump k q chain old (ground arith) in
      (
        n ∷ chain',
        ground (arith, run),
        ground (arith, reads, str_eq_iff n.key k, str_eq_iff n.key q, str_eq_iff k q),
      )
]

-- `get_or-set` as one equation.
get_or-set {ℓ} :
    {A : Type ℓ} (xs : List A) (i j : ℕ) (v d : A)
    → i < length xs
    → ((i ≡ j) × (get_or (set xs i v) j d ≡ v))
      ⊎ (get_or (set xs i v) j d ≡ get_or xs j d) × (i ≢ j)
get_or-set xs i j v d h = elim (ℕ_discrete i j) [
  | yes e ↦ inl (e, rw (← e) (get_or-set_self xs i v d h))
  | no ne ↦ inr (get_or-set_ne xs i j v d ne, ne)
]

-- After `insert` the key holds one more than before, or the given value if it was not there; every
-- other key holds what it held.
pub view-insert :
    (t : Table) (k q : Text) (value : ℕ)
    → IsSized t
    → view (insert t k value) q
      ≡ (if str_eq k q then some (inserted (view t k) value) else view t q)
unfolding insert find
view-insert t k q value sized =
    let i = hash k t.size in
    let chain = get_or t.buckets i [] in
    let inside : i < length t.buckets = rw sized.width (hash-lt k t.size sized.positive) in
    elim (Option-cases (find k chain)) [
      | inl absent ↦
          let fresh : Node = record { key = k; value = value } in
          ground (
            arith,
            absent,
            bump-eq-none k chain absent,
            str_eq_iff k q,
            get_or-set t.buckets i (hash q t.size) (fresh ∷ chain) [] inside,
          )
      | inr (old, present) ↦
          let (chain', run, reads) = find-bump k q chain old present in
          ground (
            arith,
            present,
            run,
            reads,
            str_eq_iff k q,
            get_or-set t.buckets i (hash q t.size) chain' [] inside,
          )
    ]

pub insert-IsSized : (t : Table) (k : Text) (value : ℕ) → IsSized t → IsSized (insert t k value)
unfolding insert
insert-IsSized t k value sized =
    let i = hash k t.size in
    let chain = get_or t.buckets i [] in
    elim (Option-cases (bump k chain)) [
      | inl e ↦
          let fresh : Node = record { key = k; value = value } in
          ground (arith, e, length-set t.buckets i (fresh ∷ chain))
      | inr (chain', e) ↦ ground (arith, e, length-set t.buckets i chain')
    ]
