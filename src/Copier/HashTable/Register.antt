-- ===== src/Copier/HashTable/Register.antt =====
-- How a registration changes the table: its sums, its printed lines and its count.
use advanced_c_language_proj.Base.{
  ℕ, ◌+◌, ◌^◌, ◌<◌, ◌≤◌, ◌≡◌, refl, ap, inl, inr, Bool, true, List, [], ◌∷◌, map, none, some, arith,
  length, get_or, set, flatten, if◌then◌else◌, Bool-cases, Option-cases,
}
use advanced_c_language_proj.Base.Text.{Text, str_eq, str_eq_iff}
use advanced_c_language_proj.Copier.HashTable.{
  Node, Table, hash, find, bump, get, insert, register, register_all,
}
use advanced_c_language_proj.Copier.HashTable.Lookup.{IsSized, hash-lt, bump-eq-none, find-bump}
use advanced_c_language_proj.Copier.HashTable.Measure.{measure, measure-flatten-set}
use advanced_c_language_proj.Copier.HashTable.Counts.{register-IsSized}

-- The value of a node whose key passes a test, and 1 for each such node.
abbrev pub valued : (Text → Bool) → Node → ℕ
valued p n = if p n.key then n.value else 0

abbrev pub one_each : (Text → Bool) → Node → ℕ
one_each p n = if p n.key then 1 else 0

abbrev pub every : Text → Bool
every key = true

abbrev pub is_key : Text → Text → Bool
is_key q key = str_eq key q

abbrev pub home_chain : Table → Text → List Node
home_chain t k = get_or t.buckets (hash k t.size) []

valued-bump :
    (p : Text → Bool) (k : Text) (chain chain' : List Node)
    → measure (valued every) chain + 1 < 2 ^ 32
    → bump k chain ≡ some chain'
    → measure (valued p) chain' ≡ measure (valued p) chain + (if p k then 1 else 0)
unfolding bump measure
valued-bump p k [] chain' small h = cc
valued-bump p k (n ∷ chain) chain' small h = elim (Bool-cases (str_eq n.key k)) [
  | inl same ↦
      let e : n.key ≡ k = (str_eq_iff n.key k).0 same in
      let e' : p n.key ≡ p k = ap p e in ground (arith, same, e')
  | inr other ↦ elim (Option-cases (bump k chain)) [
    | inl e ↦ ground (arith, e)
    | inr (c, e) ↦ ground (arith, e, valued-bump p k chain c)
  ]
]

pub one_each-bump :
    (p : Text → Bool) (k : Text) (chain chain' : List Node)
    → bump k chain ≡ some chain'
    → measure (one_each p) chain' ≡ measure (one_each p) chain
unfolding bump measure
one_each-bump p k [] chain' h = cc
one_each-bump p k (n ∷ chain) chain' h = elim (Bool-cases (str_eq n.key k)) [
  | inl same ↦ ground (arith, same)
  | inr other ↦ elim (Option-cases (bump k chain)) [
    | inl e ↦ ground (arith, e)
    | inr (c, e) ↦ ground (arith, e, one_each-bump p k chain c)
  ]
]

pub one_each-eq-zero :
    (k : Text) (chain : List Node) → find k chain ≡ none → measure (one_each (is_key k)) chain ≡ 0
unfolding find measure
one_each-eq-zero k [] h = refl
one_each-eq-zero k (n ∷ chain) h = ground (arith, one_each-eq-zero k chain)

-- A new type gets a node of value 1, at the head of its chain.
pub register-absent :
    (t : Table) (k : Text)
    → find k (home_chain t k) ≡ none
    → (register t k).buckets
      ≡ set t.buckets (hash k t.size) (record { key = k; value = 1 } ∷ home_chain t k)
unfolding register insert get
register-absent t k absent = ground (arith, absent, bump-eq-none k (home_chain t k) absent)

pub register-present :
    (t : Table) (k : Text) (chain : List Node)
    → bump k (home_chain t k) ≡ some chain
    → (register t k).buckets ≡ set t.buckets (hash k t.size) chain
unfolding register insert
register-present t k chain run = ground (arith, run)

pub size-register : (t : Table) (k : Text) → (register t k).size ≡ t.size
unfolding register insert
size-register t k = elim (Option-cases (bump k (home_chain t k))) [
  | inl e ↦ ground (arith, e)
  | inr (c, e) ↦ ground (arith, e)
]

-- One more registration adds one to the printed values.
valued-register :
    (p : Text → Bool) (t : Table) (k : Text)
    → IsSized t
    → measure (valued every) (flatten t.buckets) + 1 < 2 ^ 32
    → measure (valued p) (flatten (register t k).buckets)
      ≡ measure (valued p) (flatten t.buckets) + (if p k then 1 else 0)
unfolding measure
valued-register p t k sized small =
    let i = hash k t.size in
    let chain = get_or t.buckets i [] in
    let inside : i < length t.buckets = rw sized.width (hash-lt k t.size sized.positive) in
    elim (Option-cases (find k chain)) [
      | inl absent ↦
          let fresh : Node = record { key = k; value = 1 } in
          let step = measure-flatten-set (valued p) t.buckets i (fresh ∷ chain) inside in
          rw (register-absent t k absent) (ground (arith, step))
      | inr (old, present) ↦
          let (chain', run, reads) = find-bump k k chain old present in
          let step = measure-flatten-set (valued p) t.buckets i chain' inside in
          let part = measure-flatten-set (valued every) t.buckets i [] inside in
          let bumped = valued-bump p k chain chain' (omega (arith, part)) run in
          rw (register-present t k chain' run) (omega (arith, step, bumped))
    ]

pub valued-register_all :
    (p : Text → Bool) (t : Table) (keys : List Text)
    → IsSized t
    → measure (valued every) (flatten t.buckets) + length keys < 2 ^ 31
    → measure (valued p) (flatten (register_all t keys).buckets)
      ≡ measure (valued p) (flatten t.buckets)
        + measure (valued p) (map (λ k. record { key = k; value = 1 }) keys)
unfolding register_all measure
valued-register_all p t [] sized small = omega arith
valued-register_all p t (k ∷ keys) sized small = omega (
  arith,
  valued-register every t k sized (omega arith),
  valued-register p t k sized (omega arith),
  valued-register_all p (register t k) keys (register-IsSized t k sized)
      (omega (arith, valued-register every t k sized (omega arith))),
)

-- A registration prints no line more but perhaps one for its own key.
pub one_each-register :
    (q : Text) (t : Table) (k : Text)
    → IsSized t
    → measure (one_each (is_key q)) (flatten (register t k).buckets)
      ≤ measure (one_each (is_key q)) (flatten t.buckets) + (if str_eq k q then 1 else 0)
unfolding measure
one_each-register q t k sized =
    let i = hash k t.size in
    let chain = home_chain t k in
    let inside : i < length t.buckets = rw sized.width (hash-lt k t.size sized.positive) in
    elim (Option-cases (find k chain)) [
      | inl absent ↦
          let fresh : Node = record { key = k; value = 1 } in
          let step = measure-flatten-set (one_each (is_key q)) t.buckets i (fresh ∷ chain) inside in
          rw (register-absent t k absent) (ground (arith, step))
      | inr (old, present) ↦
          let (chain', run, reads) = find-bump k k chain old present in
          let step = measure-flatten-set (one_each (is_key q)) t.buckets i chain' inside in
          rw (register-present t k chain' run)
            (omega (arith, step, one_each-bump (is_key q) k chain chain' run))
    ]
