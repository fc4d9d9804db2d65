-- ===== src/Copier/HashTable/Report.antt =====
-- What `main` prints of the table at its end: one line for each file type.
use advanced_c_language_proj.Base.{
  ℕ, suc, ◌+◌, ◌^◌, ◌<◌, ◌≤◌, ◌≡◌, refl, inl, inr, List, [], ◌∷◌, map, arith, length, min, get_or,
  flatten, if◌then◌else◌, ◌==◌, leb, Option-cases, get_or-replicate, get_or-set_self, get_or-set_ne,
  ℕ_discrete,
}
use advanced_c_language_proj.Base.Text.{Text, str_eq_iff}
use advanced_c_language_proj.Copier.HashTable.{
  Node, Table, hash, find, create_hashtable, register, register_all, report,
}
use advanced_c_language_proj.Copier.HashTable.Lookup.{IsSized, hash-lt, find-bump}
use advanced_c_language_proj.Copier.HashTable.Measure.{measure, measure-append, report-eq-flatten}
use advanced_c_language_proj.Copier.HashTable.Counts.{
  occurrences, create_hashtable-IsSized, register-IsSized,
}
use advanced_c_language_proj.Copier.HashTable.Register.{
  valued, one_each, every, is_key, home_chain, one_each-bump, one_each-eq-zero, register-absent,
  size-register, one_each-register, register-present, valued-register_all,
}

-- A key stands at most once in its home bucket, and in no other.
abbrev IsPlaced : Table → Type 0
IsPlaced t =
    (q : Text) (i : ℕ)
    → measure (one_each (is_key q)) (get_or t.buckets i []) ≤ (if hash q t.size == i then 1 else 0)

register-IsPlaced : (t : Table) (k : Text) → IsSized t → IsPlaced t → IsPlaced (register t k)
unfolding measure
register-IsPlaced t k sized placed q i =
    let h = hash k t.size in
    let chain = home_chain t k in
    let inside : h < length t.buckets = rw sized.width (hash-lt k t.size sized.positive) in
    rw (size-register t k) (elim (Option-cases (find k chain)) [
      | inl absent ↦
          let fresh : Node = record { key = k; value = 1 } in
          rw (register-absent t k absent) (elim (ℕ_discrete h i) [
            | yes e ↦ ground (
              arith,
              e,
              placed q i,
              one_each-eq-zero k chain absent,
              str_eq_iff k q,
              get_or-set_self t.buckets h (fresh ∷ chain) [] inside,
            )
            | no ne ↦ rw (get_or-set_ne t.buckets h i (fresh ∷ chain) [] ne) (placed q i)
          ])
      | inr (old, present) ↦
          let (chain', run, reads) = find-bump k k chain old present in
          rw (register-present t k chain' run) (elim (ℕ_discrete h i) [
            | yes e ↦ ground (
              arith,
              e,
              placed q i,
              one_each-bump (is_key q) k chain chain' run,
              get_or-set_self t.buckets h chain' [] inside,
            )
            | no ne ↦ rw (get_or-set_ne t.buckets h i chain' [] ne) (placed q i)
          ])
    ])

-- If a number stands in one bucket only, its sum over all buckets is what stands there.
measure-flatten-le :
    (f : Node → ℕ) (j base : ℕ) (bs : List (List Node))
    → ((i : ℕ) → measure f (get_or bs i []) ≤ (if j == base + i then 1 else 0))
    → measure f (flatten bs) ≤ (if leb base j then 1 else 0)
unfolding measure flatten
measure-flatten-le f j base [] h = omega arith
measure-flatten-le f j base (c ∷ bs) h = ground (
  arith,
  measure-append f c (flatten bs),
  h 0,
  measure-flatten-le f j (base + 1) bs (λ i. ground (arith, h (suc i))),
)

register_all-Both :
    (t : Table) (keys : List Text)
    → IsSized t
    → IsPlaced t
    → IsSized (register_all t keys) × IsPlaced (register_all t keys)
unfolding register_all
register_all-Both t [] sized placed = (sized, placed)
register_all-Both t (k ∷ keys) sized placed =
    register_all-Both (register t k) keys (register-IsSized t k sized)
      (register-IsPlaced t k sized placed)

create_hashtable-IsPlaced : IsPlaced create_hashtable
unfolding create_hashtable measure
create_hashtable-IsPlaced q i = ground (arith, get_or-replicate {A = List Node} 10 i [])

valued_ones-eq-occurrences :
    (q : Text) (keys : List Text)
    → measure (valued (is_key q)) (map (λ k. record { key = k; value = 1 }) keys)
      ≡ occurrences q keys
unfolding measure occurrences
valued_ones-eq-occurrences q [] = refl
valued_ones-eq-occurrences q (k ∷ keys) = omega (arith, valued_ones-eq-occurrences q keys)

measure-create_hashtable : (f : Node → ℕ) → measure f (flatten create_hashtable.buckets) ≡ 0
unfolding create_hashtable measure flatten
measure-create_hashtable f = refl

one_each-register_all :
    (q : Text) (t : Table) (keys : List Text)
    → IsSized t
    → measure (one_each (is_key q)) (flatten (register_all t keys).buckets)
      ≤ measure (one_each (is_key q)) (flatten t.buckets) + occurrences q keys
unfolding register_all occurrences
one_each-register_all q t [] sized = omega arith
one_each-register_all q t (k ∷ keys) sized = omega (
  arith,
  one_each-register q t k sized,
  one_each-register_all q (register t k) keys (register-IsSized t k sized),
)

-- Where no line is printed for a key, no value is.
valued-le-one_each :
    (q : Text) (nodes : List Node)
    → measure (one_each (is_key q)) nodes ≡ 0
    → measure (valued (is_key q)) nodes ≡ 0
unfolding measure
valued-le-one_each q [] h = refl
valued-le-one_each q (n ∷ nodes) h = ground (arith, valued-le-one_each q nodes)

-- When fewer than 2 ^ 31 files have been registered in a new table, `main` prints exactly one line
-- for a type that some file has and none for any other, and the values of the lines for a type sum
-- up to the number of files of that type.
pub report-register_all :
    (keys : List Text) (q : Text)
    → length keys < 2 ^ 31
    → let printed = report (register_all create_hashtable keys) in
      (measure (one_each (is_key q)) printed ≡ min 1 (occurrences q keys))
      × (measure (valued (is_key q)) printed ≡ occurrences q keys)
report-register_all keys q small =
    let t = register_all create_hashtable keys in
    let (sized, placed) =
      register_all-Both create_hashtable keys create_hashtable-IsSized create_hashtable-IsPlaced in
    let once =
      measure-flatten-le (one_each (is_key q)) (hash q t.size) 0 t.buckets
        (λ i. ground (arith, placed q i)) in
    let few = one_each-register_all q create_hashtable keys create_hashtable-IsSized in
    let sum =
      valued-register_all (is_key q) create_hashtable keys create_hashtable-IsSized
        (omega (arith, measure-create_hashtable (valued every))) in
    rw (report-eq-flatten t sized) (
      ground (
        arith,
        once,
        few,
        sum,
        measure-create_hashtable (valued (is_key q)),
        measure-create_hashtable (one_each (is_key q)),
        valued_ones-eq-occurrences q keys,
        valued-le-one_each q (flatten t.buckets),
      ))
