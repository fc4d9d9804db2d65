-- ===== src/Copier/HashTable/Measure.antt =====
-- Sums over the nodes of a table, and the order in which `main` prints them.
use native.Mathlib.Numerals.{add-one}
use advanced_c_language_proj.Base.{
  ℕ, zero, suc, ◌+◌, ◌<◌, ◌≤◌, ◌≡◌, refl, List, [], ◌∷◌, ◌++◌, arith, length, get_or, set, flatten,
  drop, drop-all, drop-get_or,
}
use advanced_c_language_proj.Copier.HashTable.{Node, Table, report_from, report}
use advanced_c_language_proj.Copier.HashTable.Lookup.{IsSized}

-- The sum of a number that each node has.
unfoldable pub measure : (Node → ℕ) → List Node → ℕ
measure f [] = 0
measure f (n ∷ nodes) = f n + measure f nodes

pub measure-append :
    (f : Node → ℕ) (a b : List Node) → measure f (a ++ b) ≡ measure f a + measure f b
unfolding measure
measure-append f [] b = omega arith
measure-append f (n ∷ a) b = omega (arith, measure-append f a b)

-- To replace a chain changes the sum by the difference of the two chains.
pub measure-flatten-set :
    (f : Node → ℕ) (bs : List (List Node)) (i : ℕ) (chain : List Node)
    → i < length bs
    → measure f (flatten (set bs i chain)) + measure f (get_or bs i [])
      ≡ measure f (flatten bs) + measure f chain
unfolding flatten measure
measure-flatten-set f [] i chain h = absurd (omega arith)
measure-flatten-set f (c ∷ bs) zero chain h =
    omega (arith, measure-append f chain (flatten bs), measure-append f c (flatten bs))
measure-flatten-set f (c ∷ bs) (suc i) chain h = omega (
  arith,
  measure-append f c (flatten (set bs i chain)),
  measure-append f c (flatten bs),
  measure-flatten-set f bs i chain (omega arith),
)

pub measure_mono :
    (f g : Node → ℕ) → ((n : Node) → f n ≤ g n) → (a : List Node) → measure f a ≤ measure g a
unfolding measure
measure_mono f g h [] = omega arith
measure_mono f g h (n ∷ a) = omega (arith, h n, measure_mono f g h a)

report_from-eq-drop :
    (rounds i : ℕ) (bs : List (List Node))
    → i + rounds ≡ length bs
    → report_from rounds i bs ≡ flatten (drop i bs)
unfolding report_from flatten
report_from-eq-drop zero i bs h = ground (arith, drop-all bs i)
report_from-eq-drop (suc rounds) i bs h =
    ground (arith, add-one i, drop-get_or bs i [], report_from-eq-drop rounds (i + 1) bs)

-- A sized table prints all its nodes, bucket after bucket.
pub report-eq-flatten : (t : Table) → IsSized t → report t ≡ flatten t.buckets
unfolding report
report-eq-flatten t sized =
    rw (report_from-eq-drop t.size 0 t.buckets (omega (arith, sized.width))) refl
