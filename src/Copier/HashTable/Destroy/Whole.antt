-- ===== src/Copier/HashTable/Destroy/Whole.antt =====
-- HW5/program.c: `destroyHashtable` on a whole table.
use advanced_c_language_proj.Base.{
  ℕ, suc, ◌+◌, ◌<◌, ◌≡◌, ◌∙◌, refl, sym, true, false, ◌||◌, List, [], ◌∷◌, ◌++◌, map, none, some,
  ◌==◌, if◌then◌else◌, length, get_or, arith, Bool-cases, inl, inr, All, append_assoc,
  length-append,
}
use advanced_c_language_proj.Copier.HashTable.{Table}
use advanced_c_language_proj.Copier.HashTable.Destroy.{
  array, table, Memory, free, table_at, array_at, destroy_chain, destroy_from, destroy_hashtable,
}
use advanced_c_language_proj.Copier.HashTable.Destroy.Freed.{
  Place, is_in, AreApart, blocks, IsChain, IsFreed, IsChain-frame, destroy_chain-IsFreed, free_lem,
}

-- A bucket: its pointer and its chain.
abbrev pub Bucket : Type 0
Bucket = ℕ × List Place

unfoldable pub all_blocks : List Bucket → List ℕ
all_blocks [] = []
all_blocks (bucket ∷ buckets) = blocks bucket.1 ++ all_blocks buckets

-- The table `t` in memory.
pub record IsTable (m : Memory) (hashtable at_buckets : ℕ) (buckets : List Bucket) (t : Table)
    : Type 0 where
  pub size : t.size ≡ length buckets
  pub contents : t.buckets ≡ map (λ b. map (λ place. place.content) b.1) buckets
  pub head : m hashtable ≡ some (table t.size t.count at_buckets)
  pub pointers : m at_buckets ≡ some (array (map (λ b. b.0) buckets))
  pub chains : All (λ b. IsChain m b.0 b.1) buckets
  pub apart : AreApart (all_blocks buckets ++ at_buckets ∷ hashtable ∷ [])

is_in-append : (a : ℕ) (l k : List ℕ) → is_in a (l ++ k) ≡ (is_in a l || is_in a k)
unfolding is_in
is_in-append a [] k = refl
is_in-append a (b ∷ l) k = ground (arith, is_in-append a l k)

AreApart-append :
    (l k : List ℕ)
    → AreApart (l ++ k)
    → AreApart l × AreApart k × ((a : ℕ) → is_in a k ≡ true → is_in a l ≡ false)
unfolding AreApart is_in
AreApart-append [] k h = (tt, h, λ a inside. refl)
AreApart-append (b ∷ l) k h =
    let (apart_l, apart_k, others) = AreApart-append l k h.1 in
    let both = is_in-append b l k in
    (
      (ground (arith, h.0, both), apart_l),
      apart_k,
      λ a inside. elim (Bool-cases (a == b)) [
        | inl e ↦
            let same : a ≡ b = ground (arith, e) in
            let there : is_in b k ≡ true = rw same at inside in
            absurd (ground (arith, there, both, h.0))
        | inr e ↦ ground (arith, e, others a inside)
      ],
    )

get_or-pointers :
    (before : List Bucket) (b : Bucket) (buckets : List Bucket)
    → get_or (map (λ c. c.0) (before ++ b ∷ buckets)) (length before) 0 ≡ b.0
get_or-pointers [] b buckets = refl
get_or-pointers (c ∷ before) b buckets = get_or-pointers before b buckets

-- Chains whose blocks stay are chains still.
All-frame :
    (m m' : Memory) (buckets : List Bucket)
    → ((a : ℕ) → is_in a (all_blocks buckets) ≡ true → m' a ≡ m a)
    → All (λ b. IsChain m b.0 b.1) buckets
    → All (λ b. IsChain m' b.0 b.1) buckets
unfolding all_blocks
All-frame m m' [] same h = tt
All-frame m m' (b ∷ buckets) same h = (
  IsChain-frame m m' b.0 b.1
      (λ a inside.
        same a (ground (arith, is_in-append a (blocks b.1) (all_blocks buckets), inside)))
      h.0,
  All-frame m m' buckets
      (λ a inside.
        same a (ground (arith, is_in-append a (blocks b.1) (all_blocks buckets), inside)))
      h.1,
)

table_at_lem :
    (m : Memory) (p size count buckets : ℕ)
    → m p ≡ some (table size count buckets)
    → table_at m p ≡ some (size, buckets)
unfolding table_at
table_at_lem m p size count buckets e = rw (table_at, e) refl

array_at_lem : (m : Memory) (p : ℕ) (l : List ℕ) → m p ≡ some (array l) → array_at m p ≡ some l
unfolding array_at
array_at_lem m p l e = rw (array_at, e) refl

-- One round of the outer loop.
destroy_from_round :
    (fuel rounds i hashtable size at_buckets : ℕ) (l : List ℕ) (m m1 : Memory)
    → table_at m hashtable ≡ some (size, at_buckets)
    → array_at m at_buckets ≡ some l
    → destroy_chain fuel (get_or l i 0) m ≡ some m1
    → destroy_from fuel (suc rounds) i hashtable m ≡ destroy_from fuel rounds (i + 1) hashtable m1
unfolding destroy_from
destroy_from_round fuel rounds i hashtable size at_buckets l m m1 head pointers done =
    rw (destroy_from, head, pointers, done) refl

destroy_hashtable_parts :
    (fuel hashtable size at_buckets : ℕ) (m m1 m2 m3 : Memory)
    → table_at m hashtable ≡ some (size, at_buckets)
    → destroy_from fuel size 0 hashtable m ≡ some m1
    → free at_buckets m1 ≡ some m2
    → free hashtable m2 ≡ some m3
    → destroy_hashtable fuel hashtable m ≡ some m3
unfolding destroy_hashtable
destroy_hashtable_parts fuel hashtable size at_buckets m m1 m2 m3 head done first second =
    rw (destroy_hashtable, head, done, first) second

-- The outer loop frees the chains that are left.
destroy_from-IsFreed :
    (fuel size count hashtable at_buckets : ℕ) (before buckets : List Bucket) (m : Memory)
    → All (λ b. length b.1 < fuel) buckets
    → m hashtable ≡ some (table size count at_buckets)
    → m at_buckets ≡ some (array (map (λ b. b.0) (before ++ buckets)))
    → All (λ b. IsChain m b.0 b.1) buckets
    → AreApart (all_blocks buckets ++ at_buckets ∷ hashtable ∷ [])
    → (m' : Memory) × (destroy_from fuel (length buckets) (length before) hashtable m ≡ some m')
      × IsFreed (all_blocks buckets) m m'
unfolding destroy_from all_blocks is_in
destroy_from-IsFreed fuel size count hashtable at_buckets before [] m enough head pointers chains
      apart =
    (m, refl, λ a. refl)
destroy_from-IsFreed fuel size count hashtable at_buckets before (b ∷ buckets) m enough head
      pointers chains apart =
    let rest : List ℕ = all_blocks buckets ++ at_buckets ∷ hashtable ∷ [] in
    let split : AreApart (blocks b.1 ++ rest) =
      rw (append_assoc (blocks b.1) (all_blocks buckets) (at_buckets ∷ hashtable ∷ [])) at apart in
    let (own, others, away) = AreApart-append (blocks b.1) rest split in
    let (m1, done, freed) = destroy_chain-IsFreed fuel b.0 m b.1 enough.0 chains.0 own in
    let kept : (a : ℕ) → is_in a rest ≡ true → m1 a ≡ m a =
      λ a inside. freed a ∙ rw (away a inside) refl in
    let in_rest = λ (a : ℕ). is_in-append a (all_blocks buckets) (at_buckets ∷ hashtable ∷ []) in
    let head1 : m1 hashtable ≡ some (table size count at_buckets) =
      kept hashtable (ground (arith, in_rest hashtable)) ∙ head in
    let pointers1 : m1 at_buckets ≡ some (array (map (λ c. c.0) (before ++ b ∷ buckets))) =
      kept at_buckets (ground (arith, in_rest at_buckets)) ∙ pointers in
    let shifted : before ++ b ∷ buckets ≡ (before ++ b ∷ []) ++ buckets =
      sym (append_assoc before (b ∷ []) buckets) in
    let chains1 =
      All-frame m m1 buckets (λ a inside. kept a (ground (arith, in_rest a, inside))) chains.1 in
    let (m', done', freed') =
      destroy_from-IsFreed fuel size count hashtable at_buckets (before ++ b ∷ []) buckets m1
        enough.1 head1 (rw shifted at pointers1) chains1 others in
    let here : destroy_chain fuel
          (get_or (map (λ c. c.0) (before ++ b ∷ buckets)) (length before) 0) m
        ≡ some m1 =
      rw (get_or-pointers before b buckets) done in
    let round =
      destroy_from_round fuel (length buckets) (length before) hashtable size at_buckets
        (map (λ c. c.0) (before ++ b ∷ buckets)) m m1
        (table_at_lem m hashtable size count at_buckets head)
        (array_at_lem m at_buckets (map (λ c. c.0) (before ++ b ∷ buckets)) pointers) here in
    let next : length (before ++ b ∷ []) ≡ length before + 1 =
      omega (arith, length-append before (b ∷ [])) in
    (
      m',
      round ∙ rw next at done',
      λ a. ground (arith, freed' a, freed a, is_in-append a (blocks b.1) (all_blocks buckets)),
    )

-- destroyHashtable frees every block of the table, each exactly once, touches no memory that is not
-- allocated, leaves all other memory as it is, and comes to its end. `fuel` is more than the length of
-- every chain, and the blocks of the table are apart from each other.
pub destroy_hashtable-IsFreed :
    (fuel hashtable at_buckets : ℕ) (m : Memory) (buckets : List Bucket) (t : Table)
    → IsTable m hashtable at_buckets buckets t
    → All (λ b. length b.1 < fuel) buckets
    → (m' : Memory) × (destroy_hashtable fuel hashtable m ≡ some m')
      × IsFreed (all_blocks buckets ++ at_buckets ∷ hashtable ∷ []) m m'
unfolding destroy_hashtable is_in AreApart
destroy_hashtable-IsFreed fuel hashtable at_buckets m buckets t h enough =
    let ends : List ℕ = at_buckets ∷ hashtable ∷ [] in
    let (m1, done, freed) =
      destroy_from-IsFreed fuel t.size t.count hashtable at_buckets [] buckets m enough h.head
        h.pointers h.chains h.apart in
    let (_, apart, away) = AreApart-append (all_blocks buckets) ends h.apart in
    let differ : (at_buckets == hashtable) ≡ false = ground (arith, apart.0) in
    let differ' : (hashtable == at_buckets) ≡ false = ground (arith, differ) in
    let array_there : m1 at_buckets ≡ some (array (map (λ b. b.0) buckets)) =
      freed at_buckets ∙ rw (away at_buckets (ground arith)) h.pointers in
    let table_there : m1 hashtable ≡ some (table t.size t.count at_buckets) =
      freed hashtable ∙ rw (away hashtable (ground arith)) h.head in
    let m2 : Memory = λ q. if q == at_buckets then none else m1 q in
    let table_there' : m2 hashtable ≡ some (table t.size t.count at_buckets) =
      rw differ' table_there in
    let whole : destroy_from fuel t.size 0 hashtable m ≡ some m1 = rw (h.size) done in
    (
      (λ q. if q == hashtable then none else m2 q),
      destroy_hashtable_parts fuel hashtable t.size at_buckets m m1 m2
          (λ q. if q == hashtable then none else m2 q)
          (table_at_lem m hashtable t.size t.count at_buckets h.head) whole
          (free_lem at_buckets m1 (array (map (λ b. b.0) buckets)) array_there)
          (free_lem hashtable m2 (table t.size t.count at_buckets) table_there'),
      λ a. ground (arith, freed a, is_in-append a (all_blocks buckets) ends),
    )
